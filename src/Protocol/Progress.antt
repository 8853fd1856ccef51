-- ===== src/Protocol/Progress.antt =====
-- A committed request whose turn it is gets into the log of executed requests.
use trebiz.Prelude.{
  ℕ, suc, ◌≡◌, ◌∙◌, ap, sym, some, true, nat_key, insert, get, length, add32, ltb,
  lookup-insert_self, arith, Memᴰ,
}
use mathlib.Core.List.Memᴰ.{head, tail}
use trebiz.Messages.{Bytes, MsgId, id_key, PrePrepareMsg}
use trebiz.Node.Env.{Env}
use trebiz.Node.State.{World, MsgCert}
use trebiz.Node.Monad.{and_then, after, ErrChan, ◌>>=◌}
use trebiz.Node.Cert.{get_cert, cert_of}
use trebiz.Normal.Execute.{
  no_id, is_buffered, note_execution, after_execution, execute_cert, execute_next, execute_loop,
  execute_request,
}
use trebiz.Protocol.Spec.{
  Core, core, IsClosed, Step, opens, changes, queues, buffers, executes_next, signs_vote, moves_low,
  goes_before, leaves_view, enters_view, stores_checkpoint, notes_ask, notes_new_view,
  makes_new_view,
}
use trebiz.Protocol.Keeps.{and_then_with}
use trebiz.Protocol.Certs.{opened, cert_of-opened}
use trebiz.Protocol.Execution.{executed, At, leaves-At, Keeps-after_execution, execute_loop-step}

-- The log has an entry.
abbrev pub HasLogged : ℕ × MsgId → Core → Type 0
HasLogged p s = Memᴰ p s.log

module _ (e : Env) (p : ℕ × MsgId) where
  Step-HasLogged : {s t : Core} → Step e s t → HasLogged p s → HasLogged p t
  Step-HasLogged (executes_next s x c) h = tail h
  Step-HasLogged (opens s id n) h = h
  Step-HasLogged (changes s id c st) h = h
  Step-HasLogged (queues s id c) h = h
  Step-HasLogged (buffers s id c) h = h
  Step-HasLogged (signs_vote s sn) h = h
  Step-HasLogged (moves_low s sn c) h = h
  Step-HasLogged (goes_before s v c) h = h
  Step-HasLogged (leaves_view s) h = h
  Step-HasLogged (enters_view s c) h = h
  Step-HasLogged (stores_checkpoint s x c) h = h
  Step-HasLogged (notes_ask s x c) h = h
  Step-HasLogged (notes_new_view s x c) h = h
  Step-HasLogged (makes_new_view s x c) h = h

  logged-closed : IsClosed e (HasLogged p)
  logged-closed = record { at = Step-HasLogged }

module _ (e : Env) (id : MsgId) (err : ErrChan) where
  -- The round of a request that is not nil logs it, and what follows keeps it in the log.
  cert-logs :
      (v : World) (m : PrePrepareMsg) (i : ℕ) (fuel : ℕ)
      → i ≡ add32 v.node.last_exec 1
      → HasLogged
          (i, id)
          (core (
            after (
              and_then
                (execute_cert e (some m) id err v)
                (λ _. execute_loop e fuel (add32 i 1) err))))
  unfolding execute_cert note_execution ◌>>=◌
  cert-logs v m i fuel at =
      let closed = logged-closed e (i, id) in
      let next = executed v id in
      and_then_with (At e closed i) (after_execution e err next)
        (λ _. execute_loop e fuel (add32 i 1) err) (λ s q. q.0)
        (λ _ u q. execute_loop-step e closed fuel (add32 i 1) err u (omega (arith, q.1)) q.0)
        ((Keeps-after_execution e (leaves-At e closed i) err).at next
          (head (ap (λ j. (j, id)) at), sym at))

  round-logs :
      (w : World) (m : PrePrepareMsg) (i fuel : ℕ)
      → i ≡ add32 w.node.last_exec 1
      → is_buffered w.node i ≡ true
      → get i no_id w.node.exec_req_id_buffer ≡ id
      → (cert_of w.node id).pre_prepare_store ≡ some m
      → HasLogged (i, id) (core (after (execute_loop e (suc fuel) i err w)))
  unfolding execute_loop execute_next get_cert ◌>>=◌
  round-logs w m i fuel at waits named proposed =
      rw (waits, named, proposed) (cert-logs (opened id w) m i fuel at)

  -- What `execute_request` makes of the buffers.
  abbrev buffered : World → World
  buffered w =
      let v = opened id (record w {
        node = record w.node { exec_req_id_buffer = insert id.sn id w.node.exec_req_id_buffer };
      }) in
      record v {
        node = record v.node {
          exec_req_buffer =
              insert id.sn (cert_of w.node id).req_batch_digest w.node.exec_req_buffer;
        };
      }

  is_buffered-buffered :
      (w : World) (d : Bytes)
      → (cert_of w.node id).req_batch_digest ≡ some d
      → is_buffered (buffered w).node id.sn ≡ true
  is_buffered-buffered w d digest =
      rw digest (ground (arith, lookup-insert_self id.sn (some d) w.node.exec_req_buffer))

  named-buffered : (w : World) → get id.sn no_id (buffered w).node.exec_req_id_buffer ≡ id
  named-buffered w = ground (arith, lookup-insert_self id.sn id w.node.exec_req_id_buffer)

  pub request-logs :
      (w : World) (m : PrePrepareMsg) (d : Bytes)
      → id.sn ≡ add32 w.node.last_exec 1
      → ltb w.node.last_exec id.sn ≡ true
      → (cert_of w.node id).req_batch_digest ≡ some d
      → (cert_of w.node id).pre_prepare_store ≡ some m
      → HasLogged (id.sn, id) (core (after (execute_request e id err w)))
  unfolding execute_request get_cert ◌>>=◌
  request-logs w m d at new digest proposed =
      rw (new, sym at)
        (round-logs (buffered w) m id.sn (length (buffered w).node.exec_req_buffer) at
          (is_buffered-buffered w d digest) (named-buffered w)
          (ap (λ (c : MsgCert). c.pre_prepare_store) (cert_of-opened w id) ∙ proposed))
