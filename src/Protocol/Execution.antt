-- ===== src/Protocol/Execution.antt =====
-- `sendViewChange` and `executeRequest` are steps of the protocol.
use trebiz.Prelude.{
  ℕ, zero, suc, ◌≡◌, refl, sym, subst, ◌∷◌, Option, none, some, Bool, true, false, nat_key, lookup,
  insert, get, length, add32, ltb, lookup-insert_self, Bool-cases, inl, inr, if◌then◌else◌, arith,
}
use trebiz.Messages.{Bytes, MsgId, PrePrepareMsg}
use trebiz.Node.Env.{Env}
use trebiz.Node.State.{Node, World, MsgCert, committed, executes}
use trebiz.Node.Monad.{M, and_then, after, ErrChan, ◌>>=◌, ◌>>◌, skip}
use trebiz.Node.Cert.{get_cert, cert_of}
use trebiz.ViewChange.Send.{send_view_change}
use trebiz.Normal.Execute.{
  no_id, is_buffered, note_execution, after_execution, execute_cert, execute_next, execute_loop,
  execute_request,
}
use trebiz.Protocol.Spec.{Core, core, Step, IsClosed, executes_next, leaves_view, queues, buffers}
use trebiz.Protocol.Keeps.{
  Keeps, and_then_with, Keeps-bind, Keeps-skip, Keeps-modify, Keeps-read_node, keeps_rules,
}
use trebiz.Protocol.Quiet.{
  Keeps-report, Keeps-stop_timer, Keeps-start_timer, Keeps-broadcast, Keeps-check_if_create_chkpt,
}
use trebiz.Protocol.Certs.{opened, cert_of-opened, opened-step}

module _ (e : Env) {Q : Core → Type 0}
    (leaves : (s : Core) → Q s → Q (record s { view = add32 s.view 1; active = false })) where
  pub Keeps-send_view_change : (err : ErrChan) → Keeps Q (send_view_change e err)
  unfolding send_view_change
  Keeps-send_view_change err = Keeps-bind _ _ Keeps-stop_timer λ _.
      Keeps-bind _ _ (Keeps-modify _ (λ w h. leaves (core w) h)) λ _.
        Keeps-bind _ _ Keeps-read_node λ n. Keeps-bind _ _ (Keeps-modify _ (λ w h. h)) λ _.
          Keeps-bind _ _ (Keeps-broadcast e _ _ _) λ failed.
            Keeps-bind _ _ (Keeps-report failed err)
              λ _. Keeps-bind _ _ (Keeps-start_timer _) λ _. Keeps-modify _ (λ w h. h)

  pub Keeps-after_execution : (err : ErrChan) → Keeps Q (after_execution e err)
  unfolding after_execution
  Keeps-after_execution err =
      search (keeps_rules, Keeps-check_if_create_chkpt, Keeps-send_view_change)

-- A test of the buffer that passes gives the entry.
is_buffered-get :
    (n : Node) (i : ℕ)
    → is_buffered n i ≡ true
    → (digest : Bytes) × (get i none n.exec_req_buffer ≡ some digest)
is_buffered-get n i h = ground arith

-- The world after `note_execution`.
abbrev pub executed : World → MsgId → World
executed w id = record w {
  node = record w.node { last_exec = add32 w.node.last_exec 1 };
  out = executes (add32 w.node.last_exec 1) id ∷ w.out;
}

-- The step, for the number that the loop has.
note-Step :
    (e : Env) (s : Core) (i : ℕ) (digest : Bytes)
    → i ≡ add32 s.last_exec 1
    → get i none s.buffer ≡ some digest
    → Step e s (record s {
      last_exec = add32 s.last_exec 1;
      log = (add32 s.last_exec 1, get i no_id s.ids) ∷ s.log;
    })
note-Step e s i digest at b =
    subst
      (λ j. Step e s (record s {
        last_exec = add32 s.last_exec 1;
        log = (add32 s.last_exec 1, get j no_id s.ids) ∷ s.log;
      }))
      (sym at) (executes_next s digest (rw (← at) b))

module _ (e : Env) {Q : Core → Type 0} (closed : IsClosed e Q) where
  -- `Q`, with the number of the last executed request.
  abbrev pub At : ℕ → Core → Type 0
  At i s = Q s × (s.last_exec ≡ i)

  pub leaves-At :
      (i : ℕ) (s : Core) → At i s → At i (record s { view = add32 s.view 1; active = false })
  leaves-At i s (q, l) = (closed.at (leaves_view s) q, l)

  -- What follows a round finds the request executed.
  execute_cert-then :
      (v : World) (store : Option PrePrepareMsg) (i : ℕ) (err : ErrChan) (k : M (Unit {0}))
      → i ≡ add32 v.node.last_exec 1
      → is_buffered v.node i ≡ true
      → Q (core v)
      → ((u : World) → At i (core u) → Q (core (after (k u))))
      → Q (
          core (
            after (
              and_then
                (execute_cert e store (get i no_id v.node.exec_req_id_buffer) err v)
                (λ _. k))))
  unfolding execute_cert note_execution ◌>>=◌
  execute_cert-then v none i err k at b q h = q
  execute_cert-then v (some m) i err k at b q h =
      let buffered = is_buffered-get v.node i b in
      let next = executed v (get i no_id v.node.exec_req_id_buffer) in
      and_then_with (At i) (after_execution e err next) (λ _. k) (λ s p. p.0) (λ _ u p. h u p)
        ((Keeps-after_execution e (leaves-At i) err).at next
          (closed.at (note-Step e (core v) i buffered.0 at buffered.1) q, sym at))

  execute_round :
      (w : World) (i : ℕ) (err : ErrChan) (k : M (Unit {0}))
      → i ≡ add32 w.node.last_exec 1
      → is_buffered w.node i ≡ true
      → Q (core w)
      → ((u : World) → At i (core u) → Q (core (after (k u))))
      → Q (core (after ((execute_next e i err >> k) w)))
  unfolding execute_next get_cert ◌>>=◌
  execute_round w i err k at b q h =
      let id = get i no_id w.node.exec_req_id_buffer in
      execute_cert-then (opened id w) (cert_of w.node id).pre_prepare_store i err k at b
        (opened-step e closed w id q) h

  execute_if :
      (b : Bool) (w : World) (i : ℕ) (err : ErrChan) (k : M (Unit {0}))
      → i ≡ add32 w.node.last_exec 1
      → is_buffered w.node i ≡ b
      → Q (core w)
      → ((u : World) → At i (core u) → Q (core (after (k u))))
      → Q (core (after ((if b then execute_next e i err >> k else skip) w)))
  unfolding skip
  execute_if true w i err k at b q h = execute_round w i err k at b q h
  execute_if false w i err k at b q h = q

  pub execute_loop-step :
      (fuel i : ℕ) (err : ErrChan) (w : World)
      → i ≡ add32 w.node.last_exec 1
      → Q (core w)
      → Q (core (after (execute_loop e fuel i err w)))
  unfolding execute_loop ◌>>=◌
  execute_loop-step zero i err w at q = q
  execute_loop-step (suc fuel) i err w at q =
      execute_if (is_buffered w.node i) w i err (execute_loop e fuel (add32 i 1) err) at refl q
        λ u p. execute_loop-step fuel (add32 i 1) err u (omega (arith, p.1)) p.0

  execute_buffered :
      (id : MsgId) (err : ErrChan) (w : World)
      → Q (core w)
      → Q (
          core (
            after (
              (if ltb w.node.last_exec id.sn
                  then execute_loop e
                      (suc (length w.node.exec_req_buffer))
                      (add32 w.node.last_exec 1)
                      err
                  else skip)
                w)))
  execute_buffered id err w q = elim (Bool-cases (ltb w.node.last_exec id.sn)) [
    | inl new ↦ rw new (execute_loop-step (suc (length w.node.exec_req_buffer)) _ err w refl q)
    | inr old ↦ rw old ((Keeps-skip {Q = Q}).at w q)
  ]

  -- The digest of the committed request is buffered.
  buffer-step :
      (id : MsgId) (w : World)
      → lookup id.sn w.node.exec_req_id_buffer ≡ some id
      → Q (core w)
      → Q (
          core (record (opened id w) {
            node = record (opened id w).node {
              exec_req_buffer =
                  insert id.sn (cert_of w.node id).req_batch_digest w.node.exec_req_buffer;
            };
          }))
  buffer-step id w queued q =
      subst
        (λ (c : MsgCert). Q (record (core (opened id w)) {
          buffer = insert id.sn c.req_batch_digest w.node.exec_req_buffer;
        }))
        (cert_of-opened w id)
        (closed.at (buffers (core (opened id w)) id queued) (opened-step e closed w id q))

  -- A committed request is buffered, and executed with those that waited for it.
  pub execute_request-step :
      (id : MsgId) (err : ErrChan) (w : World)
      → (cert_of w.node id).req_batch_stage ≡ committed
      → Q (core w)
      → Q (core (after (execute_request e id err w)))
  unfolding execute_request get_cert ◌>>=◌
  execute_request-step id err w c q = execute_buffered id err _ (
      buffer-step id
        (record w {
          node = record w.node { exec_req_id_buffer = insert id.sn id w.node.exec_req_id_buffer };
        })
        (lookup-insert_self id.sn id w.node.exec_req_id_buffer)
        (closed.at (queues (core w) id c) q))
