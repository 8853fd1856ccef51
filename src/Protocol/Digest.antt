-- ===== src/Protocol/Digest.antt =====
-- Which batch a node executes in the fast path.
use trebiz.Prelude.{
  ℕ, zero, suc, nat_key, ◌≡◌, ◌∙◌, refl, ap, Option, none, some, Bool, true, false, Map, get,
  insert, lookup-insert_self, if◌then◌else◌, add32, ltb, arith,
}
use trebiz.Messages.{Bytes, MsgId, id_key, FastPrepareQc}
use trebiz.Node.Env.{Env}
use trebiz.Node.State.{World, MsgCert, received, committed}
use trebiz.Node.Monad.{M, Outcome, done, halted, ErrChan, and_then, after, skip, ◌>>=◌, ◌>>◌}
use trebiz.Node.Cert.{get_cert, modify_cert, cert_of}
use trebiz.Normal.Execute.{is_buffered, execute_next, execute_loop, execute_request}
use trebiz.Normal.Prepare.{check_if_prepared}
use trebiz.Protocol.Certs.{opened, cert_of-opened}
use trebiz.Protocol.Commits.{cert_of-modify_cert}
use trebiz.Normal.Steady.{Steady-execute_next}

abbrev buffer : World → Map ℕ (Option Bytes)
buffer w = w.node.exec_req_buffer

get-insert_self :
    (k : ℕ) (v : Option Bytes) (m : Map ℕ (Option Bytes)) → get k none (insert k v m) ≡ v
get-insert_self k v m = ground (arith, lookup-insert_self k v m)

and_then-same :
    (r : Outcome (Unit {0})) (k : M (Unit {0})) (w : World)
    → buffer (after r) ≡ buffer w
    → ((v : World) → buffer (after (k v)) ≡ buffer v)
    → buffer (after (and_then r (λ _. k))) ≡ buffer w
and_then-same (done a v) k w h f = f v ∙ h
and_then-same (halted s v) k w h f = h

round-same :
    (b : Bool) (m k : M (Unit {0})) (w : World)
    → buffer (after (m w)) ≡ buffer w
    → ((v : World) → buffer (after (k v)) ≡ buffer v)
    → buffer (after ((if b then m >> k else skip) w)) ≡ buffer w
unfolding skip ◌>>=◌
round-same true m k w h f = and_then-same (m w) k w h f
round-same false m k w h f = refl

if-same :
    (b : Bool) (m : M (Unit {0})) (w : World)
    → buffer (after (m w)) ≡ buffer w
    → buffer (after ((if b then m else skip) w)) ≡ buffer w
unfolding skip
if-same true m w h = h
if-same false m w h = refl

module _ (e : Env) (err : ErrChan) where
  execute_loop-same :
      (fuel i : ℕ) (w : World) → buffer (after (execute_loop e fuel i err w)) ≡ buffer w
  unfolding execute_loop ◌>>=◌
  execute_loop-same zero i w = refl
  execute_loop-same (suc fuel) i w =
      round-same (is_buffered w.node i) (execute_next e i err) (execute_loop e fuel (add32 i 1) err)
        w ((Steady-execute_next e i err).at w).same (execute_loop-same fuel (add32 i 1))

  execute_request-buffer :
      (id : MsgId) (w : World)
      → buffer (after (execute_request e id err w))
        ≡ insert id.sn (cert_of w.node id).req_batch_digest (buffer w)
  unfolding execute_request get_cert ◌>>=◌
  execute_request-buffer id w =
      if-same (ltb w.node.last_exec id.sn) _ _ (execute_loop-same _ (add32 w.node.last_exec 1) _)

  execute_request-digest :
      (id : MsgId) (w : World)
      → get id.sn none (buffer (after (execute_request e id err w)))
        ≡ (cert_of w.node id).req_batch_digest
  execute_request-digest id w =
      ap (λ b. get id.sn none b) (execute_request-buffer id w)
      ∙ get-insert_self id.sn (cert_of w.node id).req_batch_digest (buffer w)

-- In the fast path a node puts its own digest of a request into the execution buffer: the digest of the proposal
-- that it took, whatever batch hash the fast prepare certificate of the request has.
pub check_if_prepared-digest :
    (e : Env) (id : MsgId) (err : ErrChan) (w : World) (q : FastPrepareQc)
    → (cert_of w.node id).req_batch_stage ≡ received
    → (cert_of w.node id).fast_prepare_qc ≡ some q
    → get id.sn none (after (check_if_prepared e id err w)).node.exec_req_buffer
      ≡ (cert_of w.node id).req_batch_digest
unfolding check_if_prepared get_cert modify_cert ◌>>=◌
check_if_prepared-digest e id err w q stage fast =
    let w' = opened id w in
    rw (stage, fast)
      (execute_request-digest e err id
          (after (modify_cert id (λ c. record c { req_batch_stage = committed }) w'))
        ∙ ap (λ (c : MsgCert). c.req_batch_digest)
            (cert_of-modify_cert w' id (λ c. record c { req_batch_stage = committed }))
        ∙ ap (λ (c : MsgCert). c.req_batch_digest) (cert_of-opened w id))
