-- ===== src/Protocol/Pool.antt =====
-- The pool of requests makes no step of the protocol.
use trebiz.Prelude.{ℕ, zero, suc, [], Bool, nat_key, bytes_key}
use trebiz.Messages.{Bytes, checkpoint_key, vcidx_key}
use trebiz.Node.Env.{Env}
use trebiz.Requests.{
  receive_new_request, receive_new_request_for_test, send_batch, handle_req_batch,
}
use trebiz.Protocol.Spec.{Core}
use trebiz.Protocol.Keeps.{
  Keeps, Keeps-bind, Keeps-skip, Keeps-modify, Keeps-read_node, keeps_rules,
}
use trebiz.Protocol.Quiet.{Keeps-spawns}

module _ (e : Env) {Q : Core → Type 0} where
  pub Keeps-receive_new_request : (cmd : Bytes) → Keeps Q (receive_new_request e cmd)
  unfolding receive_new_request
  Keeps-receive_new_request cmd = Keeps-bind _ _ (Keeps-modify _ (λ w h. h)) λ _. search keeps_rules

  Keeps-receive_for_test : (n : ℕ) → Keeps Q (receive_new_request_for_test e n)
  unfolding receive_new_request_for_test
  Keeps-receive_for_test zero = Keeps-skip
  Keeps-receive_for_test (suc n) =
      Keeps-bind _ _ (Keeps-bind _ _ (Keeps-receive_new_request []) (λ _. Keeps-skip))
        (λ _. Keeps-receive_for_test n)

  Keeps-send_batch : Keeps Q (send_batch e)
  unfolding send_batch
  Keeps-send_batch =
      Keeps-bind _ _ Keeps-read_node
        λ n. Keeps-bind _ _ (Keeps-modify _ (λ w h. h)) λ _. search (keeps_rules, Keeps-spawns)

  pub Keeps-handle_req_batch : (expired : Bool) → Keeps Q (handle_req_batch e expired)
  unfolding handle_req_batch
  Keeps-handle_req_batch expired =
      Keeps-bind _ _ (Keeps-modify _ (λ w h. h))
        λ _. search (keeps_rules, Keeps-send_batch, Keeps-receive_for_test) depth 12
