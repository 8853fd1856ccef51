-- ===== src/Main/Authentic.antt =====
-- The check of signatures in `StartPBFT`.
use trebiz.Prelude.{ℕ, ◌≡◌, false, Option, none, some}
use trebiz.Messages.{
  Bytes, Message, pre_prepare, prepare, commit, prepare_qc, fast_prepare_qc, commit_qc, check_point,
  view_change, view_change_quorum, new_view, view_change_timer,
}
use trebiz.Node.Env.{Env}
use trebiz.Node.State.{World}
use trebiz.Node.Monad.{M, Stop, halted, halt}
use trebiz.Node.Send.{verify_rsa_signature}
use trebiz.Main.{rpc, verified, handle_rpc, handle}

-- The replica that a message names as its sender. The last two kinds come from the node itself.
abbrev pub sender_of : Message → Option ℕ
sender_of (pre_prepare m) = some m.replica_id
sender_of (prepare m) = some m.replica_id
sender_of (commit m) = some m.replica_id
sender_of (prepare_qc m) = some m.replica_id
sender_of (fast_prepare_qc m) = some m.replica_id
sender_of (commit_qc m) = some m.replica_id
sender_of (check_point m) = some m.replica_id
sender_of (view_change m) = some m.replica_id
sender_of (new_view m) = some m.replica_id
sender_of view_change_quorum = none
sender_of view_change_timer = none

verified-panics :
    (e : Env) (msg : Message) (sender i : ℕ) (sig : Bytes) (m : M (Unit {0})) (w : World)
    → some sender ≡ some i
    → verify_rsa_signature e msg i sig ≡ false
    → verified e msg sender sig m w ≡ halted Stop.panicked w
unfolding verified halt
verified-panics e msg sender i sig m w same h = let eq : sender ≡ i = cc in rw (eq, h)

-- A message whose signature does not verify under the key of the sender that it names changes nothing at a
-- node, and ends it: the goroutine that handles it panics.
pub handle-unsigned :
    (e : Env) (msg : Message) (i : ℕ) (sig : Bytes) (w : World)
    → sender_of msg ≡ some i
    → verify_rsa_signature e msg i sig ≡ false
    → handle e (rpc msg sig) w ≡ halted Stop.panicked w
unfolding handle handle_rpc
handle-unsigned e (pre_prepare m) i sig w s h = verified-panics e _ _ i sig _ w s h
handle-unsigned e (prepare m) i sig w s h = verified-panics e _ _ i sig _ w s h
handle-unsigned e (commit m) i sig w s h = verified-panics e _ _ i sig _ w s h
handle-unsigned e (prepare_qc m) i sig w s h = verified-panics e _ _ i sig _ w s h
handle-unsigned e (fast_prepare_qc m) i sig w s h = verified-panics e _ _ i sig _ w s h
handle-unsigned e (commit_qc m) i sig w s h = verified-panics e _ _ i sig _ w s h
handle-unsigned e (check_point m) i sig w s h = verified-panics e _ _ i sig _ w s h
handle-unsigned e (view_change m) i sig w s h = verified-panics e _ _ i sig _ w s h
handle-unsigned e (new_view m) i sig w s h = verified-panics e _ _ i sig _ w s h
handle-unsigned e view_change_quorum i sig w s h = absurd cc
handle-unsigned e view_change_timer i sig w s h = absurd cc
