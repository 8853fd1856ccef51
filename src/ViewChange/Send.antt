-- ===== src/ViewChange/Send.antt =====
-- core/viewchange.go: `sendViewChange` and `calPQset`.
use trebiz.Prelude.{
  ℕ, zero, suc, nat_key, bytes_key, ◌+◌, ◌*◌, ◌%◌, ◌^◌, List, [], ◌∷◌, Option, none, some, Bool,
  true, false, Map, insert, get, leb, add32, if◌then◌else◌, same_bytes,
}
use trebiz.Messages.{
  Bytes, MsgId, PrePrepareMsg, PrepareQc, CheckpointMsg, ViewChangeMsg, view_change,
  view_change_type,
}
use trebiz.Node.Env.{Env}
use trebiz.Node.State.{Node, MsgCert}
use trebiz.Node.Monad.{M, ◌>>=◌, ◌>>◌, read_node, modify, ErrChan}
use trebiz.Node.Send.{broadcast, report}
use trebiz.Node.Timers.{start_timer, stop_timer}

abbrev pub put_some {ℓ} : {A : Type ℓ} → ℕ → Option A → Map ℕ A → Map ℕ A
put_some sn none m = m
put_some sn (some a) m = insert sn a m

-- The pre-prepares and the prepare certificates above the low watermark, a later entry of the
-- store replacing an earlier one for the same sequence number.
unfoldable pub cal_pq_set :
    ℕ
    → Map MsgId MsgCert
    → Map ℕ PrePrepareMsg
    → Map ℕ PrepareQc
    → Map ℕ PrePrepareMsg × Map ℕ PrepareQc
cal_pq_set h [] pset qset = (pset, qset)
cal_pq_set h ((idx, cert) ∷ rest) pset qset =
    cal_pq_set h rest (if leb idx.sn h then pset else put_some idx.sn cert.pre_prepare_store pset)
      (if leb idx.sn h then qset else put_some idx.sn cert.prepare_qc qset)

-- The loop over the stored checkpoints at the low watermark: it keeps those whose digest is the
-- node's own, and breaks when `limit` are found.
unfoldable pub matching_checkpoints : Bytes → ℕ → Map CheckpointMsg Bool → List CheckpointMsg
matching_checkpoints digest limit [] = []
matching_checkpoints digest zero ((c, _) ∷ rest) = []
matching_checkpoints digest (suc limit) ((c, _) ∷ rest) =
    if same_bytes c.state_digest digest
    then c ∷ matching_checkpoints digest limit rest
    else matching_checkpoints digest (suc limit) rest

module _ (e : Env) where
  -- The message that a node sends when it has moved to its next view.
  unfoldable pub view_change_msg : Node → ViewChangeMsg
  unfolding cal_pq_set matching_checkpoints
  view_change_msg n =
      let (pset, qset) = cal_pq_set n.h n.req_cert_store [] [] in
      record {
        view = n.curren_view;
        last_stable_ck = n.h;
        cset =
            matching_checkpoints (get n.h [] n.chkpts) (2 * e.f + 1)
              (get n.h [] n.checkpoint_store);
        pset = pset;
        qset = qset;
        replica_id = e.replica_id;
      }

  unfoldable pub send_view_change : ErrChan → M (Unit {0})
  unfolding stop_timer start_timer
  send_view_change err = do
    stop_timer
    modify λ n. record n { curren_view = add32 n.curren_view 1; active_view = false }
    n ← read_node
    let vc = view_change_msg n
    modify λ m. record m { view_change_stage = insert n.curren_view true m.view_change_stage }
    failed ← broadcast e view_change_type (view_change vc) []
    report failed err
    start_timer n.last_new_vew_timeout
    -- A `Duration` is an `int64`, here its bit pattern.
    modify λ m. record m { last_new_vew_timeout = m.last_new_vew_timeout * 2 % 2 ^ 64 }
