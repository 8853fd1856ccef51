-- ===== src/Normal/PrePrepare.antt =====
-- core/core.go: the primary proposes a batch, and a replica receives the proposal.
use trebiz.Prelude.{
  nat_key, ◌/◌, [], some, Bool, false, insert, length, ltb, ◌==◌, ◌&&◌, ◌||◌, not, add32,
  if◌then◌else◌, same_bytes,
}
use trebiz.Messages.{
  Bytes, MsgId, id_key, RequestBatch, PrePrepareMsg, Payload, contents, pre_prepare,
  pre_prepare_type,
}
use trebiz.Text.{encode_to_string}
use trebiz.Node.Env.{Env}
use trebiz.Node.State.{Node, MsgCert, received, starts_fast_timer}
use trebiz.Node.Monad.{M, ◌>>=◌, ◌>>◌, pure, skip, read_node, modify, emit, ask, ErrChan}
use trebiz.Node.Cert.{get_cert, modify_cert, primary, in_watermarks}
use trebiz.Node.Send.{broadcast, report, data_hash_byte}
use trebiz.ViewChange.Send.{send_view_change}
use trebiz.Normal.Prepare.{
  check_if_prepared, create_prepare_msg, send_prepare_msg, handle_prepare_msg,
}

-- Another digest for a request that has one.
abbrev pub conflicts : MsgCert → PrePrepareMsg → Bool
conflicts cert ppm =
    not (length (contents cert.req_batch_digest) == 0)
    && not (same_bytes (contents cert.req_batch_digest) (contents ppm.batch_hash))

module _ (e : Env) where
  unfoldable pub create_pre_prepare_msg : RequestBatch → M PrePrepareMsg
  create_pre_prepare_msg req_batch = do
    n ← read_node
    modify λ m. record m { next_sn = add32 m.next_sn 1 }
    stamp ← ask e.now
    pure (record {
      sn = n.next_sn;
      batch_hash = some (data_hash_byte e (Payload.batch req_batch));
      req_batch = req_batch;
      view = n.curren_view;
      replica_id = e.replica_id;
      time_stamp = stamp;
    })

  -- A new fast timer replaces the old one of the request.
  unfoldable pub start_fast_timer : MsgId → Bytes → M (Unit {0})
  start_fast_timer id batch_string = do
    modify λ n. record n { prepare_timer = insert id false n.prepare_timer }
    emit (starts_fast_timer id batch_string)

  unfoldable pub broadcast_pre_prepare_msg : RequestBatch → ErrChan → M (Unit {0})
  unfolding create_pre_prepare_msg start_fast_timer
  broadcast_pre_prepare_msg req_batch err = do
    n ← read_node
    if not (in_watermarks e n.h n.next_sn)
          || ltb (add32 n.h (e.log_k / 2)) n.next_sn
          || (ltb n.view_change_seq_number n.next_sn && e.auto_view_change == 1)
        then skip
        else do
          ppm ← create_pre_prepare_msg req_batch
          start_fast_timer (record { sn = ppm.sn; view = ppm.view })
              (encode_to_string (contents ppm.batch_hash))
          failed ← broadcast e pre_prepare_type (pre_prepare ppm) []
          report failed err

  -- The request is stored, and the replica votes: the primary for itself, without the network.
  unfoldable pub accept_pre_prepare : MsgId → PrePrepareMsg → ErrChan → M (Unit {0})
  accept_pre_prepare id ppm err = do
    modify λ n. record n { req_batch = insert id ppm.req_batch n.req_batch }
    modify_cert id λ c. record c {
      req_batch_stage = received;
      req_batch_digest = ppm.batch_hash;
      pre_prepare_store = some ppm;
    }
    check_if_prepared e id err
    n ← read_node
    if not (e.replica_id == primary e n.curren_view)
        then send_prepare_msg e ppm.sn err
        else do pm ← create_prepare_msg e ppm.sn; handle_prepare_msg e pm

  unfoldable pub take_pre_prepare : MsgId → PrePrepareMsg → ErrChan → M (Unit {0})
  take_pre_prepare id ppm err = do
    cert ← get_cert id
    if conflicts cert ppm then send_view_change e err else accept_pre_prepare id ppm err

  -- A proposal that the next primary should make, or that another replica made.
  unfoldable pub is_foreign : Node → PrePrepareMsg → Bool
  is_foreign n ppm =
      (ltb n.view_change_seq_number ppm.sn && e.auto_view_change == 1)
      || not (ppm.replica_id == primary e n.curren_view)

  unfoldable pub handle_pre_prepare_msg : PrePrepareMsg → ErrChan → M (Unit {0})
  unfolding is_foreign take_pre_prepare accept_pre_prepare
  handle_pre_prepare_msg ppm err = do
    n ← read_node
    if not n.active_view
        then skip
        else if is_foreign n ppm
        then send_view_change e err
        else if not (in_watermarks e n.h ppm.sn)
        then skip
        else take_pre_prepare (record { sn = ppm.sn; view = ppm.view }) ppm err
