-- ===== src/Normal/Commit.antt =====
-- core/core.go: votes to commit, commit certificates, and the check that lets a request execute.
use trebiz.Prelude.{
  ℕ, nat_key, bytes_key, ◌+◌, ◌*◌, List, [], map, Option, none, some, Bool, true, false, Map,
  insert, get, has, leb, ◌&&◌, ◌||◌, not, if◌then◌else◌, length,
}
use trebiz.Messages.{
  Bytes, MsgId, id_key, PrepareQc, CommitMsg, CommitQc, Payload, prepare_qc, commit, commit_qc,
  commit_type, commit_qc_type,
}
use trebiz.Text.{encode_to_string}
use trebiz.Sign.{sign_ts_partial}
use trebiz.Node.Env.{Env}
use trebiz.Node.State.{MsgStage, received, prepared, committed, PartialSigs}
use trebiz.Node.Monad.{M, ◌>>=◌, ◌>>◌, pure, skip, read_node, modify, ask, deref, ErrChan}
use trebiz.Node.Cert.{get_cert, modify_cert, primary, in_watermarks}
use trebiz.Node.Send.{
  address, broadcast, send_to_leader, report, create_threshold_sig, verify_threshold_sig,
  data_hash_byte,
}
use trebiz.Normal.Execute.{execute_request}

-- The partial signatures that a node holds for a vote.
abbrev pub sigs_for : MsgId → Bytes → PartialSigs → Map ℕ Bytes
sigs_for id vote_string sigs = get vote_string [] (get id [] sigs)

abbrev pub add_sig : MsgId → Bytes → ℕ → Bytes → PartialSigs → PartialSigs
add_sig id vote_string replica sig sigs =
    insert id
      (insert vote_string (insert replica sig (sigs_for id vote_string sigs)) (get id [] sigs)) sigs

abbrev pub signatures : Map ℕ Bytes → List Bytes
signatures = map λ p. p.1

abbrev pub is_received : MsgStage → Bool
is_received received = true
is_received prepared = false
is_received committed = false

abbrev pub is_prepared : MsgStage → Bool
is_prepared received = false
is_prepared prepared = true
is_prepared committed = false

-- A pointer to a certificate, as it is handed to the encoder.
abbrev pub qc_payload : Option PrepareQc → Payload
qc_payload none = Payload.nil_pointer
qc_payload (some q) = Payload.message (prepare_qc q)

module _ (e : Env) where
  -- With a commit certificate, verified over the prepare certificate.
  unfoldable pub commit_now : MsgId → Option PrepareQc → Option CommitQc → ErrChan → M (Unit {0})
  commit_now id pqc none err = skip
  commit_now id pqc (some cqc) err =
      if verify_threshold_sig e (qc_payload pqc) e.ts_pub_key cqc.threshold_sig
      then (do
        modify_cert id λ c. record c { req_batch_stage = committed }
        execute_request e id err)
      else skip

  unfoldable pub check_if_committed : MsgId → ErrChan → M (Unit {0})
  check_if_committed id err = do
    cert ← get_cert id
    if is_prepared cert.req_batch_stage
        then commit_now id cert.prepare_qc cert.commit_qc err
        else skip

  unfoldable pub create_commit_msg : PrepareQc → M CommitMsg
  create_commit_msg pqc = do
    bytes ← deref (e.encode (Payload.message (prepare_qc pqc)))
    sig ← deref (sign_ts_partial e e.ts_pri_key bytes)
    stamp ← ask e.now
    pure (record { vote = pqc; replica_id = e.replica_id; partial_sig = sig; time_stamp = stamp })

  unfoldable pub send_commit_msg : PrepareQc → ErrChan → M (Unit {0})
  unfolding create_commit_msg
  send_commit_msg pqc err = do
    cm ← create_commit_msg pqc
    n ← read_node
    let leader_id = primary e n.curren_view
    failed ←
        send_to_leader e commit_type (commit cm)
          (address e leader_id (get leader_id [] e.cluster_addr))
    report failed err

  -- Both errors of the source panic here.
  unfoldable pub create_commit_qc : MsgId → PrepareQc → M CommitQc
  create_commit_qc id vote = do
    let vote_string = encode_to_string (data_hash_byte e (Payload.message (prepare_qc vote)))
    n ← read_node
    made ←
        create_threshold_sig e (Payload.message (prepare_qc vote))
          (signatures (sigs_for id vote_string n.partial_sig_in_commit)) e.ts_pub_key (2 * e.f + 1)
          e.replica_count
    sig ← deref made
    stamp ← ask e.now
    pure (record {
      sn = id.sn;
      batch_hash = vote.batch_hash;
      view = id.view;
      replica_id = e.replica_id;
      threshold_sig = sig;
      time_stamp = stamp;
    })

  unfoldable pub handle_commit_vote : CommitMsg → M (Unit {0})
  unfolding create_commit_qc
  handle_commit_vote cm = do
    let id : MsgId = record { sn = cm.vote.sn; view = cm.vote.view }
    cert ← get_cert id
    let vote_string = encode_to_string (data_hash_byte e (Payload.message (prepare_qc cm.vote)))
    modify λ n. record n {
      partial_sig_in_commit =
          add_sig id vote_string cm.replica_id cm.partial_sig n.partial_sig_in_commit;
    }
    n ← read_node
    if leb (2 * e.f + 1) (length (sigs_for id vote_string n.partial_sig_in_commit))
          && not cert.commit_qc_stage
        then (do
          qc ← create_commit_qc id cm.vote
          modify_cert id λ c. record c { commit_qc_stage = true }
          _ ← broadcast e commit_qc_type (commit_qc qc) []
          skip)
        else skip

  -- The call of `checkIfPrePrepared` only logs a line, and makes the certificate that `getCert` finds.
  unfoldable pub handle_commit_msg : CommitMsg → M (Unit {0})
  unfolding handle_commit_vote
  handle_commit_msg cmsg = do
    n ← read_node
    let id : MsgId = record { sn = cmsg.vote.sn; view = cmsg.vote.view }
    if not n.active_view || not (in_watermarks e n.h cmsg.vote.sn) then skip else do
      cert ← get_cert id
      if has cmsg.replica_id cert.commit_store then skip else do
        modify_cert id λ c. record c { commit_store = insert cmsg.replica_id cmsg c.commit_store }
        handle_commit_vote cmsg
