-- ===== src/Normal/Prepare.antt =====
-- core/core.go: votes to prepare, prepare certificates of both paths, and what they lead to.
use trebiz.Prelude.{
  ℕ, nat_key, bytes_key, ◌+◌, ◌*◌, [], Option, none, some, Bool, true, false, lookup, insert, get,
  has, leb, ◌&&◌, ◌||◌, not, if◌then◌else◌, length,
}
use trebiz.Messages.{
  Bytes, MsgId, id_key, VoteForPrepare, PrepareMsg, PrepareQc, FastPrepareQc, Payload, contents,
  prepare, prepare_qc, fast_prepare_qc, prepare_type, prepare_qc_type, fast_prepare_qc_type,
}
use trebiz.Text.{encode_to_string, decode_string}
use trebiz.Sign.{sign_ts_partial}
use trebiz.Node.Env.{Env, PubPoly}
use trebiz.Node.State.{prepared, committed, PartialSigs, signs}
use trebiz.Node.Monad.{M, ◌>>=◌, ◌>>◌, pure, skip, read_node, modify, emit, ask, deref, ErrChan}
use trebiz.Node.Cert.{get_cert, modify_cert, primary, in_watermarks}
use trebiz.Node.Send.{address, broadcast, send_to_leader, report, create_threshold_sig}
use trebiz.Normal.Execute.{execute_request}
use trebiz.Normal.Commit.{sigs_for, add_sig, signatures, is_received, check_if_committed}

abbrev pub has_value {ℓ} : {A : Type ℓ} → Option A → Bool
has_value none = false
has_value (some _) = true

-- The vote that the signatures of a prepare certificate are for.
abbrev pub vote_of : PrepareQc → VoteForPrepare
vote_of q = record { sn = q.sn; batch_hash = q.batch_hash; view = q.view }

abbrev pub fast_vote_of : FastPrepareQc → VoteForPrepare
fast_vote_of q = record { sn = q.sn; batch_hash = q.batch_hash; view = q.view }

module _ (e : Env) where
  unfoldable pub check_if_prepared : MsgId → ErrChan → M (Unit {0})
  check_if_prepared id err = do
    cert ← get_cert id
    if is_received cert.req_batch_stage && has_value cert.fast_prepare_qc
        then (do
          modify_cert id λ c. record c { req_batch_stage = committed }
          execute_request e id err)
        else if is_received cert.req_batch_stage && has_value cert.prepare_qc
        then (do
          modify_cert id λ c. record c { req_batch_stage = prepared }
          check_if_committed e id err)
        else skip

  unfoldable pub create_prepare_msg : ℕ → M PrepareMsg
  create_prepare_msg sn = do
    n ← read_node
    cert ← get_cert (record { sn = sn; view = n.curren_view })
    let vote : VoteForPrepare = record {
      sn = sn;
      batch_hash = cert.req_batch_digest;
      view = n.curren_view;
    }
    bytes ← deref (e.encode (Payload.vote vote))
    sig ← deref (sign_ts_partial e e.ts_pri_key bytes)
    fast_sig ← deref (sign_ts_partial e e.fast_pri_key bytes)
    emit (signs vote)
    stamp ← ask e.now
    pure (record {
      vote = vote;
      replica_id = e.replica_id;
      partial_sig = sig;
      fast_partial_sig = fast_sig;
      time_stamp = stamp;
    })

  unfoldable pub send_prepare_msg : ℕ → ErrChan → M (Unit {0})
  unfolding create_prepare_msg
  send_prepare_msg sn err = do
    pm ← create_prepare_msg sn
    n ← read_node
    let leader_id = primary e n.curren_view
    failed ←
        send_to_leader e prepare_type (prepare pm)
          (address e leader_id (get leader_id [] e.cluster_addr))
    report failed err

  -- What both kinds of prepare certificate are made from: the vote and its threshold signature. An
  -- error of the encoder gives a nil certificate, which the caller reads.
  unfoldable pub make_prepare_sig : MsgId → Bytes → PartialSigs → PubPoly → ℕ → M Bytes
  make_prepare_sig id batch_string sigs key quorum = do
    let vote : VoteForPrepare = record {
      sn = id.sn;
      batch_hash = some (decode_string batch_string);
      view = id.view;
    }
    made ←
        create_threshold_sig e (Payload.vote vote) (signatures (sigs_for id batch_string sigs)) key
          quorum e.replica_count
    deref made

  unfoldable pub create_prepare_qc : MsgId → Bytes → M PrepareQc
  unfolding make_prepare_sig
  create_prepare_qc id batch_string = do
    n ← read_node
    sig ← make_prepare_sig id batch_string n.partial_sig_in_prepare e.ts_pub_key (2 * e.f + 1)
    stamp ← ask e.now
    pure (record {
      sn = id.sn;
      batch_hash = some (decode_string batch_string);
      view = id.view;
      replica_id = e.replica_id;
      threshold_sig = sig;
      time_stamp = stamp;
    })

  unfoldable pub create_fast_prepare_qc : MsgId → Bytes → M FastPrepareQc
  unfolding make_prepare_sig
  create_fast_prepare_qc id batch_string = do
    n ← read_node
    sig ←
        make_prepare_sig id batch_string n.fast_partial_sig_in_prepare e.fast_pub_key
          e.fast_qc_quorum
    stamp ← ask e.now
    pure (record {
      sn = id.sn;
      batch_hash = some (decode_string batch_string);
      view = id.view;
      replica_id = e.replica_id;
      threshold_sig = sig;
      time_stamp = stamp;
    })

  unfoldable pub check_if_prepare_qc : MsgId → Bytes → M (Unit {0})
  unfolding create_prepare_qc
  check_if_prepare_qc id batch_string = do
    cert ← get_cert id
    n ← read_node
    if leb (2 * e.f + 1) (length (sigs_for id batch_string n.partial_sig_in_prepare))
          && not cert.prepare_qc_stage
        then (do
          modify_cert id λ c. record c { prepare_qc_stage = true }
          qc ← create_prepare_qc id batch_string
          _ ← broadcast e prepare_qc_type (prepare_qc qc) []
          skip)
        else skip

  unfoldable pub check_if_fast_prepare_qc : MsgId → Bytes → M (Unit {0})
  unfolding create_fast_prepare_qc
  check_if_fast_prepare_qc id batch_string = do
    cert ← get_cert id
    n ← read_node
    if leb e.fast_qc_quorum (length (sigs_for id batch_string n.fast_partial_sig_in_prepare))
          && not cert.prepare_qc_stage
        then (do
          modify_cert id λ c. record c { prepare_qc_stage = true }
          qc ← create_fast_prepare_qc id batch_string
          _ ← broadcast e fast_prepare_qc_type (fast_prepare_qc qc) []
          skip)
        else skip

  -- The fast timer of the request is read through a pointer that is nil where no timer was started.
  unfoldable pub handle_prepare_vote : PrepareMsg → M (Unit {0})
  unfolding check_if_prepare_qc check_if_fast_prepare_qc
  handle_prepare_vote pm = do
    let id : MsgId = record { sn = pm.vote.sn; view = pm.vote.view }
    _ ← get_cert id
    let batch_string = encode_to_string (contents pm.vote.batch_hash)
    modify λ n. record n {
      partial_sig_in_prepare =
          add_sig id batch_string pm.replica_id pm.partial_sig n.partial_sig_in_prepare;
      fast_partial_sig_in_prepare =
          add_sig id batch_string pm.replica_id pm.fast_partial_sig n.fast_partial_sig_in_prepare;
    }
    n ← read_node
    stopped ← deref (lookup id n.prepare_timer)
    if not stopped
        then check_if_fast_prepare_qc id batch_string
        else check_if_prepare_qc id batch_string

  unfoldable pub handle_prepare_msg : PrepareMsg → M (Unit {0})
  unfolding handle_prepare_vote
  handle_prepare_msg pm = do
    n ← read_node
    if not n.active_view || not (in_watermarks e n.h pm.vote.sn) then skip else do
      let id : MsgId = record { sn = pm.vote.sn; view = n.curren_view }
      cert ← get_cert id
      if has pm.replica_id cert.pre_pare_store then skip else do
        modify_cert id λ c. record c { pre_pare_store = insert pm.replica_id pm c.pre_pare_store }
        handle_prepare_vote pm

  -- A fast timer that fires: the flag is set, and the slow path is tried.
  unfoldable pub fast_timer_fires : MsgId → Bytes → M (Unit {0})
  unfolding check_if_prepare_qc
  fast_timer_fires id batch_string = do
    modify λ n. record n { prepare_timer = insert id true n.prepare_timer }
    check_if_prepare_qc id batch_string
