-- ===== src/Normal/Certificates.antt =====
-- core/core.go: a replica receives the three kinds of quorum certificate.
use trebiz.Prelude.{Option, none, some, ◌==◌, ◌||◌, not, if◌then◌else◌}
use trebiz.Messages.{MsgId, PrepareQc, FastPrepareQc, CommitQc, Payload}
use trebiz.Node.Env.{Env}
use trebiz.Node.State.{spawns, check_prepared_task}
use trebiz.Node.Monad.{M, ◌>>=◌, ◌>>◌, skip, read_node, emit, ErrChan, nil_chan}
use trebiz.Node.Cert.{get_cert, modify_cert, primary, in_watermarks}
use trebiz.Node.Send.{verify_threshold_sig}
use trebiz.ViewChange.Send.{send_view_change}
use trebiz.Normal.Commit.{qc_payload, check_if_committed, send_commit_msg}
use trebiz.Normal.Prepare.{has_value, vote_of, fast_vote_of, check_if_prepared}

module _ (e : Env) where
  unfoldable pub accept_prepare_qc : MsgId → PrepareQc → ErrChan → M (Unit {0})
  accept_prepare_qc id pqc err = do
    cert ← get_cert id
    if has_value cert.prepare_qc
          || not
              (verify_threshold_sig e (Payload.vote (vote_of pqc)) e.ts_pub_key pqc.threshold_sig)
        then skip
        else do
          modify_cert id λ c. record c { prepare_qc = some pqc }
          check_if_prepared e id err
          send_commit_msg e pqc err

  -- The view change after a certificate from another replica is given a nil channel.
  unfoldable pub handle_prepare_qc : PrepareQc → ErrChan → M (Unit {0})
  unfolding accept_prepare_qc
  handle_prepare_qc pqc err = do
    n ← read_node
    if not n.active_view || not (in_watermarks e n.h pqc.sn)
        then skip
        else if not (pqc.replica_id == primary e n.curren_view)
        then send_view_change e nil_chan
        else accept_prepare_qc (record { sn = pqc.sn; view = pqc.view }) pqc err

  unfoldable pub accept_fast_prepare_qc : MsgId → FastPrepareQc → M (Unit {0})
  accept_fast_prepare_qc id fpqc = do
    cert ← get_cert id
    if has_value cert.fast_prepare_qc
          || not (
              verify_threshold_sig e (Payload.vote (fast_vote_of fpqc)) e.fast_pub_key
                fpqc.threshold_sig)
        then skip
        else do
          modify_cert id λ c. record c { fast_prepare_qc = some fpqc }
          emit (spawns (check_prepared_task id))

  unfoldable pub handle_fast_prepare_qc : FastPrepareQc → M (Unit {0})
  unfolding accept_fast_prepare_qc
  handle_fast_prepare_qc fpqc = do
    n ← read_node
    if not (fpqc.replica_id == primary e n.curren_view)
        then skip
        else accept_fast_prepare_qc (record { sn = fpqc.sn; view = fpqc.view }) fpqc

  -- The certificate is stored before it is verified.
  unfoldable pub check_commit_qc : MsgId → CommitQc → Option PrepareQc → ErrChan → M (Unit {0})
  check_commit_qc id cqc none err = skip
  check_commit_qc id cqc (some pqc) err =
      if verify_threshold_sig e (qc_payload (some pqc)) e.ts_pub_key cqc.threshold_sig
      then check_if_committed e id err
      else skip

  unfoldable pub accept_commit_qc : MsgId → CommitQc → ErrChan → M (Unit {0})
  unfolding check_commit_qc
  accept_commit_qc id cqc err = do
    cert ← get_cert id
    if has_value cert.commit_qc then skip else do
      modify_cert id λ c. record c { commit_qc = some cqc }
      check_commit_qc id cqc cert.prepare_qc err

  unfoldable pub handle_commit_qc : CommitQc → ErrChan → M (Unit {0})
  unfolding accept_commit_qc
  handle_commit_qc cqc err = do
    n ← read_node
    if not n.active_view || not (in_watermarks e n.h cqc.sn)
        then skip
        else if not (cqc.replica_id == primary e n.curren_view)
        then send_view_change e err
        else accept_commit_qc (record { sn = cqc.sn; view = cqc.view }) cqc err
