-- ===== src/Examples/Handlers.antt =====
-- The handlers of core/core.go and core/rpchandler.go at concrete worlds.
use trebiz.Prelude.{
  ◌++◌, none, false, get, nat_key, ℕ, ◌≡◌, ◌≤◌, ◌<◌, ◌+◌, ◌*◌, ◌↔◌, ◌⊎◌, refl, arith, some, [], ◌∷◌,
  true, lookup, length, ◌%◌,
}
use trebiz.Messages.{Bytes, PrepareQc, CommitQc, PrepareMsg, CheckpointMsg, pre_prepare}
use trebiz.Config.{new_world, new_settings, fault_bound}
use trebiz.Config.Quorums.{quorums_meet_iff, checkpoint_quorum_iff}
use trebiz.Node.State.{World, MsgCert, empty_cert}
use trebiz.Node.Monad.{Stop, halted, done, after, err_chan}
use trebiz.Node.Cert.{in_watermarks, primary}
use trebiz.Node.Send.{verify_rsa_signature}
use trebiz.Sign.{verify_sign_ed}
use trebiz.Node.Window.{in_watermarks_iff}
use trebiz.Normal.Checkpoint.{checkpoint_quorum}
use trebiz.Normal.Prepare.{handle_prepare_msg}
use trebiz.Normal.Voters.{TakesVote, handle_prepare_msg-panics}
use trebiz.Normal.Execute.{execute_request}
use trebiz.Normal.Fuel.{execute_request-ends}
use trebiz.Normal.Steady.{is_starved}
use trebiz.Normal.Prepare.{check_if_prepared}
use trebiz.Protocol.Digest.{check_if_prepared-digest}
use trebiz.Protocol.Decided.{IsDecided, slow_path, IsReady, check_if_prepared-executes}
use trebiz.Node.Send.{verify_threshold_sig}
use trebiz.Sign.{verify_ts}
use trebiz.Protocol.Spec.{exec_log}
use mathlib.Core.List.{Memᴰ}
use trebiz.Requests.{send_batch, handle_req_batch}
use trebiz.Requests.Round.{empty_requests, handle_req_batch-pipeline}
use trebiz.Requests.Pipeline.{pipeline, send_batch-pipeline}
use trebiz.Main.{rpc, handle}
use trebiz.Main.Authentic.{handle-unsigned}
use trebiz.Examples.Setting.{env, conf, crypto, outside, proposal, id_of, fast_qc}

in_watermarks_iff_example : (in_watermarks env 2 6 ≡ true) ↔ ((2 < 6) × (6 ≤ 2 + 4))
unfolding env new_settings
in_watermarks_iff_example = in_watermarks_iff env 2 6 (omega arith) (omega arith)

abbrev chkpt : ℕ → CheckpointMsg
chkpt i = record { seq_n = 2; state_digest = 9 ∷ []; replica_id = i }

-- Two checkpoints of the same state are stored; the third one makes a quorum.
abbrev two_stored : World
unfolding new_world
two_stored = record (new_world conf) {
  node = record (new_world conf).node {
    checkpoint_store = (2, (chkpt 0, true) ∷ (chkpt 2, true) ∷ []) ∷ [];
  };
}

handle-unsigned_example :
    handle env (rpc (pre_prepare (proposal 1)) (8 ∷ [])) two_stored
    ≡ halted Stop.panicked two_stored
unfolding env new_settings verify_rsa_signature verify_sign_ed lookup
handle-unsigned_example =
    handle-unsigned env (pre_prepare (proposal 1)) 0 (8 ∷ []) two_stored refl refl

abbrev vote : PrepareMsg
vote = record {
  vote = record { sn = 1; batch_hash = some (1 ∷ []); view = 0 };
  replica_id = 2;
  partial_sig = [];
  fast_partial_sig = [];
  time_stamp = 0;
}

handle_prepare_msg-panics_example :
    (TakesVote env two_stored vote
      × (handle_prepare_msg env vote two_stored
          ≡ halted Stop.panicked (after (handle_prepare_msg env vote two_stored))))
    ⊎ ((¬ TakesVote env two_stored vote)
        × (handle_prepare_msg env vote two_stored
            ≡ done tt (after (handle_prepare_msg env vote two_stored))))
unfolding new_world lookup
handle_prepare_msg-panics_example = handle_prepare_msg-panics env vote two_stored refl

-- Replica 1 is not the primary of view 0: a batch of two requests is lost.
abbrev three_wait : World
unfolding new_world
three_wait = record (new_world conf) {
  node = record (new_world conf).node {
    batch_store = record { cmd = [] } ∷ record { cmd = [] } ∷ record { cmd = [] } ∷ [];
  };
}

send_batch-pipeline_example :
    ((after (send_batch env three_wait)).out ≡ [])
    × (length (after (send_batch env three_wait)).node.batch_store ≡ 1)
unfolding env new_settings new_world primary
send_batch-pipeline_example = send_batch-pipeline env three_wait

quorums_meet_iff_example : ((4 + 1 < 2 * (2 * 1 + 1)) × (2 * 1 + 1 + 1 ≤ 4)) ↔ (4 % 3 ≡ 1)
unfolding new_settings fault_bound
quorums_meet_iff_example = quorums_meet_iff conf

checkpoint_quorum_iff_example :
    (2 * 4 < 3 * checkpoint_quorum env)
    × ((checkpoint_quorum env ≡ 2 * (new_settings conf).f + 1) ↔ (4 % 3 < 2))
unfolding env
checkpoint_quorum_iff_example = checkpoint_quorum_iff conf crypto outside

execute_request-ends_example :
    is_starved (execute_request env (id_of 1) err_chan two_stored) ≡ false
unfolding new_world
execute_request-ends_example = execute_request-ends env (id_of 1) err_chan two_stored (omega arith)

-- The node took a proposal with the digest 4, the certificate is for another one.
abbrev other_digest : World
unfolding new_world
other_digest = record (new_world conf) {
  node = record (new_world conf).node {
    req_cert_store =
        (
          id_of 1,
          record empty_cert {
            req_batch_digest = some (4 ∷ []);
            fast_prepare_qc = some (fast_qc 1);
          },
        )
        ∷ [];
  };
}

check_if_prepared-digest_example :
    get 1 none (after (check_if_prepared env (id_of 1) err_chan other_digest)).node.exec_req_buffer
    ≡ some (4 ∷ [])
unfolding new_world lookup
check_if_prepared-digest_example =
    check_if_prepared-digest env (id_of 1) err_chan other_digest (fast_qc 1) refl refl

abbrev prepared_first : PrepareQc
prepared_first = record {
  sn = 1;
  batch_hash = some (1 ∷ []);
  view = 0;
  replica_id = 0;
  threshold_sig = 7 ∷ [];
  time_stamp = 0;
}

abbrev committed_first : CommitQc
committed_first = record {
  sn = 1;
  batch_hash = some (1 ∷ []);
  view = 0;
  replica_id = 0;
  threshold_sig = 7 ∷ [];
  time_stamp = 0;
}

abbrev first_cert : MsgCert
first_cert = record empty_cert {
  req_batch_digest = some (1 ∷ []);
  pre_prepare_store = some (proposal 1);
  prepare_qc = some prepared_first;
  commit_qc = some committed_first;
}

-- The node took the first proposal, which a prepare and a commit certificate certify.
abbrev certified_first : World
unfolding new_world
certified_first = record (new_world conf) {
  node = record (new_world conf).node { req_cert_store = (id_of 1, first_cert) ∷ [] };
}

first-IsDecided : IsDecided env first_cert
unfolding env new_settings verify_threshold_sig verify_ts
first-IsDecided = slow_path prepared_first committed_first refl refl refl refl

first-IsReady : IsReady env (id_of 1) certified_first
unfolding new_world lookup
first-IsReady = record {
  ppm = proposal 1;
  digest = 1 ∷ [];
  digested = refl;
  proposed = refl;
  in_turn = refl;
  new = refl;
}

check_if_prepared-executes_example :
    Memᴰ
      (1, id_of 1)
      (exec_log (after (check_if_prepared env (id_of 1) err_chan certified_first)).out)
unfolding new_world lookup
check_if_prepared-executes_example =
    check_if_prepared-executes env (id_of 1) err_chan certified_first refl first-IsDecided
      first-IsReady

abbrev a_hash : Bytes
a_hash = 171 ∷ 9 ∷ []

-- In view 1 the replica 1 proposes.
abbrev at_primary : World
at_primary = record three_wait { node = record three_wait.node { curren_view = 1 } }

handle_req_batch-pipeline_example :
    (n : ℕ) × (pipeline (after (handle_req_batch env true at_primary))
      ≡ pipeline at_primary ++ empty_requests n)
unfolding env new_settings new_world primary
handle_req_batch-pipeline_example = handle_req_batch-pipeline env true at_primary refl
