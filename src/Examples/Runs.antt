-- ===== src/Examples/Runs.antt =====
-- Runs of a node: core/node.go and the handlers that it calls.
use trebiz.Prelude.{ℕ, ◌≡◌, refl, [], ◌∷◌, map, All, arith, lookup, insert}
use trebiz.Messages.{MsgId, contents}
use trebiz.Sign.{verify_sign_ed, verify_ts, sign_ts_partial, sign_with_prikey}
use trebiz.Main.{run}
use trebiz.Config.{new_world}
use trebiz.Node.Monad.{◌>>=◌, done, err_chan}
use trebiz.Node.Cert.{cert_of, get_cert, modify_cert, primary, in_watermarks}
use trebiz.Node.Send.{verify_rsa_signature, verify_threshold_sig, send_to_leader, address}
use trebiz.Normal.Prepare.{check_if_prepared, send_prepare_msg}
use trebiz.Normal.PrePrepare.{handle_pre_prepare_msg}
use trebiz.Normal.Certificates.{handle_fast_prepare_qc}
use trebiz.Normal.Execute.{
  execute_request, execute_loop, execute_next, execute_cert, after_execution,
}
use trebiz.Protocol.Spec.{core, cert_at, exec_log, HasCertificate}
use trebiz.Protocol.Safety.{executed-HasCertificate}
use trebiz.Protocol.Order.{executed_in_order}
use trebiz.Protocol.Loyalty.{digest_kept}
use trebiz.Protocol.Filed.{IsFiled, run-IsFiled}
use trebiz.Protocol.HighMark.{high_mark-refused}
use trebiz.ViewChange.Send.{view_change_msg}
use trebiz.Node.Env.{Env}
use trebiz.Config.{new_settings}
use trebiz.ViewChange.Receive.{recv_view_change}
use trebiz.Examples.Setting.{env, conf, two_requests, id_of, at_high_mark, proposal}

two_requests_log :
    exec_log (run env (new_world conf) two_requests).out ≡ (2, id_of 2) ∷ (1, id_of 1) ∷ []
unfolding env new_world run ◌>>=◌ get_cert modify_cert primary in_watermarks verify_rsa_signature
    verify_threshold_sig verify_sign_ed verify_ts sign_ts_partial sign_with_prikey send_to_leader
    address check_if_prepared send_prepare_msg handle_pre_prepare_msg handle_fast_prepare_qc
    execute_request execute_loop execute_next execute_cert after_execution lookup insert
two_requests_log = refl

executed-HasCertificate_example :
    All
      (λ (p : ℕ × MsgId).
        (p.1.sn ≡ p.0)
        × HasCertificate env p.1 (cert_at (core (run env (new_world conf) two_requests)) p.1))
      ((2, id_of 2) ∷ (1, id_of 1) ∷ [])
unfolding env new_world run ◌>>=◌ get_cert modify_cert primary in_watermarks verify_rsa_signature
    verify_threshold_sig verify_sign_ed verify_ts sign_ts_partial sign_with_prikey send_to_leader
    address check_if_prepared send_prepare_msg handle_pre_prepare_msg handle_fast_prepare_qc
    execute_request execute_loop execute_next execute_cert after_execution lookup insert
executed-HasCertificate_example = executed-HasCertificate env conf two_requests

executed_in_order_example :
    (map (λ p. p.1.sn) (exec_log (run env (new_world conf) two_requests).out) ≡ 2 ∷ 1 ∷ [])
    × (map (λ p. p.0) (exec_log (run env (new_world conf) two_requests).out) ≡ 2 ∷ 1 ∷ [])
unfolding env new_world run ◌>>=◌ get_cert modify_cert primary in_watermarks verify_rsa_signature
    verify_threshold_sig verify_sign_ed verify_ts sign_ts_partial sign_with_prikey send_to_leader
    address check_if_prepared send_prepare_msg handle_pre_prepare_msg handle_fast_prepare_qc
    execute_request execute_loop execute_next execute_cert after_execution lookup insert
executed_in_order_example = executed_in_order env conf two_requests

run-IsFiled_example : IsFiled (run env (new_world conf) at_high_mark).node.req_cert_store
run-IsFiled_example = run-IsFiled env conf at_high_mark

-- Another replica with the same settings.
abbrev another : Env
unfolding env new_settings
another = record env { settings = record env.settings { replica_id = 2 } }

high_mark-refused_example :
    recv_view_change another
      (view_change_msg env (run env (new_world conf) at_high_mark).node)
      err_chan
      (new_world conf)
    ≡ done tt (new_world conf)
unfolding env new_world run ◌>>=◌ get_cert modify_cert primary in_watermarks verify_rsa_signature
    verify_threshold_sig verify_sign_ed verify_ts sign_ts_partial sign_with_prikey send_to_leader
    address check_if_prepared send_prepare_msg handle_pre_prepare_msg handle_fast_prepare_qc
    execute_request execute_loop execute_next execute_cert after_execution lookup insert
high_mark-refused_example =
    high_mark-refused env conf at_high_mark (id_of 4) (proposal 4) another err_chan (new_world conf)
      refl refl (omega arith) (omega arith) refl

-- The proposal at the high watermark is taken; the requests 1 and 2 follow.
digest_kept_example :
    contents
      (cert_of
        (run env (run env (new_world conf) at_high_mark) two_requests).node
        (id_of 4)).req_batch_digest
    ≡ 1 ∷ []
unfolding env new_world run ◌>>=◌ get_cert modify_cert primary in_watermarks verify_rsa_signature
    verify_threshold_sig verify_sign_ed verify_ts sign_ts_partial sign_with_prikey send_to_leader
    address check_if_prepared send_prepare_msg handle_pre_prepare_msg handle_fast_prepare_qc
    execute_request execute_loop execute_next execute_cert after_execution lookup insert
digest_kept_example =
    digest_kept env (run env (new_world conf) at_high_mark) two_requests (id_of 4) (1 ∷ [])
      (λ h. omega arith) refl
