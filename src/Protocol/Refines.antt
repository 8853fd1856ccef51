-- ===== src/Protocol/Refines.antt =====
-- Every event that a node handles, in any order, is a sequence of steps of the protocol.
use trebiz.Prelude.{ℕ, List, [], ◌∷◌, ◌==◌}
use trebiz.Messages.{
  Bytes, Message, pre_prepare, prepare, commit, prepare_qc, fast_prepare_qc, commit_qc, check_point,
  view_change, view_change_quorum, new_view, view_change_timer,
}
use trebiz.Node.Env.{Env}
use trebiz.Node.State.{World, Task, checkpoint_task, check_prepared_task, propose_task, send_task}
use trebiz.Node.Monad.{M, ErrChan, after, nil_chan, err_chan}
use trebiz.Main.{
  Event, rpc, fast_timer, task, batch_round, request, verified, handle_rpc, run_task, handle, run,
}
use trebiz.Protocol.Spec.{Core, core, IsClosed}
use trebiz.Protocol.Keeps.{Keeps, Keeps-bind, Keeps-if, Keeps-skip, Keeps-read_node, keeps_rules}
use trebiz.Protocol.Quiet.{Keeps-posts}
use trebiz.Protocol.Commits.{Keeps-check_if_prepared}
use trebiz.Protocol.Voting.{
  Keeps-handle_prepare_msg, Keeps-handle_commit_msg, Keeps-fast_timer_fires,
}
use trebiz.Protocol.Accepting.{
  Keeps-leave, Keeps-handle_prepare_qc, Keeps-handle_fast_prepare_qc, Keeps-handle_commit_qc,
}
use trebiz.Protocol.Proposals.{Keeps-broadcast_pre_prepare_msg, Keeps-handle_pre_prepare_msg}
use trebiz.Protocol.Pool.{Keeps-receive_new_request, Keeps-handle_req_batch}
use trebiz.Protocol.Checkpoints.{Keeps-checkpoint, Keeps-recv_checkpoint}
use trebiz.Protocol.Entering.{Keeps-send_new_view, Keeps-recv_new_view}
use trebiz.Protocol.Joining.{Keeps-recv_view_change}

module _ (e : Env) {Q : Core → Type 0} (closed : IsClosed e Q) where
  Keeps-verified :
      (msg : Message) (sender : ℕ) (sig : Bytes) (m : M (Unit {0}))
      → Keeps Q m
      → Keeps Q (verified e msg sender sig m)
  unfolding verified
  Keeps-verified msg sender sig m k = search keeps_rules

  Keeps-handle_rpc :
      (msg : Message) (sig : Bytes) (err : ErrChan) → Keeps Q (handle_rpc e msg sig err)
  unfolding handle_rpc
  Keeps-handle_rpc (pre_prepare m) sig err =
      Keeps-verified _ _ sig _ (Keeps-handle_pre_prepare_msg e closed m err)
  Keeps-handle_rpc (prepare m) sig err =
      Keeps-verified _ _ sig _ (Keeps-handle_prepare_msg e closed m)
  Keeps-handle_rpc (commit m) sig err =
      Keeps-verified _ _ sig _ (Keeps-handle_commit_msg e closed m)
  Keeps-handle_rpc (prepare_qc m) sig err =
      Keeps-verified _ _ sig _ (Keeps-handle_prepare_qc e closed m err)
  Keeps-handle_rpc (fast_prepare_qc m) sig err =
      Keeps-verified _ _ sig _ (Keeps-handle_fast_prepare_qc e closed m)
  Keeps-handle_rpc (commit_qc m) sig err =
      Keeps-verified _ _ sig _ (Keeps-handle_commit_qc e closed m err)
  Keeps-handle_rpc (check_point m) sig err =
      Keeps-verified _ _ sig _ (Keeps-recv_checkpoint e closed m)
  Keeps-handle_rpc (view_change m) sig err =
      Keeps-verified _ _ sig _ (Keeps-recv_view_change e closed m err)
  Keeps-handle_rpc view_change_quorum sig err = Keeps-bind _ _ Keeps-read_node λ n.
      Keeps-if (e.replica_id == _) _ _ (λ _. Keeps-send_new_view e closed err) (λ _. Keeps-skip)
  Keeps-handle_rpc (new_view m) sig err =
      Keeps-verified _ _ sig _ (Keeps-recv_new_view e closed m err)
  Keeps-handle_rpc view_change_timer sig err = Keeps-leave e closed err

  Keeps-run_task : (t : Task) → Keeps Q (run_task e t)
  unfolding run_task
  Keeps-run_task (checkpoint_task sn) = Keeps-checkpoint e sn [] err_chan
  Keeps-run_task (check_prepared_task id) = Keeps-check_if_prepared e closed id err_chan
  Keeps-run_task (propose_task batch) = Keeps-broadcast_pre_prepare_msg e batch nil_chan
  Keeps-run_task (send_task i addr ty msg sig) = search (keeps_rules, Keeps-posts) depth 12

  pub Keeps-handle : (ev : Event) → Keeps Q (handle e ev)
  unfolding handle
  Keeps-handle (rpc msg sig) = Keeps-handle_rpc msg sig err_chan
  Keeps-handle (fast_timer id b) = Keeps-fast_timer_fires e closed id b
  Keeps-handle (task t) = Keeps-run_task t
  Keeps-handle (batch_round expired) = Keeps-handle_req_batch e expired
  Keeps-handle (request cmd) = Keeps-bind _ _ (Keeps-receive_new_request e cmd) (λ _. Keeps-skip)

  -- A closed property holds after any events.
  pub run-closed : (w : World) (evs : List Event) → Q (core w) → Q (core (run e w evs))
  unfolding run
  run-closed w [] q = q
  run-closed w (ev ∷ rest) q = run-closed (after (handle e ev w)) rest ((Keeps-handle ev).at w q)
