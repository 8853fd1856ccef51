-- ===== src/Main.antt =====
-- core/node.go: the main loop of a node, one command at a time, and the other goroutines, each run
-- as one step.
pub mod Authentic
use trebiz.Prelude.{ℕ, Bool, List, [], ◌∷◌, ◌==◌, not, if◌then◌else◌}
use trebiz.Messages.{
  Bytes, MsgId, Message, pre_prepare, prepare, commit, prepare_qc, fast_prepare_qc, commit_qc,
  check_point, view_change, view_change_quorum, new_view, view_change_timer,
}
use trebiz.Node.Env.{Env}
use trebiz.Node.State.{
  World, Task, checkpoint_task, check_prepared_task, propose_task, send_task, posts,
}
use trebiz.Node.Monad.{
  M, Stop, ◌>>=◌, ◌>>◌, skip, halt, read_node, emit, ask, ErrChan, nil_chan, err_chan, after,
}
use trebiz.Node.Cert.{primary}
use trebiz.Node.Send.{verify_rsa_signature}
use trebiz.Normal.Commit.{handle_commit_msg}
use trebiz.Normal.Prepare.{check_if_prepared, handle_prepare_msg, fast_timer_fires}
use trebiz.Normal.Certificates.{handle_prepare_qc, handle_fast_prepare_qc, handle_commit_qc}
use trebiz.Normal.PrePrepare.{broadcast_pre_prepare_msg, handle_pre_prepare_msg}
use trebiz.Normal.Checkpoint.{checkpoint, recv_checkpoint}
use trebiz.ViewChange.Send.{send_view_change}
use trebiz.ViewChange.NewView.{send_new_view, recv_new_view}
use trebiz.ViewChange.Receive.{recv_view_change}
use trebiz.Requests.{receive_new_request, handle_req_batch}

-- What can happen to a node.
pub data Event : Type 0 where
  rpc : (msg : Message) (sig : Bytes) → Event
  fast_timer : (id : MsgId) (batch_string : Bytes) → Event
  task : Task → Event
  batch_round : (expired : Bool) → Event
  request : (cmd : Bytes) → Event

module _ (e : Env) where
  -- A command whose signature does not verify under the sender's key is a panic.
  unfoldable pub verified : Message → ℕ → Bytes → M (Unit {0}) → M (Unit {0})
  verified msg sender sig handler =
      if verify_rsa_signature e msg sender sig then handler else halt Stop.panicked

  -- One round of `StartPBFT`, for a command with its signature.
  unfoldable pub handle_rpc : Message → Bytes → ErrChan → M (Unit {0})
  unfolding verified
  handle_rpc (pre_prepare m) sig ch =
      verified (pre_prepare m) m.replica_id sig (handle_pre_prepare_msg e m ch)
  handle_rpc (prepare m) sig ch = verified (prepare m) m.replica_id sig (handle_prepare_msg e m)
  handle_rpc (commit m) sig ch = verified (commit m) m.replica_id sig (handle_commit_msg e m)
  handle_rpc (prepare_qc m) sig ch =
      verified (prepare_qc m) m.replica_id sig (handle_prepare_qc e m ch)
  handle_rpc (fast_prepare_qc m) sig ch =
      verified (fast_prepare_qc m) m.replica_id sig (handle_fast_prepare_qc e m)
  handle_rpc (commit_qc m) sig ch =
      verified (commit_qc m) m.replica_id sig (handle_commit_qc e m ch)
  handle_rpc (check_point m) sig ch =
      verified (check_point m) m.replica_id sig (recv_checkpoint e m)
  handle_rpc (view_change m) sig ch =
      verified (view_change m) m.replica_id sig (recv_view_change e m ch)
  handle_rpc view_change_quorum sig ch = do
    n ← read_node
    if e.replica_id == primary e n.curren_view then send_new_view e ch else skip
  handle_rpc (new_view m) sig ch = verified (new_view m) m.replica_id sig (recv_new_view e m ch)
  handle_rpc view_change_timer sig ch = send_view_change e ch

  -- The goroutines that handlers start. That of `broadcast` uses its connection also when there is
  -- none, which is a nil pointer.
  unfoldable pub run_task : Task → M (Unit {0})
  run_task (checkpoint_task sn) = checkpoint e sn [] err_chan
  run_task (check_prepared_task id) = check_if_prepared e id err_chan
  run_task (propose_task batch) = broadcast_pre_prepare_msg e batch nil_chan
  run_task (send_task index addr ty msg sig) = do
    connected ← ask e.connects
    if not connected then halt Stop.panicked else do
      sent ← ask e.transmits
      if sent then emit (posts addr ty msg sig) else skip
      _ ← ask e.releases
      skip

  unfoldable pub handle : Event → M (Unit {0})
  unfolding handle_rpc run_task
  handle (rpc msg sig) = handle_rpc msg sig err_chan
  handle (fast_timer id batch_string) = fast_timer_fires e id batch_string
  handle (task t) = run_task t
  handle (batch_round expired) = handle_req_batch e expired
  handle (request cmd) = receive_new_request e cmd >>= λ _. skip

  -- The world after some events. A goroutine that panics ends the program, and one that waits for
  -- ever leaves the others running: what holds after all events in any order holds in both cases.
  unfoldable pub run : World → List Event → World
  unfolding handle
  run w [] = w
  run w (ev ∷ rest) = run (after (handle ev w)) rest
