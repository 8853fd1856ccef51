-- ===== src/Normal/Execute.antt =====
-- core/core.go: `executeRequest` and `checkIfCreateChkpt`.
use trebiz.Prelude.{
  ℕ, zero, suc, nat_key, ◌%◌, Option, none, some, Bool, true, false, insert, get, has, ltb, ◌==◌,
  ◌&&◌, add32, if◌then◌else◌, length,
}
use trebiz.Messages.{MsgId, PrePrepareMsg}
use trebiz.Node.Env.{Env}
use trebiz.Node.State.{Node, spawns, checkpoint_task, executes}
use trebiz.Node.Monad.{M, Stop, ◌>>=◌, ◌>>◌, skip, halt, read_node, modify, emit, deref, ErrChan}
use trebiz.Node.Cert.{get_cert}
use trebiz.ViewChange.Send.{send_view_change}

abbrev pub no_id : MsgId
no_id = record { sn = 0; view = 0 }

-- `execReqBuffer[i] != nil`.
abbrev pub is_buffered : Node → ℕ → Bool
is_buffered n i =
    has i n.exec_req_buffer && elim (get i none n.exec_req_buffer) [ none ↦ false | some _ ↦ true ]

module _ (e : Env) where
  unfoldable pub check_if_create_chkpt : ℕ → M (Unit {0})
  check_if_create_chkpt sn =
      if e.checkpoint_t == 0
      then halt Stop.panicked
      else if sn % e.checkpoint_t == 0
      then emit (spawns (checkpoint_task sn))
      else skip

  -- The request is executed: the log shows a line, with the next sequence number.
  unfoldable pub note_execution : MsgId → M (Unit {0})
  note_execution id = do
    modify λ n. record n { last_exec = add32 n.last_exec 1 }
    n ← read_node
    emit (executes n.last_exec id)

  unfoldable pub after_execution : ErrChan → M (Unit {0})
  unfolding check_if_create_chkpt
  after_execution err = do
    n ← read_node
    check_if_create_chkpt n.last_exec
    if n.last_exec == n.view_change_seq_number && e.auto_view_change == 1
        then send_view_change e err
        else skip

  -- The log line reads the time stamp of the pre-prepare, through a pointer that may be nil.
  unfoldable pub execute_cert : Option PrePrepareMsg → MsgId → ErrChan → M (Unit {0})
  unfolding note_execution
  execute_cert store id err = do ppm ← deref store; note_execution id; after_execution err

  -- The body of the loop.
  unfoldable pub execute_next : ℕ → ErrChan → M (Unit {0})
  execute_next i err = do
    n ← read_node
    cert ← get_cert (get i no_id n.exec_req_id_buffer)
    execute_cert cert.pre_prepare_store (get i no_id n.exec_req_id_buffer) err

  -- Each round takes an entry of the buffer, so there are at most as many rounds as entries.
  unfoldable pub execute_loop : ℕ → ℕ → ErrChan → M (Unit {0})
  execute_loop zero i err = halt Stop.starved
  execute_loop (suc fuel) i err =
      let rest = execute_loop fuel (add32 i 1) err in
      do n ← read_node; if is_buffered n i then execute_next i err >> rest else skip

  unfoldable pub execute_request : MsgId → ErrChan → M (Unit {0})
  execute_request id err = do
    modify λ n. record n { exec_req_id_buffer = insert id.sn id n.exec_req_id_buffer }
    cert ← get_cert id
    modify λ n. record n { exec_req_buffer = insert id.sn cert.req_batch_digest n.exec_req_buffer }
    n ← read_node
    if ltb n.last_exec id.sn
        then execute_loop (suc (length n.exec_req_buffer)) (add32 n.last_exec 1) err
        else skip
