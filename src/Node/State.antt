-- ===== src/Node/State.antt =====
-- The state of a node (core/node.go): the certificate of a request and the fields of `Node` that
-- the handlers assign.
use trebiz.Prelude.{ℕ, List, Option, none, Bool, false, Map, []}
use trebiz.Messages.{
  Bytes, MsgId, Request, RequestBatch, PrePrepareMsg, PrepareQc, FastPrepareQc, PrepareMsg,
  CommitQc, CommitMsg, VoteForPrepare, CheckpointMsg, Vcidx, ViewChangeMsg, NewViewMsg, Message,
  MsgType,
}

-- The zero value is `received`.
pub data MsgStage : Type 0 where
  received prepared committed : MsgStage

pub record MsgCert : Type 0 where
  pub req_batch_stage : MsgStage
  pub req_batch_digest : Option Bytes
  pub prepare_qc : Option PrepareQc
  pub fast_prepare_qc : Option FastPrepareQc
  pub prepare_qc_stage : Bool
  pub commit_qc : Option CommitQc
  pub commit_qc_stage : Bool
  pub pre_prepare_store : Option PrePrepareMsg
  pub pre_pare_store : Map ℕ PrepareMsg
  pub commit_store : Map ℕ CommitMsg

-- The certificate that `getCert` makes.
abbrev pub empty_cert : MsgCert
empty_cert = record {
  req_batch_stage = received;
  req_batch_digest = none;
  prepare_qc = none;
  fast_prepare_qc = none;
  prepare_qc_stage = false;
  commit_qc = none;
  commit_qc_stage = false;
  pre_prepare_store = none;
  pre_pare_store = [];
  commit_store = [];
}

-- The partial signatures of a request, by the text of the vote and the replica.
abbrev pub PartialSigs : Type 0
PartialSigs = Map MsgId (Map Bytes (Map ℕ Bytes))

-- `prepare_timer` holds the flag `stop` of each fast timer.
pub record Node : Type 0 where
  pub next_sn : ℕ
  pub last_exec : ℕ
  pub view_change_seq_number : ℕ
  pub curren_view : ℕ
  pub active_view : Bool
  pub view_change_store : Map Vcidx ViewChangeMsg
  pub view_change_stage : Map ℕ Bool
  pub new_view_store : Map ℕ NewViewMsg
  pub new_view_stage : Map ℕ Bool
  pub last_new_vew_timeout : ℕ
  pub timer_active : Bool
  pub req_batch : Map MsgId RequestBatch
  pub partial_sig_in_prepare : PartialSigs
  pub fast_partial_sig_in_prepare : PartialSigs
  pub partial_sig_in_commit : PartialSigs
  pub req_cert_store : Map MsgId MsgCert
  pub h : ℕ
  pub chkpts : Map ℕ Bytes
  pub checkpoint_store : Map ℕ (Map CheckpointMsg Bool)
  pub exec_req_buffer : Map ℕ (Option Bytes)
  pub exec_req_id_buffer : Map ℕ MsgId
  pub prepare_timer : Map MsgId Bool
  pub batch_store : List Request
  pub leader : Bytes

-- What a handler starts with `go`.
pub data Task : Type 0 where
  checkpoint_task : ℕ → Task
  check_prepared_task : MsgId → Task
  propose_task : RequestBatch → Task
  send_task : (index : ℕ) (addr : Bytes) (ty : MsgType) (msg : Message) (sig : Bytes) → Task

-- What a handler does to the rest of the world. `signs` is no call of its own: it stands for the two calls
-- of the signature library that sign a vote with the node's key shares.
pub data Effect : Type 0 where
  spawns : Task → Effect
  posts : (addr : Bytes) (ty : MsgType) (msg : Message) (sig : Bytes) → Effect
  starts_fast_timer : MsgId → Bytes → Effect
  stops_timer : Effect
  resets_timer : ℕ → Effect
  soft_resets_timer : ℕ → Effect
  executes : (sn : ℕ) (id : MsgId) → Effect
  signs : VoteForPrepare → Effect

-- `questions` counts what was asked of the outside, `errs` the errors that wait in the error
-- channel, and `out` holds the effects, the newest first.
pub record World : Type 0 where
  pub node : Node
  pub questions : ℕ
  pub errs : ℕ
  pub out : List Effect
