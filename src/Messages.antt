-- ===== src/Messages.antt =====
-- The messages of core/msg_type.go, the requests of core/rpchandler.go and the identifiers of
-- core/node.go. A `[]byte` that the code tests for nil is an `Option Bytes`; the other byte strings
-- and Go's strings are lists of bytes.
use trebiz.Prelude.{
  ℕ, List, Option, Bool, Map, ◌==◌, ◌&&◌, ◌≡◌, ◌↔◌, true, same_bytes, same_bytes_iff, Key, arith,
  none, some, [],
}

abbrev pub Bytes : Type 0
Bytes = List ℕ

pub record MsgId : Type 0 where
  pub sn : ℕ
  pub view : ℕ

pub record Request : Type 0 where
  pub cmd : Bytes

pub record RequestBatch : Type 0 where
  pub batch : List Request

pub record PrePrepareMsg : Type 0 where
  pub sn : ℕ
  pub batch_hash : Option Bytes
  pub req_batch : RequestBatch
  pub view : ℕ
  pub replica_id : ℕ
  pub time_stamp : ℕ

pub record VoteForPrepare : Type 0 where
  pub sn : ℕ
  pub batch_hash : Option Bytes
  pub view : ℕ

pub record PrepareQc : Type 0 where
  pub sn : ℕ
  pub batch_hash : Option Bytes
  pub view : ℕ
  pub replica_id : ℕ
  pub threshold_sig : Bytes
  pub time_stamp : ℕ

pub record FastPrepareQc : Type 0 where
  pub sn : ℕ
  pub batch_hash : Option Bytes
  pub view : ℕ
  pub replica_id : ℕ
  pub threshold_sig : Bytes
  pub time_stamp : ℕ

pub record PrepareMsg : Type 0 where
  pub vote : VoteForPrepare
  pub replica_id : ℕ
  pub partial_sig : Bytes
  pub fast_partial_sig : Bytes
  pub time_stamp : ℕ

pub record CommitQc : Type 0 where
  pub sn : ℕ
  pub batch_hash : Option Bytes
  pub view : ℕ
  pub replica_id : ℕ
  pub threshold_sig : Bytes
  pub time_stamp : ℕ

pub record CommitMsg : Type 0 where
  pub vote : PrepareQc
  pub replica_id : ℕ
  pub partial_sig : Bytes
  pub time_stamp : ℕ

pub record CheckpointMsg : Type 0 where
  pub seq_n : ℕ
  pub state_digest : Bytes
  pub replica_id : ℕ

-- The index of a view-change message.
pub record Vcidx : Type 0 where
  pub view : ℕ
  pub replica_id : ℕ

pub record ViewChangeMsg : Type 0 where
  pub view : ℕ
  pub last_stable_ck : ℕ
  pub cset : List CheckpointMsg
  pub pset : Map ℕ PrePrepareMsg
  pub qset : Map ℕ PrepareQc
  pub replica_id : ℕ

pub record NewViewMsg : Type 0 where
  pub view : ℕ
  pub vset : List ViewChangeMsg
  pub oset : Map ℕ RequestBatch
  pub replica_id : ℕ

-- The commands that the main loop takes from the transport.
pub data Message : Type 0 where
  pre_prepare : PrePrepareMsg → Message
  prepare : PrepareMsg → Message
  commit : CommitMsg → Message
  prepare_qc : PrepareQc → Message
  fast_prepare_qc : FastPrepareQc → Message
  commit_qc : CommitQc → Message
  check_point : CheckpointMsg → Message
  view_change : ViewChangeMsg → Message
  view_change_quorum : Message
  new_view : NewViewMsg → Message
  view_change_timer : Message

-- The message types of core/net_transport.go, in the order of their numbers.
pub data MsgType : Type 0 where
  pre_prepare_type prepare_type commit_type prepare_qc_type fast_prepare_qc_type : MsgType
  commit_qc_type check_point_type view_change_type view_change_quorum_type new_view_type : MsgType

-- What the code hands to `encode`: a message, a vote, a batch, or a nil pointer.
pub data Payload : Type 0 where
  message : Message → Payload
  vote : VoteForPrepare → Payload
  batch : RequestBatch → Payload
  nil_pointer : Payload

-- The contents of a byte slice: a nil slice has none.
abbrev pub contents : Option Bytes → Bytes
contents none = []
contents (some b) = b

abbrev pub same_id : MsgId → MsgId → Bool
same_id a b = a.sn == b.sn && a.view == b.view

pub same_id_iff : (a b : MsgId) → (same_id a b ≡ true) ↔ (a ≡ b)
same_id_iff a b = ground arith

instance abbrev pub id_key : Key MsgId
id_key = record { same = same_id; same_iff = same_id_iff }

abbrev pub same_vcidx : Vcidx → Vcidx → Bool
same_vcidx a b = a.view == b.view && a.replica_id == b.replica_id

pub same_vcidx_iff : (a b : Vcidx) → (same_vcidx a b ≡ true) ↔ (a ≡ b)
same_vcidx_iff a b = ground arith

instance abbrev pub vcidx_key : Key Vcidx
vcidx_key = record { same = same_vcidx; same_iff = same_vcidx_iff }

abbrev pub same_checkpoint : CheckpointMsg → CheckpointMsg → Bool
same_checkpoint a b =
    a.seq_n == b.seq_n && same_bytes a.state_digest b.state_digest && a.replica_id == b.replica_id

pub same_checkpoint_iff : (a b : CheckpointMsg) → (same_checkpoint a b ≡ true) ↔ (a ≡ b)
same_checkpoint_iff a b = ground (arith, same_bytes_iff a.state_digest b.state_digest)

instance abbrev pub checkpoint_key : Key CheckpointMsg
checkpoint_key = record { same = same_checkpoint; same_iff = same_checkpoint_iff }
