-- ===== src/Node/Env.antt =====
-- What a node is given: the settings that `NewNode` copies from the configuration and that nothing
-- assigns later, and the operations that the code takes from outside the repository.
use trebiz.Prelude.{ℕ, List, Option, Bool, Map}
use trebiz.Messages.{Bytes, Payload}

-- A private share and a public polynomial of the threshold scheme, as sign/tools.go marshals them.
pub record PriShare : Type 0 where
  pub i : ℕ
  pub v : Bytes

pub record PubPoly : Type 0 where
  pub base_bytes : Bytes
  pub commit_bytes : List Bytes

-- `f` and `replica_count` are computed by `NewNode`.
pub record Settings : Type 0 where
  pub addr_str : Bytes
  pub replica_id : ℕ
  pub cluster_addr : Map ℕ Bytes
  pub cluster_port : Map ℕ ℕ
  pub node_type : ℕ
  pub evil_pr : ℕ
  pub my_private_key : Bytes
  pub public_key : Map ℕ Bytes
  pub ts_pri_key : PriShare
  pub ts_pub_key : PubPoly
  pub fast_pri_key : PriShare
  pub fast_pub_key : PubPoly
  pub f : ℕ
  pub checkpoint_t : ℕ
  pub log_k : ℕ
  pub replica_count : ℕ
  pub fast_qc_quorum : ℕ
  pub view_change_quorum : ℕ
  pub pre_prepare_subset_count : ℕ
  pub view_change_period : ℕ
  pub auto_view_change : ℕ
  pub batch_size : ℕ
  pub node_name : Bytes

-- The JSON encoder, the hash, and the signature schemes (`none` is an error).
pub record Crypto : Type 0 where
  pub encode : Payload → Option Bytes
  pub sha256 : Bytes → Bytes
  pub ed_sign : Bytes → Bytes → Bytes
  pub ed_verify : Bytes → Bytes → Bytes → Bool
  pub tbls_sign : PriShare → Bytes → Option Bytes
  pub tbls_recover : PubPoly → Bytes → List Bytes → ℕ → ℕ → Option Bytes
  pub bls_verify : PubPoly → Bytes → Bytes → Bool

-- Clock, randomness and network, each asked at a number that grows with every question.
pub record Outside : Type 0 where
  pub now : ℕ → ℕ
  pub random_num : ℕ → ℕ
  pub connects : ℕ → Bool
  pub transmits : ℕ → Bool
  pub releases : ℕ → Bool

pub record Env : Type 0 where
  pub settings : Settings
  pub open settings use *
  pub crypto : Crypto
  pub open crypto use *
  pub outside : Outside
  pub open outside use *
