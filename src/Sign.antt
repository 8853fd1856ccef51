-- ===== src/Sign.antt =====
-- sign/tools.go: signatures over the hash of the encoded data. `none` is a panic.
pub mod Keys
pub mod KeysBack
use trebiz.Prelude.{ℕ, List, Option, Bool}
use trebiz.Messages.{Bytes}
use trebiz.Node.Env.{Env, PriShare, PubPoly}

module _ (e : Env) where
  unfoldable pub data_hash_byte : Bytes → Bytes
  data_hash_byte msg = e.sha256 msg

  unfoldable pub sign_with_prikey : Bytes → Bytes → Bytes
  unfolding data_hash_byte
  sign_with_prikey msg pri_key = e.ed_sign pri_key (data_hash_byte msg)

  unfoldable pub verify_sign_ed : Bytes → Bytes → Bytes → Bool
  unfolding data_hash_byte
  verify_sign_ed msg public_key sig = e.ed_verify public_key (data_hash_byte msg) sig

  unfoldable pub sign_ts_partial : PriShare → Bytes → Option Bytes
  unfolding data_hash_byte
  sign_ts_partial pri_key msg = e.tbls_sign pri_key (data_hash_byte msg)

  unfoldable pub assemble_intact_ts_partial : List Bytes → PubPoly → Bytes → ℕ → ℕ → Option Bytes
  unfolding data_hash_byte
  assemble_intact_ts_partial partial_sigs pub_poly msg t n =
      e.tbls_recover pub_poly (data_hash_byte msg) partial_sigs t n

  unfoldable pub verify_ts : PubPoly → Bytes → Bytes → Bool
  unfolding data_hash_byte
  verify_ts pub_poly msg intact_sig = e.bls_verify pub_poly (data_hash_byte msg) intact_sig
