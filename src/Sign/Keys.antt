-- ===== src/Sign/Keys.antt =====
-- sign/tools.go: how the keys of the threshold scheme become bytes and come back. A scalar and a point of the
-- curve are what kyber's `MarshalBinary` and `UnmarshalBinary` take and give, and those and the JSON of the two
-- intermediate types are parameters (`none` is an error).
use trebiz.Prelude.{ℕ, List, [], ◌∷◌, Option, none, some, Bool, ◌==◌, ◌&&◌, same_bytes}
use trebiz.Messages.{Bytes}
use trebiz.Node.Env.{PriShare, PubPoly}

pub record TsPartialMarshalled : Type 0 where
  pub i : ℕ
  pub binary : Bytes

pub record TsPublicMarshalled : Type 0 where
  pub base_bytes : Bytes
  pub commit_bytes : List Bytes

pub record KeyCodec : Type 0 where
  pub scalar_marshal : Bytes → Option Bytes
  pub scalar_unmarshal : Bytes → Option Bytes
  pub point_marshal : Bytes → Option Bytes
  pub point_unmarshal : Bytes → Option Bytes
  pub encode_partial : TsPartialMarshalled → Option Bytes
  pub decode_partial : Bytes → Option TsPartialMarshalled
  pub encode_public : TsPublicMarshalled → Option Bytes
  pub decode_public : Bytes → Option TsPublicMarshalled
  pub share_hash : PriShare → Bytes

abbrev pub then_do {ℓ κ} : {A : Type ℓ} {B : Type κ} → Option A → (A → Option B) → Option B
then_do none f = none
then_do (some a) f = f a

module _ (k : KeyCodec) where
  unfoldable pub marshall_ts_partial_key : PriShare → Option TsPartialMarshalled
  marshall_ts_partial_key pri_share =
      then_do (k.scalar_marshal pri_share.v)
        λ bytes. some (record { i = pri_share.i; binary = bytes })

  unfoldable pub un_marshall_ts_partial_key : TsPartialMarshalled → Option PriShare
  un_marshall_ts_partial_key par =
      then_do (k.scalar_unmarshal par.binary) λ v. some (record { i = par.i; v = v })

  unfoldable pub encode_ts_partial_key : PriShare → Option Bytes
  unfolding marshall_ts_partial_key
  encode_ts_partial_key pri_share = then_do (marshall_ts_partial_key pri_share) k.encode_partial

  unfoldable pub decode_ts_partial_key : Bytes → Option PriShare
  unfolding un_marshall_ts_partial_key
  decode_ts_partial_key data' = then_do (k.decode_partial data') un_marshall_ts_partial_key

  unfoldable pub equal_ts_partial_key : PriShare → PriShare → Bool
  equal_ts_partial_key p q = p.i == q.i && same_bytes (k.share_hash p) (k.share_hash q)

  -- The loops over the commitments end at the first error.
  unfoldable pub marshall_commits : List Bytes → Option (List Bytes)
  marshall_commits [] = some []
  marshall_commits (c ∷ rest) =
      then_do (k.point_marshal c) λ b. then_do (marshall_commits rest) λ bs. some (b ∷ bs)

  unfoldable pub un_marshall_commits : List Bytes → Option (List Bytes)
  un_marshall_commits [] = some []
  un_marshall_commits (b ∷ rest) =
      then_do (k.point_unmarshal b) λ c. then_do (un_marshall_commits rest) λ cs. some (c ∷ cs)

  unfoldable pub marshall_ts_public_key : PubPoly → Option TsPublicMarshalled
  unfolding marshall_commits
  marshall_ts_public_key pub_key = then_do (k.point_marshal pub_key.base_bytes) λ base.
      then_do (marshall_commits pub_key.commit_bytes)
        λ commits. some (record { base_bytes = base; commit_bytes = commits })

  unfoldable pub un_marshall_ts_public_key : TsPublicMarshalled → Option PubPoly
  unfolding un_marshall_commits
  un_marshall_ts_public_key tspm = then_do (k.point_unmarshal tspm.base_bytes) λ base.
      then_do (un_marshall_commits tspm.commit_bytes)
        λ commits. some (record { base_bytes = base; commit_bytes = commits })

  unfoldable pub encode_ts_public_key : PubPoly → Option Bytes
  unfolding marshall_ts_public_key
  encode_ts_public_key pub_key = then_do (marshall_ts_public_key pub_key) k.encode_public

  unfoldable pub decode_ts_public_key : Bytes → Option PubPoly
  unfolding un_marshall_ts_public_key
  decode_ts_public_key data' = then_do (k.decode_public data') un_marshall_ts_public_key
