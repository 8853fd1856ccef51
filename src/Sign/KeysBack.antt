-- ===== src/Sign/KeysBack.antt =====
-- A key that was encoded is decoded to itself.
use trebiz.Prelude.{◌≡◌, ◌∙◌, refl, ap, subst, List, [], ◌∷◌, Option, none, some}
use trebiz.Messages.{Bytes}
use trebiz.Node.Env.{PriShare, PubPoly}
use trebiz.Sign.Keys.{
  TsPartialMarshalled, TsPublicMarshalled, KeyCodec, then_do, marshall_ts_partial_key,
  un_marshall_ts_partial_key, encode_ts_partial_key, decode_ts_partial_key, marshall_commits,
  un_marshall_commits, marshall_ts_public_key, un_marshall_ts_public_key, encode_ts_public_key,
  decode_ts_public_key,
}

-- What is marshalled is unmarshalled to itself, and the JSON of an intermediate type is decoded to it.
pub record IsKeyCodec (k : KeyCodec) : Type 0 where
  pub scalar_back : (v b : Bytes) → k.scalar_marshal v ≡ some b → k.scalar_unmarshal b ≡ some v
  pub point_back : (v b : Bytes) → k.point_marshal v ≡ some b → k.point_unmarshal b ≡ some v
  pub partial_back :
      (x : TsPartialMarshalled) (b : Bytes)
      → k.encode_partial x ≡ some b
      → k.decode_partial b ≡ some x
  pub public_back :
      (x : TsPublicMarshalled) (b : Bytes) → k.encode_public x ≡ some b → k.decode_public b ≡ some x

-- A chain that gives a value.
pub then_do-some {ℓ κ} :
    {A : Type ℓ} {B : Type κ} (o : Option A) (f : A → Option B) (b : B)
    → then_do o f ≡ some b
    → (a : A) × (o ≡ some a) × (f a ≡ some b)
then_do-some none f b h = absurd cc
then_do-some (some a) f b h = (a, refl, h)

-- What holds of a value holds of the one that it is equal to.
carried {ℓ κ} :
    {A : Type ℓ} (P : A → Type κ) (a b : A) → ◌≡◌ {A = Option A} (some a) (some b) → P a → P b
carried P a b same p = subst P (cc) p

module _ (k : KeyCodec) (ok : IsKeyCodec k) where
  share_back :
      (p : PriShare) (par : TsPartialMarshalled)
      → marshall_ts_partial_key k p ≡ some par
      → un_marshall_ts_partial_key k par ≡ some p
  unfolding marshall_ts_partial_key un_marshall_ts_partial_key
  share_back p par h =
      let (bytes, scalar, same) = then_do-some (k.scalar_marshal p.v) _ par h in
      carried (λ x. un_marshall_ts_partial_key k x ≡ some p) _ par same
        (ap (λ o. then_do o λ v. some (record { i = p.i; v = v }))
          (ok.scalar_back p.v bytes scalar))

  -- A share that was encoded is decoded to itself.
  pub decode-encode_partial :
      (p : PriShare) (b : Bytes)
      → encode_ts_partial_key k p ≡ some b
      → decode_ts_partial_key k b ≡ some p
  unfolding encode_ts_partial_key decode_ts_partial_key
  decode-encode_partial p b h =
      let (par, marshalled, encoded) =
        then_do-some (marshall_ts_partial_key k p) k.encode_partial b h in
      ap (λ o. then_do o (un_marshall_ts_partial_key k)) (ok.partial_back par b encoded)
      ∙ share_back p par marshalled

  commits_back :
      (cs bs : List Bytes) → marshall_commits k cs ≡ some bs → un_marshall_commits k bs ≡ some cs
  unfolding marshall_commits un_marshall_commits
  commits_back [] bs h = carried (λ x. un_marshall_commits k x ≡ some []) [] bs h refl
  commits_back (c ∷ cs) bs h =
      let (b, point, rest) = then_do-some (k.point_marshal c) _ bs h in
      let (bs', later, same) = then_do-some (marshall_commits k cs) _ bs rest in
      carried (λ x. un_marshall_commits k x ≡ some (c ∷ cs)) (b ∷ bs') bs same
        (rw (ok.point_back c b point, commits_back cs bs' later))

  poly_back :
      (p : PubPoly) (m : TsPublicMarshalled)
      → marshall_ts_public_key k p ≡ some m
      → un_marshall_ts_public_key k m ≡ some p
  unfolding marshall_ts_public_key un_marshall_ts_public_key
  poly_back p m h =
      let (base, point, rest) = then_do-some (k.point_marshal p.base_bytes) _ m h in
      let (commits, later, same) = then_do-some (marshall_commits k p.commit_bytes) _ m rest in
      carried (λ x. un_marshall_ts_public_key k x ≡ some p) _ m same
        (rw (ok.point_back p.base_bytes base point, commits_back p.commit_bytes commits later))

  -- A public polynomial that was encoded is decoded to itself.
  pub decode-encode_public :
      (p : PubPoly) (b : Bytes)
      → encode_ts_public_key k p ≡ some b
      → decode_ts_public_key k b ≡ some p
  unfolding encode_ts_public_key decode_ts_public_key
  decode-encode_public p b h =
      let (m, marshalled, encoded) =
        then_do-some (marshall_ts_public_key k p) k.encode_public b h in
      ap (λ o. then_do o (un_marshall_ts_public_key k)) (ok.public_back m b encoded)
      ∙ poly_back p m marshalled
