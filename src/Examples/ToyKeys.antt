-- ===== src/Examples/ToyKeys.antt =====
-- A toy codec for keys.
use trebiz.Prelude.{
  ◌≡◌, refl, subst, List, [], ◌∷◌, Option, none, some, bytes_key, nat_key, Bool, true, false, ltb,
  ◌&&◌, if◌then◌else◌, All, arith,
}
use trebiz.Messages.{Bytes}
use trebiz.Text.{IsByte}
use trebiz.Node.Env.{PriShare, PubPoly}
use trebiz.Sign.Keys.{
  KeyCodec, TsPartialMarshalled, TsPublicMarshalled, encode_ts_partial_key, encode_ts_public_key,
  marshall_ts_partial_key, marshall_ts_public_key, marshall_commits, then_do,
}
use trebiz.Sign.KeysBack.{IsKeyCodec}
use trebiz.ConfigGen.Texts.{IsByteCodec}

abbrev all_bytes : Bytes → Bool
all_bytes [] = true
all_bytes (b ∷ bs) = ltb b 256 && all_bytes bs

all_bytes_lem : (b : Bytes) → all_bytes b ≡ true → All IsByte b
all_bytes_lem [] h = tt
all_bytes_lem (b ∷ bs) h = (ground arith, all_bytes_lem bs (ground arith))

abbrev checked : Bytes → Option Bytes
checked b = if all_bytes b then some b else none

abbrev toy_encode_public : TsPublicMarshalled → List Bytes → Option Bytes
toy_encode_public m [] = checked m.base_bytes
toy_encode_public m (c ∷ cs) = none

abbrev toy_decode_partial : Bytes → Option TsPartialMarshalled
toy_decode_partial [] = none
toy_decode_partial (b ∷ bs) = some (record { i = b; binary = bs })

-- A codec for shares of bytes and for polynomials without commitments.
abbrev pub toy_keys : KeyCodec
toy_keys = record {
  scalar_marshal = λ v. some v;
  scalar_unmarshal = λ b. some b;
  point_marshal = λ v. some v;
  point_unmarshal = λ b. some b;
  encode_partial = λ x. checked (x.i ∷ x.binary);
  decode_partial = toy_decode_partial;
  encode_public = λ x. toy_encode_public x x.commit_bytes;
  decode_public = λ b. some (record { base_bytes = b; commit_bytes = [] });
  share_hash = λ p. p.v;
}

checked-same : (b c : Bytes) → checked b ≡ some c → (b ≡ c) × (all_bytes b ≡ true)
checked-same b c h = go (all_bytes b) refl h
  where
    go :
        (x : Bool)
        → all_bytes b ≡ x
        → (if x then some b else none) ≡ some c
        → (b ≡ c) × (all_bytes b ≡ true)
    go true e h = (cc, e)
    go false e h = absurd cc

toy_partial_back :
    (x : TsPartialMarshalled) (b : Bytes)
    → checked (x.i ∷ x.binary) ≡ some b
    → toy_decode_partial b ≡ some x
toy_partial_back x b h =
    subst (λ y. toy_decode_partial y ≡ some x) (checked-same (x.i ∷ x.binary) b h).0 refl

toy_public_back :
    (m : TsPublicMarshalled) (b : Bytes) (commits : List Bytes)
    → m.commit_bytes ≡ commits
    → toy_encode_public m commits ≡ some b
    → ◌≡◌ {A = Option TsPublicMarshalled}
        (some (record { base_bytes = b; commit_bytes = [] }))
        (some m)
toy_public_back m b [] e h =
    let base : m.base_bytes ≡ b = (checked-same m.base_bytes b h).0 in rw (e, base) refl
toy_public_back m b (c ∷ more) e h = absurd cc

pub toy-IsKeyCodec : IsKeyCodec toy_keys
toy-IsKeyCodec = record {
  scalar_back = λ v b h. cc;
  point_back = λ v b h. cc;
  partial_back = toy_partial_back;
  public_back = λ x b h. toy_public_back x b x.commit_bytes refl h;
}

toy_partial_bytes :
    (p : PriShare) (b : Bytes) → encode_ts_partial_key toy_keys p ≡ some b → All IsByte b
unfolding encode_ts_partial_key marshall_ts_partial_key
toy_partial_bytes p b h =
    let (same, bytes) = checked-same (p.i ∷ p.v) b h in
    subst (All IsByte) same (all_bytes_lem (p.i ∷ p.v) bytes)

toy_commits : (cs : List Bytes) → marshall_commits toy_keys cs ≡ some cs
unfolding marshall_commits
toy_commits [] = refl
toy_commits (c ∷ cs) = rw (toy_commits cs)

toy_public_bytes :
    (p : PubPoly) (b : Bytes) → encode_ts_public_key toy_keys p ≡ some b → All IsByte b
unfolding encode_ts_public_key marshall_ts_public_key
toy_public_bytes p b h = from_commits p.commit_bytes (
    subst
      (λ o.
        then_do (then_do o λ cs. some (record { base_bytes = p.base_bytes; commit_bytes = cs }))
          toy_keys.encode_public
        ≡ some b)
      (toy_commits p.commit_bytes) h)
  where
    from_commits :
        (cs : List Bytes)
        → toy_encode_public (record { base_bytes = p.base_bytes; commit_bytes = cs }) cs ≡ some b
        → All IsByte b
    from_commits [] e =
        let (same, bytes) = checked-same p.base_bytes b e in
        subst (All IsByte) same (all_bytes_lem p.base_bytes bytes)
    from_commits (c ∷ cs) e = absurd cc

pub toy-IsByteCodec : IsByteCodec toy_keys
toy-IsByteCodec = record { partial_bytes = toy_partial_bytes; public_bytes = toy_public_bytes }
