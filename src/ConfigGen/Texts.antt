-- ===== src/ConfigGen/Texts.antt =====
-- The texts of keys in a file, and what the loader makes of them.
use trebiz.Prelude.{◌≡◌, ◌∙◌, refl, ap, [], Option, none, some, Map, bytes_key, lookup, All}
use trebiz.Messages.{Bytes}
use trebiz.Text.{IsByte, encode_to_string}
use trebiz.Text.Decimal.{decode_hex, decode_hex-encode_to_string}
use trebiz.Node.Env.{PriShare, PubPoly}
use trebiz.Sign.Keys.{
  KeyCodec, encode_ts_partial_key, encode_ts_public_key, decode_ts_partial_key,
  decode_ts_public_key,
}
use trebiz.Sign.KeysBack.{IsKeyCodec, decode-encode_partial, decode-encode_public}
use trebiz.Config.Load.{Setting, Viper, loaded, ◌>>=◌, or_refused, load_hex, load_share, load_poly}

-- The texts of keys are bytes.
pub record IsByteCodec (k : KeyCodec) : Type 0 where
  pub partial_bytes : (p : PriShare) (b : Bytes) → encode_ts_partial_key k p ≡ some b → All IsByte b
  pub public_bytes : (p : PubPoly) (b : Bytes) → encode_ts_public_key k p ≡ some b → All IsByte b

-- The private key that was generated under a name, if there is one.
abbrev pub own_key : Map Bytes (Bytes × Bytes) → Bytes → Bytes
own_key keys host = elim (lookup host keys) [ none ↦ [] | some pair ↦ pair.0 ]

module _ (k : KeyCodec) (v : Viper) where
  pub load_hex-text :
      (s : Setting) (b : Bytes)
      → v.get_string s ≡ encode_to_string b
      → All IsByte b
      → load_hex k v s ≡ loaded b
  load_hex-text s b h bytes =
      ap (λ x. or_refused (decode_hex x)) h ∙ ap or_refused (decode_hex-encode_to_string b bytes)

  module _ (ok : IsKeyCodec k) where
    pub load_share-text :
        (s : Setting) (p : PriShare) (b : Bytes)
        → v.get_string s ≡ encode_to_string b
        → All IsByte b
        → encode_ts_partial_key k p ≡ some b
        → load_share k v s ≡ loaded p
    load_share-text s p b h bytes encoded =
        ap (λ m. m >>= λ x. or_refused (decode_ts_partial_key k x)) (load_hex-text s b h bytes)
        ∙ ap or_refused (decode-encode_partial k ok p b encoded)

    pub load_poly-text :
        (s : Setting) (p : PubPoly) (b : Bytes)
        → v.get_string s ≡ encode_to_string b
        → All IsByte b
        → encode_ts_public_key k p ≡ some b
        → load_poly k v s ≡ loaded p
    load_poly-text s p b h bytes encoded =
        ap (λ m. m >>= λ x. or_refused (decode_ts_public_key k x)) (load_hex-text s b h bytes)
        ∙ ap or_refused (decode-encode_public k ok p b encoded)

pub own_text :
    (o : Option (Bytes × Bytes))
    → All IsByte (elim o as (λ _. Bytes) [ none ↦ [] | some pair ↦ pair.0 ])
    → decode_hex (elim o as (λ _. Bytes) [ none ↦ [] | some pair ↦ encode_to_string pair.0 ])
      ≡ some (elim o as (λ _. Bytes) [ none ↦ [] | some pair ↦ pair.0 ])
unfolding decode_hex
own_text none h = refl
own_text (some pair) h = decode_hex-encode_to_string pair.0 h
