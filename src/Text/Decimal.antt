-- ===== src/Text/Decimal.antt =====
-- `strconv.Atoi` and `hex.DecodeString` with their errors, and that they read what was written.
use trebiz.Prelude.{
  ℕ, zero, suc, ◌+◌, ◌-◌, ◌*◌, ◌/◌, ◌%◌, ◌^◌, ◌<◌, ◌≡◌, ◌∙◌, refl, ap, [], ◌∷◌, Option, none, some,
  ltb, leb, ltb→lt, ◌==◌, min, ◌&&◌, Bool, true, false, if◌then◌else◌, All, arith,
}
use trebiz.Messages.{Bytes}
use trebiz.Text.{IsByte, encode_to_string, from_hex_char, hex_digit_lem, itoa_loop, itoa}

abbrev pub is_digit : ℕ → Bool
is_digit c = leb b'0' c && leb c b'9'

-- The number that decimal digits go on to, from the number before them.
abbrev pub digits : ℕ → Bytes → Option ℕ
digits v [] = some v
digits v (c ∷ cs) = if is_digit c then digits (v * 10 + (c - 48)) cs else none

-- The result of `strconv.Atoi` without its error, converted to `uint32`: 0 for what is no number, and the
-- nearest `int` for what is too large for one.
abbrev largest_int : ℕ
largest_int = 9223372036854775807

abbrev positive : Option ℕ → ℕ
positive none = 0
positive (some v) = min v largest_int % 4294967296

abbrev negative : Option ℕ → ℕ
negative none = 0
negative (some v) = (4294967296 - min v (largest_int + 1) % 4294967296) % 4294967296

abbrev pub some_digits : Bytes → Option ℕ
some_digits [] = none
some_digits (c ∷ cs) = digits 0 (c ∷ cs)

unfoldable pub atoi_uint32 : Bytes → ℕ
atoi_uint32 [] = 0
atoi_uint32 (c ∷ cs) =
    if c == b'+'
    then positive (some_digits cs)
    else if c == b'-'
    then negative (some_digits cs)
    else positive (some_digits (c ∷ cs))

abbrev both_nibbles : Option ℕ → Option ℕ → Option Bytes → Option Bytes
both_nibbles (some hi) (some lo) (some rest) = some ((hi * 16 + lo) ∷ rest)
both_nibbles _ _ _ = none

-- `hex.DecodeString`, `none` being its error: an odd length or a character that is no digit.
unfoldable pub decode_hex : Bytes → Option Bytes
decode_hex [] = some []
decode_hex (c ∷ []) = none
decode_hex (c ∷ d ∷ rest) = both_nibbles (from_hex_char c) (from_hex_char d) (decode_hex rest)

nibbles : (b : ℕ) → b / 16 * 16 + b % 16 ≡ b
nibbles b = omega arith

pub decode_hex-encode_to_string :
    (b : Bytes) → All IsByte b → decode_hex (encode_to_string b) ≡ some b
unfolding decode_hex encode_to_string
decode_hex-encode_to_string [] h = refl
decode_hex-encode_to_string (b ∷ bs) h =
    rw
      (
        hex_digit_lem (b / 16) (omega (arith, h.0)),
        hex_digit_lem (b % 16) (omega arith),
        decode_hex-encode_to_string bs h.1,
      )
      (ap (λ x. some (x ∷ bs)) (nibbles b))

digit_is : (n : ℕ) → n < 10 → is_digit (n + 48) ≡ true
digit_is n h = ground arith

back : (n : ℕ) → n + 48 - 48 ≡ n
back n = omega arith

digits-digit : (v n : ℕ) (cs : Bytes) → n < 10 → digits v ((n + 48) ∷ cs) ≡ digits (v * 10 + n) cs
digits-digit v n cs h = rw (digit_is n h) (ap (λ x. digits (v * 10 + x) cs) (back n))

smaller : (n fuel : ℕ) → ltb n 10 ≡ false → n < suc fuel → n / 10 < fuel
smaller n fuel large h = ground arith

not_plus : (c : ℕ) → is_digit c ≡ true → (c == b'+') ≡ false
not_plus c h = ground arith

not_minus : (c : ℕ) → is_digit c ≡ true → (c == b'-') ≡ false
not_minus c h = ground arith

within : (n : ℕ) → n < 2 ^ 32 → min n largest_int % 4294967296 ≡ n
within n h = omega arith

-- A test between two texts.
if_text {ℓ} :
    (P : Bytes → Type ℓ) (b : Bool) (x y : Bytes)
    → (b ≡ true → P x)
    → (b ≡ false → P y)
    → P (if b then x else y)
if_text P true x y hx hy = hx refl
if_text P false x y hx hy = hy refl

from_zero : (n : ℕ) → 0 * 10 + n ≡ n
from_zero n = omega arith

last_digit : (n : ℕ) → n / 10 * 10 + n % 10 ≡ n
last_digit n = omega arith

digits-itoa_loop :
    (fuel n : ℕ) (acc : Bytes) → n < fuel → digits 0 (itoa_loop fuel n acc) ≡ digits n acc
unfolding itoa_loop
digits-itoa_loop zero n acc h = absurd (omega arith)
digits-itoa_loop (suc fuel) n acc h =
    if_text (λ x. digits 0 x ≡ digits n acc) (ltb n 10) ((n + 48) ∷ acc)
      (itoa_loop fuel (n / 10) ((n % 10 + 48) ∷ acc))
      (λ small. digits-digit 0 n acc (ltb→lt n 10 small) ∙ ap (λ x. digits x acc) (from_zero n))
      λ large.
        digits-itoa_loop fuel (n / 10) ((n % 10 + 48) ∷ acc) (smaller n fuel large h)
        ∙ digits-digit (n / 10) (n % 10) acc (omega arith)
        ∙ ap (λ x. digits x acc) (last_digit n)

-- The text starts with a digit.
abbrev IsNumeral : Bytes → Type 0
IsNumeral [] = ⊥
IsNumeral (c ∷ cs) = is_digit c ≡ true

itoa_loop-IsNumeral : (fuel n : ℕ) (acc : Bytes) → n < fuel → IsNumeral (itoa_loop fuel n acc)
unfolding itoa_loop
itoa_loop-IsNumeral zero n acc h = absurd (omega arith)
itoa_loop-IsNumeral (suc fuel) n acc h =
    if_text IsNumeral (ltb n 10) ((n + 48) ∷ acc) (itoa_loop fuel (n / 10) ((n % 10 + 48) ∷ acc))
      (λ small. digit_is n (ltb→lt n 10 small))
      λ large. itoa_loop-IsNumeral fuel (n / 10) ((n % 10 + 48) ∷ acc) (smaller n fuel large h)

numeral :
    (text : Bytes) (n : ℕ)
    → IsNumeral text
    → digits 0 text ≡ some n
    → n < 2 ^ 32
    → atoi_uint32 text ≡ n
unfolding atoi_uint32
numeral [] n i h small = absurd i
numeral (c ∷ cs) n i h small = rw (not_plus c i, not_minus c i) (ap positive h ∙ within n small)

-- A number below 2^32 is read back from its decimal text.
pub atoi_uint32-itoa : (n : ℕ) → n < 2 ^ 32 → atoi_uint32 (itoa n) ≡ n
unfolding itoa
atoi_uint32-itoa n h =
    numeral (itoa_loop (suc n) n []) n (itoa_loop-IsNumeral (suc n) n [] (omega arith))
      (digits-itoa_loop (suc n) n [] (omega arith)) h

numeral_digits : (text : Bytes) → IsNumeral text → some_digits text ≡ digits 0 text
numeral_digits [] i = absurd i
numeral_digits (c ∷ cs) i = refl

-- A number is read back from its decimal text, however large it is.
pub some_digits-itoa : (n : ℕ) → some_digits (itoa n) ≡ some n
unfolding itoa
some_digits-itoa n =
    numeral_digits (itoa_loop (suc n) n []) (itoa_loop-IsNumeral (suc n) n [] (omega arith))
    ∙ digits-itoa_loop (suc n) n [] (omega arith)
