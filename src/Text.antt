-- ===== src/Text.antt =====
-- The parts of Go's standard library that turn bytes and numbers into text, as the code uses them:
-- `encoding/hex` and `strconv.Itoa`.
pub mod Decimal
use trebiz.Prelude.{
  ℕ, zero, suc, ◌+◌, ◌-◌, ◌*◌, ◌/◌, ◌%◌, ◌<◌, ◌≡◌, refl, [], ◌∷◌, Option, none, some, ltb, leb,
  ◌&&◌, if◌then◌else◌, All, arith,
}
use trebiz.Messages.{Bytes}

-- The lower-case hexadecimal digit of a number below 16.
abbrev pub hex_digit : ℕ → ℕ
hex_digit n = if ltb n 10 then n + 48 else n + 87

-- `hex.EncodeToString`.
unfoldable pub encode_to_string : Bytes → Bytes
encode_to_string [] = []
encode_to_string (b ∷ bs) = hex_digit (b / 16) ∷ hex_digit (b % 16) ∷ encode_to_string bs

abbrev pub from_hex_char : ℕ → Option ℕ
from_hex_char c =
    if leb b'0' c && leb c b'9'
    then some (c - 48)
    else if leb b'a' c && leb c b'f'
    then some (c - 87)
    else if leb b'A' c && leb c b'F'
    then some (c - 55)
    else none

abbrev pub join_nibbles : Option ℕ → Option ℕ → Bytes → Bytes
join_nibbles (some hi) (some lo) rest = (hi * 16 + lo) ∷ rest
join_nibbles _ _ rest = []

-- `hex.DecodeString` without its error: the bytes decoded before the first character that is none.
unfoldable pub decode_string : Bytes → Bytes
decode_string [] = []
decode_string (c ∷ []) = []
decode_string (c ∷ d ∷ rest) = join_nibbles (from_hex_char c) (from_hex_char d) (decode_string rest)

abbrev pub IsByte : ℕ → Type 0
IsByte b = b < 256

pub hex_digit_lem : (n : ℕ) → n < 16 → from_hex_char (hex_digit n) ≡ some n
hex_digit_lem n h = ground arith

-- Decoding the hexadecimal text of a byte string gives the byte string back.
pub decode_string-encode_to_string :
    (b : Bytes) → All IsByte b → decode_string (encode_to_string b) ≡ b
unfolding decode_string encode_to_string
decode_string-encode_to_string [] h = refl
decode_string-encode_to_string (b ∷ bs) h =
    rw (hex_digit_lem (b / 16) (omega (arith, h.0)), hex_digit_lem (b % 16) (omega arith))
      (ground (arith, decode_string-encode_to_string bs h.1))

unfoldable pub itoa_loop : ℕ → ℕ → Bytes → Bytes
itoa_loop zero n acc = acc
itoa_loop (suc fuel) n acc =
    let rest = itoa_loop fuel (n / 10) ((n % 10 + 48) ∷ acc) in
    if ltb n 10 then (n + 48) ∷ acc else rest

-- `strconv.Itoa`. A number has fewer digits than its successor, so the fuel is enough.
unfoldable pub itoa : ℕ → Bytes
unfolding itoa_loop
itoa n = itoa_loop (suc n) n []
