-- ===== src/Transport.antt =====
-- core/net_transport.go and core/tcp_transport.go: what goes over a connection. The codec is the package
-- hashicorp/go-msgpack, a parameter: what it writes for a value, and what it reads off the front of a stream.
-- The errors of the network are parameters too.
pub mod Send
pub mod Receive
pub mod Listen
pub mod Frames
pub mod Carries
pub mod Ends
pub mod Delays
use trebiz.Prelude.{
  ℕ, suc, ◌≤◌, ◌≡◌, refl, List, [], ◌∷◌, ◌++◌, Option, none, some, Bool, true, false, length, ◌==◌,
  if◌then◌else◌, arith,
}
use trebiz.Messages.{
  Bytes, Message, pre_prepare, prepare, commit, prepare_qc, fast_prepare_qc, commit_qc, check_point,
  view_change, view_change_quorum, new_view, view_change_timer, MsgType, pre_prepare_type,
  prepare_type, commit_type, prepare_qc_type, fast_prepare_qc_type, commit_qc_type,
  check_point_type, view_change_type, view_change_quorum_type, new_view_type,
}

-- The number of a message type.
abbrev pub byte_of : MsgType → ℕ
byte_of pre_prepare_type = 0
byte_of prepare_type = 1
byte_of commit_type = 2
byte_of prepare_qc_type = 3
byte_of fast_prepare_qc_type = 4
byte_of commit_qc_type = 5
byte_of check_point_type = 6
byte_of view_change_type = 7
byte_of view_change_quorum_type = 8
byte_of new_view_type = 9

abbrev pub msg_types : List MsgType
msg_types =
    pre_prepare_type ∷ prepare_type ∷ commit_type ∷ prepare_qc_type ∷ fast_prepare_qc_type
    ∷ commit_qc_type ∷ check_point_type ∷ view_change_type ∷ view_change_quorum_type ∷ new_view_type
    ∷ []

abbrev find_type : List MsgType → ℕ → Option MsgType
find_type [] b = none
find_type (ty ∷ rest) b = if byte_of ty == b then some ty else find_type rest b

-- The type of a number, if one has it: the cases of the switch in `handleCommand`.
abbrev pub type_of_byte : ℕ → Option MsgType
type_of_byte b = find_type msg_types b

-- The type that a message is sent under. The timer's event never goes over the network.
abbrev pub type_of : Message → Option MsgType
type_of (pre_prepare _) = some pre_prepare_type
type_of (prepare _) = some prepare_type
type_of (commit _) = some commit_type
type_of (prepare_qc _) = some prepare_qc_type
type_of (fast_prepare_qc _) = some fast_prepare_qc_type
type_of (commit_qc _) = some commit_qc_type
type_of (check_point _) = some check_point_type
type_of (view_change _) = some view_change_type
type_of view_change_quorum = some view_change_quorum_type
type_of (new_view _) = some new_view_type
type_of view_change_timer = none

-- `none` is an error of the codec. Decoding gives the value and what is left of the stream.
pub record Codec : Type 0 where
  pub encode_args : Message → Option Bytes
  pub encode_bytes : Bytes → Option Bytes
  pub decode_args : MsgType → Bytes → Option (Message × Bytes)
  pub decode_bytes : Bytes → Option (Bytes × Bytes)

-- What the code relies on: a value that was written is read back, the next one is left in the stream, and
-- reading does not lengthen the stream.
pub record IsCodec (c : Codec) : Type 0 where
  pub args_back :
      (msg : Message) (ty : MsgType) (b rest : Bytes)
      → type_of msg ≡ some ty
      → c.encode_args msg ≡ some b
      → c.decode_args ty (b ++ rest) ≡ some (msg, rest)
  pub bytes_back :
      (sig b rest : Bytes)
      → c.encode_bytes sig ≡ some b
      → c.decode_bytes (b ++ rest) ≡ some (sig, rest)
  pub args_left :
      (ty : MsgType) (stream rest : Bytes) (msg : Message)
      → c.decode_args ty stream ≡ some (msg, rest)
      → length rest ≤ length stream
  pub bytes_left :
      (stream rest sig : Bytes)
      → c.decode_bytes stream ≡ some (sig, rest)
      → length rest ≤ length stream

pub record MsgWithSig : Type 0 where
  pub command : Message
  pub sig : Bytes

pub type_of_byte-byte_of : (ty : MsgType) → type_of_byte (byte_of ty) ≡ some ty
type_of_byte-byte_of pre_prepare_type = refl
type_of_byte-byte_of prepare_type = refl
type_of_byte-byte_of commit_type = refl
type_of_byte-byte_of prepare_qc_type = refl
type_of_byte-byte_of fast_prepare_qc_type = refl
type_of_byte-byte_of commit_qc_type = refl
type_of_byte-byte_of check_point_type = refl
type_of_byte-byte_of view_change_type = refl
type_of_byte-byte_of view_change_quorum_type = refl
type_of_byte-byte_of new_view_type = refl
