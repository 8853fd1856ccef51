-- ===== src/Transport/Receive.antt =====
-- The receiving side: `handleCommand` and `handleConn`.
use trebiz.Prelude.{
  ℕ, zero, suc, List, [], ◌∷◌, Option, none, some, Bool, true, false, if◌then◌else◌,
}
use trebiz.Messages.{Bytes, Message, MsgType}
use trebiz.Transport.{Codec, type_of_byte, MsgWithSig}

-- A reader at its end gives `eof` where the type of the next command is read.
pub data CommandError : Type 0 where
  eof undecoded transport_shutdown : CommandError
  unknown_rpc : ℕ → CommandError

-- A command goes to the consumer, and the rest of the stream is left.
pub data Command : Type 0 where
  dispatched : MsgWithSig → Bytes → Command
  failed : CommandError → Command

-- `consumed` says that the `select` found the consumer, and not that the transport was shut down.
abbrev pub dispatch : Bool → Message → Option (Bytes × Bytes) → Command
dispatch consumed msg none = failed undecoded
dispatch consumed msg (some (sig, rest)) =
    if consumed
    then dispatched (record { command = msg; sig = sig }) rest
    else failed transport_shutdown

module _ (c : Codec) (consumed : Bool) where
  abbrev pub decode_command : Option (Message × Bytes) → Command
  decode_command none = failed undecoded
  decode_command (some (msg, rest)) = dispatch consumed msg (c.decode_bytes rest)

  abbrev pub typed_command : Option MsgType → ℕ → Bytes → Command
  typed_command none b rest = failed (unknown_rpc b)
  typed_command (some ty) b rest = decode_command (c.decode_args ty rest)

  unfoldable pub handle_command : Bytes → Command
  handle_command [] = failed eof
  handle_command (b ∷ rest) = typed_command (type_of_byte b) b rest

-- Why the handler of a connection ends.
pub data ConnEnd : Type 0 where
  cancelled flush_failed out_of_fuel : ConnEnd
  command_failed : CommandError → ConnEnd

-- What the network does in each turn of a handler: whether its context is cancelled, whether the consumer takes
-- the command, and whether the flush of the answer fails. Turns are counted down.
pub record Turns : Type 0 where
  pub is_cancelled : ℕ → Bool
  pub is_consumed : ℕ → Bool
  pub is_flushed : ℕ → Bool

abbrev pub flush_then : Bool → List MsgWithSig × ConnEnd → List MsgWithSig × ConnEnd
flush_then true later = later
flush_then false later = ([], flush_failed)

abbrev pub received : MsgWithSig → List MsgWithSig × ConnEnd → List MsgWithSig × ConnEnd
received rpc later = (rpc ∷ later.0, later.1)

module _ (c : Codec) (net : Turns) where
  -- The commands that reach the consumer, in their order, and the end of the connection. The connection is then
  -- closed.
  unfoldable pub handle_conn : ℕ → Bytes → List MsgWithSig × ConnEnd
  handle_conn zero stream = ([], out_of_fuel)
  handle_conn (suc turn) stream =
      if net.is_cancelled turn
      then ([], cancelled)
      else elim (handle_command c (net.is_consumed turn) stream) [
        | failed e ↦ ([], command_failed e)
        | dispatched rpc rest ↦
            received rpc (flush_then (net.is_flushed turn) (handle_conn turn rest))
      ]
