-- ===== src/Transport/Send.antt =====
-- The sending side: `dialConn`, `SendRPC`, `ReturnConn` and `decodeResponse`.
use trebiz.Prelude.{[], ◌∷◌, ◌++◌, Option, none, some, Bool, true, false, if◌then◌else◌}
use trebiz.Messages.{Bytes, Message, MsgType}
use trebiz.Transport.{Codec, byte_of}

-- What was handed to the buffered writer waits in `buffer` until it is flushed to the `wire`. A writer that is
-- full flushes earlier, which changes nothing of what is on the wire after a flush.
pub record NetConn : Type 0 where
  pub target : Bytes
  pub buffer : Bytes
  pub wire : Bytes
  pub is_closed : Bool

abbrev pub release : NetConn → NetConn
release conn = record conn { is_closed = true }

abbrev pub write : Bytes → NetConn → NetConn
write b conn = record conn { buffer = conn.buffer ++ b }

abbrev pub flush : NetConn → NetConn
flush conn = record conn { buffer = []; wire = conn.wire ++ conn.buffer }

-- Which of the writes of one `SendRPC` fails.
pub record Faults : Type 0 where
  pub at_type : Bool
  pub at_args : Bool
  pub at_sig : Bool
  pub at_flush : Bool

-- Dialling fails, or gives a connection with nothing written.
unfoldable pub dial_conn : Bool → Bytes → Option NetConn
dial_conn fails target =
    if fails
    then none
    else some (record { target = target; buffer = []; wire = []; is_closed = false })

-- There is no pool: every connection is dialled.
unfoldable pub get_conn : Bool → Bytes → Option NetConn
unfolding dial_conn
get_conn fails target = dial_conn fails target

-- The connection is closed, and the error of closing it is returned.
unfoldable pub return_conn : Bool → NetConn → NetConn × Bool
return_conn fails conn = (release conn, fails)

-- One write of `SendRPC`: an error releases the connection and is returned.
abbrev pub write_step : Bool → Option Bytes → NetConn → (NetConn → NetConn × Bool) → NetConn × Bool
write_step fails none conn next = (release conn, true)
write_step fails (some b) conn next = if fails then (release conn, true) else next (write b conn)

abbrev pub flush_step : Bool → NetConn → NetConn × Bool
flush_step fails conn = if fails then (release conn, true) else (flush conn, false)

module _ (c : Codec) (faults : Faults) where
  abbrev pub send_sig : Bytes → NetConn → NetConn × Bool
  send_sig sig conn =
      write_step faults.at_sig (c.encode_bytes sig) conn (flush_step faults.at_flush)

  abbrev pub send_args : Message → Bytes → NetConn → NetConn × Bool
  send_args args sig conn = write_step faults.at_args (c.encode_args args) conn (send_sig sig)

  -- The connection afterwards, and whether there was an error.
  unfoldable pub send_rpc : NetConn → MsgType → Message → Bytes → NetConn × Bool
  send_rpc conn rpc_type args sig =
      write_step faults.at_type (some (byte_of rpc_type ∷ [])) conn (send_args args sig)
