-- ===== src/Transport/Frames.antt =====
-- What one `SendRPC` puts on the wire.
use trebiz.Prelude.{
  ℕ, ◌≡◌, ◌∙◌, refl, ap, sym, [], ◌∷◌, ◌++◌, Option, none, some, Bool, true, false,
}
use trebiz.Messages.{Bytes, Message, MsgType}
use trebiz.Transport.{Codec, byte_of}
use trebiz.Transport.Send.{
  NetConn, Faults, send_sig, send_args, write, flush, write_step, flush_step, send_rpc,
}

-- A transmission: the type, the arguments and the signature.
pub record IsFrame (c : Codec) (ty : MsgType) (msg : Message) (sig frame : Bytes) : Type 0 where
  pub args : Bytes
  pub sig_bytes : Bytes
  pub args_eq : c.encode_args msg ≡ some args
  pub sig_eq : c.encode_bytes sig ≡ some sig_bytes
  pub frame_eq : frame ≡ byte_of ty ∷ (args ++ sig_bytes)

-- A step that succeeds.
write-succeeds :
    (fails : Bool) (o : Option Bytes) (conn : NetConn) (next : NetConn → NetConn × Bool)
    (end : NetConn)
    → write_step fails o conn next ≡ (end, false)
    → (b : Bytes) × (o ≡ some b) × (next (write b conn) ≡ (end, false))
write-succeeds fails none conn next end h = absurd cc
write-succeeds true (some b) conn next end h = absurd cc
write-succeeds false (some b) conn next end h = (b, refl, h)

flush-succeeds :
    (fails : Bool) (conn end : NetConn) → flush_step fails conn ≡ (end, false) → flush conn ≡ end
flush-succeeds true conn end h = absurd cc
flush-succeeds false conn end h = cc

assembled :
    (buffer b args sig : Bytes) (t : ℕ)
    → buffer ≡ []
    → b ≡ t ∷ []
    → buffer ++ b ++ args ++ sig ≡ t ∷ (args ++ sig)
assembled buffer b args sig t empty one = rw (empty, one)

pub sent-IsFrame :
    (c : Codec) (faults : Faults) (conn end : NetConn) (ty : MsgType) (msg : Message) (sig : Bytes)
    → conn.buffer ≡ []
    → send_rpc c faults conn ty msg sig ≡ (end, false)
    → (frame : Bytes) × IsFrame c ty msg sig frame
      × (end.wire ≡ conn.wire ++ frame)
      × (end.buffer ≡ [])
unfolding send_rpc
sent-IsFrame c faults conn end ty msg sig empty h =
    let (b, b_eq, typed) =
      write-succeeds faults.at_type (some (byte_of ty ∷ [])) conn (send_args c faults msg sig) end
        h in
    let (args, args_eq, filled) =
      write-succeeds faults.at_args (c.encode_args msg) (write b conn) (send_sig c faults sig) end
        typed in
    let (sig_bytes, sig_eq, signed) =
      write-succeeds faults.at_sig (c.encode_bytes sig) (write args (write b conn))
        (flush_step faults.at_flush) end filled in
    let same : flush (write sig_bytes (write args (write b conn))) ≡ end =
      flush-succeeds faults.at_flush _ end signed in
    (
      byte_of ty ∷ (args ++ sig_bytes),
      record {
        args = args;
        sig_bytes = sig_bytes;
        args_eq = args_eq;
        sig_eq = sig_eq;
        frame_eq = refl;
      },
      sym (ap (λ (x : NetConn). x.wire) same)
          ∙ ap (λ x. conn.wire ++ x)
              (assembled conn.buffer b args sig_bytes (byte_of ty) empty (cc)),
      ap (λ (x : NetConn). x.buffer) (sym same),
    )

write_step-closed :
    (fails : Bool) (o : Option Bytes) (conn : NetConn) (next : NetConn → NetConn × Bool)
    → ((b : Bytes) → (next (write b conn)).0.is_closed ≡ (next (write b conn)).1)
    → (write_step fails o conn next).0.is_closed ≡ (write_step fails o conn next).1
write_step-closed fails none conn next h = refl
write_step-closed true (some b) conn next h = refl
write_step-closed false (some b) conn next h = h b

flush_step-closed :
    (fails : Bool) (conn : NetConn)
    → conn.is_closed ≡ false
    → (flush_step fails conn).0.is_closed ≡ (flush_step fails conn).1
flush_step-closed true conn h = refl
flush_step-closed false conn h = h

-- Whichever write of a transmission fails, the connection is released; and a transmission without an error leaves
-- an open connection open.
pub send_rpc-closed :
    (c : Codec) (faults : Faults) (conn : NetConn) (ty : MsgType) (msg : Message) (sig : Bytes)
    → conn.is_closed ≡ false
    → (send_rpc c faults conn ty msg sig).0.is_closed ≡ (send_rpc c faults conn ty msg sig).1
unfolding send_rpc
send_rpc-closed c faults conn ty msg sig open_conn =
    write_step-closed faults.at_type (some (byte_of ty ∷ [])) conn (send_args c faults msg sig) λ b.
      write_step-closed faults.at_args (c.encode_args msg) (write b conn) (send_sig c faults sig)
        λ args.
          write_step-closed faults.at_sig (c.encode_bytes sig) (write args (write b conn))
            (flush_step faults.at_flush)
            λ s. flush_step-closed faults.at_flush (write s (write args (write b conn))) open_conn
