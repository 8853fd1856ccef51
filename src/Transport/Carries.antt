-- ===== src/Transport/Carries.antt =====
-- What is sent over a connection is what is received.
use trebiz.Prelude.{
  ℕ, zero, suc, ◌<◌, ◌≡◌, ◌∙◌, ap, sym, List, [], ◌∷◌, ◌++◌, some, true, false, length, arith,
}
use mathlib.Core.List.{append_assoc, append-nil}
use trebiz.Messages.{Bytes, MsgType}
use trebiz.Transport.{Codec, IsCodec, byte_of, type_of, type_of_byte-byte_of, MsgWithSig}
use trebiz.Transport.Send.{NetConn, Faults, send_rpc, dial_conn}
use trebiz.Transport.Frames.{IsFrame, sent-IsFrame}
use trebiz.Transport.Receive.{
  dispatched, CommandError, dispatch, decode_command, typed_command, handle_command, command_failed,
  Turns, received, handle_conn,
}

-- Messages that were sent one after the other over a connection without an error, each under its type.
pub data IsSent (c : Codec) : NetConn → List MsgWithSig → NetConn → Type 0 where
  nothing : (conn : NetConn) → IsSent c conn [] conn
  sends :
      (conn mid end : NetConn) (faults : Faults) (ty : MsgType) (rpc : MsgWithSig)
      (rest : List MsgWithSig)
      → type_of rpc.command ≡ some ty
      → send_rpc c faults conn ty rpc.command rpc.sig ≡ (mid, false)
      → IsSent c mid rest end
      → IsSent c conn (rpc ∷ rest) end

-- The receiver goes on: it is not cancelled, the transport not shut down, and the flush does not fail.
pub record IsUndisturbed (net : Turns) : Type 0 where
  pub goes_on : (k : ℕ) → net.is_cancelled k ≡ false
  pub consumes : (k : ℕ) → net.is_consumed k ≡ true
  pub flushes : (k : ℕ) → net.is_flushed k ≡ true

module _ (c : Codec) (ok : IsCodec c) where
  receive_frame :
      (ty : MsgType) (rpc : MsgWithSig) (frame rest : Bytes)
      → type_of rpc.command ≡ some ty
      → IsFrame c ty rpc.command rpc.sig frame
      → handle_command c true (frame ++ rest) ≡ dispatched rpc rest
  unfolding handle_command
  receive_frame ty rpc frame rest typed f =
      let stream = append_assoc f.args f.sig_bytes rest in
      ap (λ x. handle_command c true (x ++ rest)) f.frame_eq
      ∙ ap (λ o. typed_command c true o (byte_of ty) (f.args ++ f.sig_bytes ++ rest))
          (type_of_byte-byte_of ty)
      ∙ ap (λ x. decode_command c true (c.decode_args ty x)) stream
      ∙ ap (decode_command c true)
          (ok.args_back rpc.command ty f.args (f.sig_bytes ++ rest) typed f.args_eq)
      ∙ ap (dispatch true rpc.command) (ok.bytes_back rpc.sig f.sig_bytes rest f.sig_eq)

  module _ (net : Turns) (calm : IsUndisturbed net) where
    one_turn :
        (turn : ℕ) (rpc : MsgWithSig) (stream rest : Bytes)
        → handle_command c true stream ≡ dispatched rpc rest
        → handle_conn c net (suc turn) stream ≡ received rpc (handle_conn c net turn rest)
    unfolding handle_conn
    one_turn turn rpc stream rest h =
        rw (calm.goes_on turn, calm.consumes turn, h, calm.flushes turn)

    at_end :
        (turns : ℕ) → 0 < turns → handle_conn c net turns [] ≡ ([], command_failed CommandError.eof)
    unfolding handle_conn handle_command
    at_end zero h = absurd (omega arith)
    at_end (suc turn) h = rw (calm.goes_on turn)

    -- What a receiver makes of some bytes.
    Brings : List MsgWithSig → Bytes → Type 0
    Brings rpcs bs =
        (turns : ℕ)
        → length rpcs < turns
        → handle_conn c net turns bs ≡ (rpcs, command_failed CommandError.eof)

    next-Brings :
        (ty : MsgType) (rpc : MsgWithSig) (rest : List MsgWithSig) (frame bs : Bytes)
        → type_of rpc.command ≡ some ty
        → IsFrame c ty rpc.command rpc.sig frame
        → Brings rest bs
        → Brings (rpc ∷ rest) (frame ++ bs)
    unfolding Brings
    next-Brings ty rpc rest frame bs typed f later zero h = absurd (omega arith)
    next-Brings ty rpc rest frame bs typed f later (suc turn) h =
        one_turn turn rpc (frame ++ bs) bs (receive_frame ty rpc frame bs typed f)
        ∙ ap (received rpc) (later turn (omega arith))

    brought :
        (conn end : NetConn) (rpcs : List MsgWithSig)
        → conn.buffer ≡ []
        → IsSent c conn rpcs end
        → (bs : Bytes) × (end.wire ≡ conn.wire ++ bs) × Brings rpcs bs
    unfolding Brings
    brought conn end rpcs empty (nothing conn') =
        ([], sym (append-nil _), λ turns h. at_end turns h)
    brought conn end rpcs empty (sends conn' mid end' faults ty rpc rest typed sent later) =
        let (frame, f, wire, empty') =
          sent-IsFrame c faults conn mid ty rpc.command rpc.sig empty sent in
        let (bs, wire', brings) = brought mid end rest empty' later in
        (
          frame ++ bs,
          wire' ∙ ap (λ x. x ++ bs) wire ∙ append_assoc conn'.wire frame bs,
          next-Brings ty rpc rest frame bs typed f brings,
        )

-- The messages that are sent over a new connection, each under its type and without an error, are what the other
-- side hands to its main loop: the same messages with the same signatures in the same order, and then the end of
-- the stream. The receiver is not disturbed, and it takes one turn for each message and one for the end.
pub sent-received :
    (c : Codec) (ok : IsCodec c) (net : Turns) (calm : IsUndisturbed net) (target : Bytes)
    (conn end : NetConn) (rpcs : List MsgWithSig) (turns : ℕ)
    → dial_conn false target ≡ some conn
    → IsSent c conn rpcs end
    → length rpcs < turns
    → handle_conn c net turns end.wire ≡ (rpcs, command_failed CommandError.eof)
unfolding dial_conn Brings
sent-received c ok net calm target conn end rpcs turns dialled sent enough =
    let new : record { target = target; buffer = []; wire = []; is_closed = false } ≡ conn = cc in
    let (bs, wire, brings) =
      brought c ok net calm conn end rpcs (ap (λ (x : NetConn). x.buffer) (sym new)) sent in
    ap (handle_conn c net turns) (wire ∙ ap (λ (x : NetConn). x.wire ++ bs) (sym new))
    ∙ brings turns enough
