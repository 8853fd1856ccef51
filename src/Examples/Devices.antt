-- ===== src/Examples/Devices.antt =====
-- The timer, the transport and the client at concrete inputs.
use trebiz.Prelude.{
  lookup, subst, ◌≢◌, ◌++◌, length, false, none, ℕ, ◌≡◌, refl, List, [], ◌∷◌, Option, some, true,
  ◌≤◌, arith,
}
use trebiz.Messages.{Bytes, Message, MsgType, view_change_quorum, view_change_quorum_type}
use trebiz.Transport.{Codec, IsCodec, MsgWithSig, type_of}
use trebiz.Transport.Send.{NetConn, Faults, send_rpc, dial_conn}
use trebiz.Transport.Receive.{CommandError, command_failed, out_of_fuel, Turns, handle_conn}
use trebiz.Transport.Frames.{send_rpc-closed}
use trebiz.Transport.Carries.{IsSent, nothing, sends, sent-received}
use trebiz.Transport.Ends.{handle_conn-ends}
use trebiz.Transport.Listen.{
  new_network_transport, close_times, accepted, refused, serves, waits, returns, listen,
}
use trebiz.Transport.Delays.{listen-expected, close_times-once, closed_transport}
use trebiz.Text.{itoa, itoa_loop}
use trebiz.Config.{new_settings, new_world, node_name}
use trebiz.Node.Monad.{◌>>=◌}
use trebiz.Requests.{receive_new_request, response_from, and_leader}
use trebiz.Client.{Cmd, answered, send_request}
use trebiz.Client.Follows.{send_request-follows}
use trebiz.Examples.Setting.{env, conf}
use trebiz.Timer.{Signal, soft_reset, reset, stop, fires, new_timer_impl, loop, turn}
use trebiz.Timer.Trace.{Since, fires-Since, reset-fires}

-- Stopped, started at 3 for 10, and started softly at 5.
abbrev history : List (ℕ × Signal)
history = (5, soft_reset 20) ∷ (3, reset 10) ∷ (2, stop) ∷ []

fires-Since_example : (due : ℕ) × Since history due × (due ≤ 14)
unfolding loop turn
fires-Since_example = fires-Since history 14 true _ refl

reset-fires_example :
    loop ((13, fires false) ∷ history) new_timer_impl
    ≡ some (record { timer_chan = Option.none; exited = false; sent = 0; lost = 1 })
unfolding loop turn
reset-fires_example = reset-fires 3 10 ((5, 20) ∷ []) ((2, stop) ∷ []) _ false 13 refl

-- A codec that knows one message and signatures of one byte.
abbrev toy_encode_args : Message → Option Bytes
toy_encode_args view_change_quorum = some []
toy_encode_args _ = none

abbrev toy_decode_args : MsgType → Bytes → Option (Message × Bytes)
toy_decode_args view_change_quorum_type stream = some (view_change_quorum, stream)
toy_decode_args _ stream = none

abbrev toy_encode_bytes : Bytes → Option Bytes
toy_encode_bytes (b ∷ []) = some (b ∷ [])
toy_encode_bytes _ = none

abbrev toy_decode_bytes : Bytes → Option (Bytes × Bytes)
toy_decode_bytes [] = none
toy_decode_bytes (b ∷ rest) = some (b ∷ [], rest)

abbrev toy_codec : Codec
toy_codec = record {
  encode_args = toy_encode_args;
  encode_bytes = toy_encode_bytes;
  decode_args = toy_decode_args;
  decode_bytes = toy_decode_bytes;
}

toy_args_back :
    (msg : Message) (ty : MsgType) (b rest : Bytes)
    → type_of msg ≡ some ty
    → toy_encode_args msg ≡ some b
    → toy_decode_args ty (b ++ rest) ≡ some (msg, rest)
toy_args_back view_change_quorum ty b rest typed h =
    let same_ty : view_change_quorum_type ≡ ty = cc in
    let same_b : [] ≡ b = cc in
    subst (λ x. toy_decode_args x (b ++ rest) ≡ some (view_change_quorum, rest)) same_ty
      (subst
        (λ x. toy_decode_args view_change_quorum_type (x ++ rest) ≡ some (view_change_quorum, rest))
        same_b refl)
toy_args_back _ ty b rest typed h = absurd cc

toy_bytes_back :
    (sig b rest : Bytes)
    → toy_encode_bytes sig ≡ some b
    → toy_decode_bytes (b ++ rest) ≡ some (sig, rest)
toy_bytes_back (x ∷ []) b rest h =
    let same : x ∷ [] ≡ b = cc in
    subst (λ y. toy_decode_bytes (y ++ rest) ≡ some (x ∷ [], rest)) same refl
toy_bytes_back [] b rest h = absurd cc
toy_bytes_back (x ∷ y ∷ more) b rest h = absurd cc

toy_args_left :
    (ty : MsgType) (stream rest : Bytes) (msg : Message)
    → toy_decode_args ty stream ≡ some (msg, rest)
    → length rest ≤ length stream
toy_args_left view_change_quorum_type stream rest msg h =
    let same : stream ≡ rest = cc in subst (λ x. length x ≤ length stream) same (omega arith)
toy_args_left _ stream rest msg h = absurd cc

toy_bytes_left :
    (stream rest sig : Bytes)
    → toy_decode_bytes stream ≡ some (sig, rest)
    → length rest ≤ length stream
toy_bytes_left [] rest sig h = absurd cc
toy_bytes_left (b ∷ stream) rest sig h =
    let same : stream ≡ rest = cc in subst (λ x. length x ≤ length (b ∷ stream)) same (omega arith)

toy-IsCodec : IsCodec toy_codec
toy-IsCodec = record {
  args_back = toy_args_back;
  bytes_back = toy_bytes_back;
  args_left = toy_args_left;
  bytes_left = toy_bytes_left;
}

abbrev calm_net : Turns
calm_net = record { is_cancelled = λ k. false; is_consumed = λ k. true; is_flushed = λ k. true }

abbrev no_faults : Faults
no_faults = record { at_type = false; at_args = false; at_sig = false; at_flush = false }

abbrev new_conn : NetConn
new_conn = record { target = []; buffer = []; wire = []; is_closed = false }

-- Two messages with the signatures 7 and 9.
abbrev two_rpcs : List MsgWithSig
two_rpcs =
    record { command = view_change_quorum; sig = 7 ∷ [] }
    ∷ record { command = view_change_quorum; sig = 9 ∷ [] }
    ∷ []

abbrev conn_with : Bytes → NetConn
conn_with bytes = record { target = []; buffer = []; wire = bytes; is_closed = false }

two-IsSent : IsSent toy_codec new_conn two_rpcs (conn_with (8 ∷ 7 ∷ 8 ∷ 9 ∷ []))
unfolding send_rpc
two-IsSent =
    sends new_conn (conn_with (8 ∷ 7 ∷ [])) _ no_faults view_change_quorum_type _ _ refl refl (
      sends (conn_with (8 ∷ 7 ∷ [])) (conn_with (8 ∷ 7 ∷ 8 ∷ 9 ∷ [])) _ no_faults
        view_change_quorum_type _ _ refl refl (nothing _))

sent-received_example :
    handle_conn toy_codec calm_net 3 (8 ∷ 7 ∷ 8 ∷ 9 ∷ [])
    ≡ (two_rpcs, command_failed CommandError.eof)
unfolding dial_conn
sent-received_example =
    sent-received toy_codec toy-IsCodec calm_net
      (record { goes_on = λ k. refl; consumes = λ k. refl; flushes = λ k. refl }) [] new_conn
      (conn_with (8 ∷ 7 ∷ 8 ∷ 9 ∷ [])) two_rpcs 3 refl two-IsSent (omega arith)

handle_conn-ends_example : (handle_conn toy_codec calm_net 4 (8 ∷ 7 ∷ 11 ∷ [])).1 ≢ out_of_fuel
handle_conn-ends_example =
    handle_conn-ends toy_codec toy-IsCodec calm_net 4 (8 ∷ 7 ∷ 11 ∷ []) (omega arith)

send_rpc-closed_example :
    (send_rpc toy_codec no_faults new_conn view_change_quorum_type view_change_quorum
      []).0.is_closed
    ≡ true
unfolding send_rpc
send_rpc-closed_example =
    send_rpc-closed toy_codec no_faults new_conn view_change_quorum_type view_change_quorum [] refl

listen-expected_example :
    listen 0 (refused false ∷ refused false ∷ accepted ∷ refused false ∷ refused true ∷ [])
    ≡ waits 5 ∷ waits 10 ∷ serves ∷ waits 5 ∷ returns ∷ []
listen-expected_example =
    listen-expected (refused false ∷ refused false ∷ accepted ∷ refused false ∷ refused true ∷ [])

close_times-once_example : close_times 3 new_network_transport ≡ some closed_transport
close_times-once_example = close_times-once 2

abbrev command : Cmd
command = record { rpc_address = b'x' ∷ []; rpc_port = 9; req_text = 5 ∷ [] }

abbrev the_reply : Bytes
the_reply = response_from ++ (b'N' ∷ b'o' ∷ b'd' ∷ b'e' ∷ b'1' ∷ []) ++ and_leader ++ b'0' ∷ []

send_request-follows_example :
    send_request (λ addr. true) (λ addr req. some the_reply) command
    ≡ answered (record command { rpc_address = b'0' ∷ [] })
unfolding env new_settings new_world receive_new_request ◌>>=◌ itoa itoa_loop node_name lookup
send_request-follows_example =
    send_request-follows env conf (new_world conf) _ (λ addr. true) command the_reply refl refl refl
