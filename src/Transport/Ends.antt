-- ===== src/Transport/Ends.antt =====
-- The handler of a connection ends.
use trebiz.Prelude.{
  ℕ, zero, suc, ◌≤◌, ◌<◌, ◌≡◌, ◌≢◌, refl, List, [], ◌∷◌, Option, none, some, Bool, true, false,
  length, arith, if◌then◌else◌,
}
use trebiz.Messages.{Bytes, Message, MsgType}
use trebiz.Transport.{Codec, IsCodec, type_of_byte, MsgWithSig}
use trebiz.Transport.Receive.{
  Command, dispatched, failed, CommandError, dispatch, decode_command, typed_command,
  handle_command, ConnEnd, cancelled, out_of_fuel, command_failed, Turns, flush_then, received,
  handle_conn,
}

shorter : (a b n : ℕ) → a ≤ b → b ≤ n → a ≤ n
shorter a b n h k = omega arith

-- A command that is dispatched leaves no more than a number of bytes.
abbrev Leaves : ℕ → Command → Type 0
Leaves n (failed e) = Unit
Leaves n (dispatched rpc rest) = length rest ≤ n

dispatched_or_not :
    (consumed : Bool) (msg : Message) (sig rest : Bytes) (n : ℕ)
    → length rest ≤ n
    → Leaves n (dispatch consumed msg (some (sig, rest)))
dispatched_or_not true msg sig rest n h = h
dispatched_or_not false msg sig rest n h = tt

module _ (c : Codec) (ok : IsCodec c) (consumed : Bool) where
  dispatch-Leaves :
      (msg : Message) (n : ℕ) (o : Option (Bytes × Bytes))
      → ((sig rest : Bytes) → o ≡ some (sig, rest) → length rest ≤ n)
      → Leaves n (dispatch consumed msg o)
  dispatch-Leaves msg n none h = tt
  dispatch-Leaves msg n (some (sig, rest)) h =
      dispatched_or_not consumed msg sig rest n (h sig rest refl)

  decode_command-Leaves :
      (n : ℕ) (o : Option (Message × Bytes))
      → ((msg : Message) (rest : Bytes) → o ≡ some (msg, rest) → length rest ≤ n)
      → Leaves n (decode_command c consumed o)
  decode_command-Leaves n none h = tt
  decode_command-Leaves n (some (msg, rest)) h =
      dispatch-Leaves msg n (c.decode_bytes rest) λ sig rest' found.
        shorter (length rest') (length rest) n (ok.bytes_left rest rest' sig found)
          (h msg rest refl)

  typed_command-Leaves :
      (ty : Option MsgType) (b : ℕ) (rest : Bytes)
      → Leaves (length rest) (typed_command c consumed ty b rest)
  typed_command-Leaves none b rest = tt
  typed_command-Leaves (some ty) b rest =
      decode_command-Leaves (length rest) (c.decode_args ty rest)
        λ msg rest' found. ok.args_left ty rest rest' msg found

module _ where
  not_starved :
      (b : Bool) (x : List MsgWithSig × ConnEnd)
      → x.1 ≢ out_of_fuel
      → (flush_then b x).1 ≢ out_of_fuel
  not_starved true x h = h
  not_starved false x h = λ e. absurd cc

  -- One turn, given what its command leaves.
  turn-ends :
      (stopped : Bool) (cmd : Command) (flushed : Bool) (later : Bytes → List MsgWithSig × ConnEnd)
      (n : ℕ)
      → Leaves n cmd
      → ((rest : Bytes) → length rest ≤ n → (later rest).1 ≢ out_of_fuel)
      → (if stopped then ([], cancelled) else elim cmd as (λ _. List MsgWithSig × ConnEnd) [
        | failed e ↦ ([], command_failed e)
        | dispatched rpc rest ↦ received rpc (flush_then flushed (later rest))
      ]).1
        ≢ out_of_fuel
  turn-ends true cmd flushed later n h k = λ e. absurd cc
  turn-ends false (failed e) flushed later n h k = λ e. absurd cc
  turn-ends false (dispatched rpc rest) flushed later n h k =
      not_starved flushed (later rest) (k rest h)

at_end :
    (stopped : Bool)
    → let end : List MsgWithSig × ConnEnd =
        if stopped then ([], cancelled) else ([], command_failed CommandError.eof) in
      end.1 ≢ out_of_fuel
at_end true = λ e. absurd cc
at_end false = λ e. absurd cc

-- The handler of a connection ends: by an error, by its context, or by the end of the stream. It takes no more
-- turns than the stream has bytes and one more, if decoding does not lengthen the stream.
pub handle_conn-ends :
    (c : Codec) (ok : IsCodec c) (net : Turns) (turns : ℕ) (stream : Bytes)
    → length stream < turns
    → (handle_conn c net turns stream).1 ≢ out_of_fuel
unfolding handle_conn handle_command
handle_conn-ends c ok net zero stream h = absurd (omega arith)
handle_conn-ends c ok net (suc n) [] h = at_end (net.is_cancelled n)
handle_conn-ends c ok net (suc n) (b ∷ stream) h =
    turn-ends (net.is_cancelled n) (typed_command c (net.is_consumed n) (type_of_byte b) b stream)
      (net.is_flushed n) (handle_conn c net n) (length stream)
      (typed_command-Leaves c ok (net.is_consumed n) (type_of_byte b) b stream)
      λ rest le. handle_conn-ends c ok net n rest (omega arith)
