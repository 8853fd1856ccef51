-- ===== src/Client.antt =====
-- client/main.go: the client that sends requests. Dialling and calling a node over net/rpc are parameters.
pub mod Follows
use trebiz.Prelude.{
  ℕ, zero, suc, ◌+◌, [], ◌∷◌, ◌++◌, Option, none, some, Bool, ltb, ◌==◌, ◌&&◌, length, drop,
  if◌then◌else◌,
}
use trebiz.Messages.{Bytes}
use trebiz.Text.{itoa}

pub record Cmd : Type 0 where
  pub rpc_address : Bytes
  pub rpc_port : ℕ
  pub req_text : Bytes

abbrev plus_one : Option ℕ → Option ℕ
plus_one none = none
plus_one (some i) = some (suc i)

-- `strings.Index(reply, "is")`, `none` being -1.
unfoldable pub index_is : Bytes → Option ℕ
index_is [] = none
index_is (b ∷ []) = none
index_is (b ∷ c ∷ rest) =
    let later = index_is (c ∷ rest) in if b == b'i' && c == b's' then some 0 else plus_one later

-- `index + 3`.
abbrev pub after_is : Option ℕ → ℕ
after_is none = 2
after_is (some i) = i + 3

-- `reply[index+3:]`, which panics where the reply is too short.
unfoldable pub address_in : Bytes → Option Bytes
unfolding index_is
address_in reply =
    let from = after_is (index_is reply) in
    if ltb (length reply) from then none else some (drop from reply)

-- How a request ends: without a connection, with the address for the next one, or with a panic.
pub data Sending : Type 0 where
  not_connected : Sending
  answered : Cmd → Sending
  panicked : Sending

abbrev answer : Cmd → Option Bytes → Sending
answer cmd none = panicked
answer cmd (some addr) = answered (record cmd { rpc_address = addr })

module _ (dials : Bytes → Bool) (call : Bytes → Bytes → Option Bytes) where
  abbrev pub target : Cmd → Bytes
  target cmd = cmd.rpc_address ++ b':' ∷ itoa cmd.rpc_port

  unfoldable pub send_request : Cmd → Sending
  unfolding address_in
  send_request cmd =
      if dials (target cmd)
      then elim (call (target cmd) cmd.req_text) [
        | none ↦ panicked
        | some reply ↦ answer cmd (address_in reply)
      ]
      else not_connected

  abbrev after_sending : Cmd → Sending → Option Cmd
  after_sending cmd not_connected = some cmd
  after_sending cmd (answered next) = some next
  after_sending cmd panicked = none

  -- The action of `sendrequest` with a number of requests; `none` is a panic.
  unfoldable pub send_requests : ℕ → Cmd → Option Cmd
  unfolding send_request
  send_requests zero cmd = some cmd
  send_requests (suc n) cmd = elim (after_sending cmd (send_request cmd)) [
    | none ↦ none
    | some next ↦ send_requests n next
  ]
