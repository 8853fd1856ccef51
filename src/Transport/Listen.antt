-- ===== src/Transport/Listen.antt =====
-- `listen`, `Close` and `IsShutdown`. Delays are in milliseconds.
use trebiz.Prelude.{
  ℕ, zero, suc, not, ◌*◌, List, [], ◌∷◌, Option, none, some, Bool, true, false, ◌==◌, ltb,
  if◌then◌else◌,
}

abbrev pub base_delay : ℕ
base_delay = 5

abbrev pub max_delay : ℕ
max_delay = 1000

-- The pause after a failed `Accept`, from the pause before.
unfoldable pub next_delay : ℕ → ℕ
next_delay loop_delay =
    let grown = if loop_delay == 0 then base_delay else loop_delay * 2 in
    if ltb max_delay grown then max_delay else grown

-- How `Accept` ends: a connection, or an error, after which the transport is found shut down or the pause passes.
pub data Accept : Type 0 where
  accepted : Accept
  refused : (is_shutdown : Bool) → Accept

-- What the listener does: it starts the handler of a connection, waits, or returns.
pub data Listening : Type 0 where
  serves : Listening
  waits : ℕ → Listening
  returns : Listening

unfoldable pub listen : ℕ → List Accept → List Listening
unfolding next_delay
listen loop_delay [] = []
listen loop_delay (accepted ∷ rest) = serves ∷ listen 0 rest
listen loop_delay (refused true ∷ rest) = returns ∷ []
listen loop_delay (refused false ∷ rest) =
    waits (next_delay loop_delay) ∷ listen (next_delay loop_delay) rest

-- `closed_channels` counts how often `shutdownCh` was closed, and `closed_streams` the listener.
pub record NetworkTransport : Type 0 where
  pub shutdown : Bool
  pub shutdown_ch : Bool
  pub closed_streams : ℕ

abbrev pub new_network_transport : NetworkTransport
new_network_transport = record { shutdown = false; shutdown_ch = false; closed_streams = 0 }

-- Closing a closed channel panics, which `none` stands for.
abbrev close_channel : Bool → Option Bool
close_channel true = none
close_channel false = some true

abbrev after_closing : NetworkTransport → Option Bool → Option NetworkTransport
after_closing n none = none
after_closing n (some ch) =
    some (record n { shutdown = true; shutdown_ch = ch; closed_streams = suc n.closed_streams })

unfoldable pub close : NetworkTransport → Option NetworkTransport
close n = if not n.shutdown then after_closing n (close_channel n.shutdown_ch) else some n

unfoldable pub is_shutdown : NetworkTransport → Bool
is_shutdown n = n.shutdown_ch

abbrev pub close_times : ℕ → NetworkTransport → Option NetworkTransport
close_times zero n = some n
close_times (suc k) n = elim (close n) [ none ↦ none | some closed ↦ close_times k closed ]
