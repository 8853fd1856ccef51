-- ===== src/Transport/Delays.antt =====
-- How long the listener waits, and that a transport closes once.
use trebiz.Prelude.{
  ℕ, zero, suc, ◌*◌, ◌^◌, ◌≤◌, ◌≡◌, refl, List, [], ◌∷◌, some, true, false, min, arith,
}
use trebiz.Transport.Listen.{
  next_delay, Accept, accepted, refused, Listening, serves, waits, returns, listen,
  NetworkTransport, new_network_transport, close, close_times,
}

-- The pause after a number of failures in a row.
abbrev pub delay_after : ℕ → ℕ
delay_after zero = 0
delay_after (suc k) = min 1000 (5 * 2 ^ k)

-- What a listener does that has failed a number of times in a row.
abbrev pub expected : ℕ → List Accept → List Listening
expected fails [] = []
expected fails (accepted ∷ rest) = serves ∷ expected 0 rest
expected fails (refused true ∷ rest) = returns ∷ []
expected fails (refused false ∷ rest) = waits (delay_after (suc fails)) ∷ expected (suc fails) rest

power-positive : (k : ℕ) → 1 ≤ 2 ^ k
power-positive zero = omega arith
power-positive (suc k) = omega (arith, power-positive k)

doubled : (d p q : ℕ) → 1 ≤ p → q ≡ 2 * p → d ≡ min 1000 (5 * p) → next_delay d ≡ min 1000 (5 * q)
unfolding next_delay
doubled d p q some_p twice h = ground arith

next_delay-delay_after : (k : ℕ) → next_delay (delay_after k) ≡ delay_after (suc k)
unfolding next_delay
next_delay-delay_after zero = refl
next_delay-delay_after (suc k) = doubled _ (2 ^ k) (2 ^ suc k) (power-positive k) (omega arith) refl

listen-from : (fails : ℕ) (as' : List Accept) → listen (delay_after fails) as' ≡ expected fails as'
unfolding listen
listen-from fails [] = refl
listen-from fails (accepted ∷ rest) = rw (listen-from 0 rest)
listen-from fails (refused true ∷ rest) = refl
listen-from fails (refused false ∷ rest) =
    rw (next_delay-delay_after fails, listen-from (suc fails) rest)

-- The pause of the listener after `k + 1` failures in a row is 5 ms doubled `k` times, and a second at most. A
-- connection that is accepted starts the count again, and after a failure of a transport that is shut down the
-- listener returns.
pub listen-expected : (as' : List Accept) → listen 0 as' ≡ expected 0 as'
listen-expected as' = listen-from 0 as'

abbrev pub closed_transport : NetworkTransport
closed_transport = record { shutdown = true; shutdown_ch = true; closed_streams = 1 }

close-again : (k : ℕ) → close_times k closed_transport ≡ some closed_transport
unfolding close
close-again zero = refl
close-again (suc k) = close-again k

-- However often a new transport is closed, nothing panics, and its channel and its listener are closed once.
pub close_times-once : (k : ℕ) → close_times (suc k) new_network_transport ≡ some closed_transport
unfolding close
close_times-once k = close-again k
