-- ===== src/Node/Timers.antt =====
-- The view-change timer as the handlers drive it (core/core.go, `softStartTimer` to `stopTimer`).
use trebiz.Prelude.{ℕ, true, false}
use trebiz.Node.State.{stops_timer, resets_timer, soft_resets_timer}
use trebiz.Node.Monad.{M, ◌>>◌, modify, emit}

unfoldable pub soft_start_timer : ℕ → M (Unit {0})
soft_start_timer timeout = do
  modify λ n. record n { timer_active = true }
  emit (soft_resets_timer timeout)

unfoldable pub start_timer : ℕ → M (Unit {0})
start_timer timeout = do modify λ n. record n { timer_active = true }; emit (resets_timer timeout)

unfoldable pub stop_timer : M (Unit {0})
stop_timer = do modify λ n. record n { timer_active = false }; emit stops_timer
