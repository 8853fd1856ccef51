-- ===== src/Timer.antt =====
-- core/timer_control.go: the goroutine that counts down to a view change. A timer that runs is the time at
-- which it is due, and what the loop does in one turn is given with the time at which it does it.
pub mod Trace
use trebiz.Prelude.{
  ℕ, suc, ◌+◌, Option, none, some, Bool, true, false, List, [], ◌∷◌, leb, if◌then◌else◌, ◌&&◌, not,
}

pub record TimerStart : Type 0 where
  pub hard : Bool
  pub duration : ℕ

-- `timer_chan` is the channel of `time.After`, nil where the timer is idle. `sent` counts the events that the
-- consumer took, and `lost` those that it was not ready for.
pub record TimerImpl : Type 0 where
  pub timer_chan : Option ℕ
  pub exited : Bool
  pub sent : ℕ
  pub lost : ℕ

-- The cases of the loop's `select`. A firing timer finds the consumer ready or not.
pub data Signal : Type 0 where
  starts : TimerStart → Signal
  stops : Signal
  fires : (ready : Bool) → Signal
  exits : Signal

abbrev pub new_timer_impl : TimerImpl
new_timer_impl = record { timer_chan = none; exited = false; sent = 0; lost = 0 }

-- What the owner of a timer sends to the loop.
abbrev pub soft_reset : ℕ → Signal
soft_reset timeout = starts (record { hard = false; duration = timeout })

abbrev pub reset : ℕ → Signal
reset timeout = starts (record { hard = true; duration = timeout })

abbrev pub stop : Signal
stop = stops

-- A start is passed over when the timer runs and the start is not a hard one.
abbrev pub started_chan : TimerStart → ℕ → Option ℕ → Option ℕ
started_chan start now none = some (now + start.duration)
started_chan start now (some due) = if start.hard then some (now + start.duration) else some due

unfoldable pub on_start : TimerStart → ℕ → TimerImpl → TimerImpl
on_start start now et = record et { timer_chan = started_chan start now et.timer_chan }

unfoldable pub on_stop : TimerImpl → TimerImpl
on_stop et = record et { timer_chan = none }

unfoldable pub on_fire : Bool → TimerImpl → TimerImpl
on_fire ready et =
    if ready
    then record et { timer_chan = none; sent = suc et.sent }
    else record et { timer_chan = none; lost = suc et.lost }

abbrev pub is_due : ℕ → Option ℕ → Bool
is_due now none = false
is_due now (some due) = leb due now

-- One turn of the loop, where its `select` can take the case.
unfoldable pub turn : Signal → ℕ → TimerImpl → Option TimerImpl
unfolding on_start on_stop on_fire
turn (starts start) now et = if et.exited then none else some (on_start start now et)
turn stops now et = if et.exited then none else some (on_stop et)
turn (fires ready) now et =
    if not et.exited && is_due now et.timer_chan then some (on_fire ready et) else none
turn exits now et = if et.exited then none else some (record et { exited = true })

-- The turns that the loop has taken, the last one first.
unfoldable pub loop : List (ℕ × Signal) → TimerImpl → Option TimerImpl
unfolding turn
loop [] et = some et
loop ((now, s) ∷ before) et = elim (loop before et) [ none ↦ none | some mid ↦ turn s now mid ]
