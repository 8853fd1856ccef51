-- ===== src/Timer/Trace.antt =====
-- What the turns of the timer's loop say of when it fires.
use trebiz.Prelude.{
  ◌∙◌, ap, sym, if◌then◌else◌, leb→le, ℕ, suc, ◌+◌, ◌≤◌, ◌≡◌, refl, Option, none, some, Bool, true,
  false, List, [], ◌∷◌, ◌++◌, leb, arith, subst, not, ◌&&◌, map,
}
use trebiz.Timer.{
  TimerStart, TimerImpl, Signal, starts, stops, fires, exits, soft_reset, reset, new_timer_impl,
  started_chan, on_start, on_stop, on_fire, is_due, turn, loop,
}

-- A start among the turns would make the timer due at a time, and since then there were only soft starts.
pub data Since : List (ℕ × Signal) → ℕ → Type 0 where
  started :
      (now : ℕ) (start : TimerStart) (before : List (ℕ × Signal))
      → Since ((now, starts start) ∷ before) (now + start.duration)
  passed_over :
      (now timeout due : ℕ) (before : List (ℕ × Signal))
      → Since before due
      → Since ((now, soft_reset timeout) ∷ before) due

-- A timer that runs after the turns runs until a time that they say.
abbrev Explains : List (ℕ × Signal) → Option ℕ → Type 0
Explains before chan = (due : ℕ) → chan ≡ some due → Since before due

running-Explains :
    (hard : Bool) (now timeout x : ℕ) (before : List (ℕ × Signal))
    → Explains before (some x)
    → Explains
        ((now, starts (record { hard = hard; duration = timeout })) ∷ before)
        (if hard then some (now + timeout) else some x)
running-Explains true now timeout x before old due h =
    subst (Since _) (cc) (started now (record { hard = true; duration = timeout }) before)
running-Explains false now timeout x before old due h =
    passed_over now timeout due before (old due h)

started_chan-Explains :
    (start : TimerStart) (now : ℕ) (chan : Option ℕ) (before : List (ℕ × Signal))
    → Explains before chan
    → Explains ((now, starts start) ∷ before) (started_chan start now chan)
started_chan-Explains start now none before old due h =
    subst (Since _) (cc) (started now start before)
started_chan-Explains start now (some x) before old due h =
    running-Explains start.hard now start.duration x before old due h

taken {ℓ} :
    {A : Type ℓ} (b : Bool) (x y : A)
    → (if b then none else some x) ≡ some y
    → (b ≡ false) × (x ≡ y)
taken true x y h = absurd cc
taken false x y h = (refl, cc)

given {ℓ} :
    {A : Type ℓ} (b : Bool) (x y : A) → (if b then some x else none) ≡ some y → (b ≡ true) × (x ≡ y)
given true x y h = (refl, cc)
given false x y h = absurd cc

idle_after_fire : (ready : Bool) (et : TimerImpl) → (on_fire ready et).timer_chan ≡ none
unfolding on_fire
idle_after_fire true et = refl
idle_after_fire false et = refl

-- The turns explain the state of a loop that has not ended.
abbrev IsExplained : List (ℕ × Signal) → TimerImpl → Type 0
IsExplained before et = et.exited ≡ false → Explains before et.timer_chan

turn-IsExplained :
    (now : ℕ) (s : Signal) (before : List (ℕ × Signal)) (et et' : TimerImpl)
    → turn s now et ≡ some et'
    → IsExplained before et
    → IsExplained ((now, s) ∷ before) et'
unfolding turn on_start on_stop
turn-IsExplained now (starts start) before et et' h old on =
    let (goes_on, same) = taken et.exited _ et' h in
    subst (λ x. Explains ((now, starts start) ∷ before) x.timer_chan) same
      (started_chan-Explains start now et.timer_chan before (old goes_on))
turn-IsExplained now stops before et et' h old on =
    let (goes_on, same) = taken et.exited _ et' h in
    subst (λ x. Explains ((now, stops) ∷ before) x.timer_chan) same (λ due running. absurd cc)
turn-IsExplained now (fires ready) before et et' h old on =
    let (goes_on, same) = given _ (on_fire ready et) et' h in
    subst (λ x. Explains ((now, fires ready) ∷ before) x.timer_chan) same
      (subst (Explains _) (sym (idle_after_fire ready et)) (λ due running. absurd cc))
turn-IsExplained now exits before et et' h old on =
    let (goes_on, same) = taken et.exited _ et' h in
    absurd (subst (λ x. x.exited ≡ false → ⊥) same (λ x. cc) on)

then_turn :
    (o : Option TimerImpl) (s : Signal) (now : ℕ) (et : TimerImpl)
    → elim o as (λ _. Option TimerImpl) [ none ↦ none | some mid ↦ turn s now mid ] ≡ some et
    → (mid : TimerImpl) × (o ≡ some mid) × (turn s now mid ≡ some et)
then_turn none s now et h = absurd cc
then_turn (some mid) s now et h = (mid, refl, h)

loop-IsExplained :
    (before : List (ℕ × Signal)) (et : TimerImpl)
    → loop before new_timer_impl ≡ some et
    → IsExplained before et
unfolding loop
loop-IsExplained [] et h on due running = absurd cc
loop-IsExplained ((now, s) ∷ before) et h on due running =
    let (mid, there, last) = then_turn (loop before new_timer_impl) s now et h in
    turn-IsExplained now s before mid et last (loop-IsExplained before mid there) on due running

due_now :
    (now : ℕ) (chan : Option ℕ)
    → is_due now chan ≡ true
    → (due : ℕ) × (chan ≡ some due) × (due ≤ now)
due_now now none h = absurd cc
due_now now (some due) h = (due, refl, leb→le due now h)

both : (a b : Bool) → (not a && b) ≡ true → (a ≡ false) × (b ≡ true)
both a b h = ground arith

may_fire :
    (ready : Bool) (now : ℕ) (et et' : TimerImpl)
    → turn (fires ready) now et ≡ some et'
    → (et.exited ≡ false) × (is_due now et.timer_chan ≡ true)
unfolding turn
may_fire ready now et et' h = both et.exited _ (given _ (on_fire ready et) et' h).0

-- A timer that fires was started: by a start whose time has passed, and since then the loop has only passed over
-- soft starts, and so has neither stopped the timer, nor let it fire, nor ended.
pub fires-Since :
    (before : List (ℕ × Signal)) (now : ℕ) (ready : Bool) (et : TimerImpl)
    → loop ((now, fires ready) ∷ before) new_timer_impl ≡ some et
    → (due : ℕ) × Since before due × (due ≤ now)
unfolding loop
fires-Since before now ready et h =
    let (mid, there, last) = then_turn (loop before new_timer_impl) (fires ready) now et h in
    let (on, ripe) = may_fire ready now mid et last in
    let (due, running, late) = due_now now mid.timer_chan ripe in
    (due, loop-IsExplained before mid there on due running, late)

-- The turns that start the timer by `reset` and then pass over soft starts.
abbrev pub reset_then : (now timeout : ℕ) → List (ℕ × ℕ) → List (ℕ × Signal) → List (ℕ × Signal)
reset_then now timeout softs before =
    map (λ p. (p.0, soft_reset p.1)) softs ++ (now, reset timeout) ∷ before

Runs : ℕ → TimerImpl → Type 0
Runs due et = (et.exited ≡ false) × (et.timer_chan ≡ some due)

soft-Runs :
    (now timeout due : ℕ) (et et' : TimerImpl)
    → turn (soft_reset timeout) now et ≡ some et'
    → Runs due et
    → Runs due et'
unfolding turn on_start Runs
soft-Runs now timeout due et et' h (on, runs) =
    let start : TimerStart = record { hard = false; duration = timeout } in
    subst (Runs due) (taken et.exited _ et' h).1 (on, ap (started_chan start now) runs)

reset_chan :
    (now timeout : ℕ) (chan : Option ℕ)
    → started_chan (record { hard = true; duration = timeout }) now chan ≡ some (now + timeout)
reset_chan now timeout none = refl
reset_chan now timeout (some x) = refl

reset-Runs :
    (now timeout : ℕ) (et et' : TimerImpl)
    → turn (reset timeout) now et ≡ some et'
    → Runs (now + timeout) et'
unfolding turn on_start Runs
reset-Runs now timeout et et' h =
    let (on, same) = taken et.exited _ et' h in
    subst (Runs (now + timeout)) same (on, reset_chan now timeout et.timer_chan)

reset_then-Runs :
    (now timeout : ℕ) (softs : List (ℕ × ℕ)) (before : List (ℕ × Signal)) (et : TimerImpl)
    → loop (reset_then now timeout softs before) new_timer_impl ≡ some et
    → Runs (now + timeout) et
unfolding loop
reset_then-Runs now timeout [] before et h =
    let (mid, there, last) = then_turn (loop before new_timer_impl) (reset timeout) now et h in
    reset-Runs now timeout mid et last
reset_then-Runs now timeout ((t, d) ∷ softs) before et h =
    let (mid, there, last) =
      then_turn (loop (reset_then now timeout softs before) new_timer_impl) (soft_reset d) t et h in
    soft-Runs t d (now + timeout) mid et last (reset_then-Runs now timeout softs before mid there)

plus_one : (n : ℕ) → suc n ≡ n + 1
plus_one n = omega arith

fire-running :
    (due later : ℕ) (ready : Bool) (et : TimerImpl)
    → et.exited ≡ false
    → et.timer_chan ≡ some due
    → turn (fires ready) later et ≡ (if leb due later then some (on_fire ready et) else none)
unfolding turn
fire-running due later ready et on runs = rw (on, runs)

-- The consumer takes the event if it is ready, and misses it otherwise; the timer is idle.
abbrev pub told : Bool → TimerImpl → TimerImpl
told true et = record et { timer_chan = none; sent = et.sent + 1 }
told false et = record et { timer_chan = none; lost = et.lost + 1 }

on_fire-told : (ready : Bool) (et : TimerImpl) → on_fire ready et ≡ told ready et
unfolding on_fire
on_fire-told true et = ap (λ n. record et { timer_chan = none; sent = n }) (plus_one et.sent)
on_fire-told false et = ap (λ n. record et { timer_chan = none; lost = n }) (plus_one et.lost)

-- A timer that was reset, and since then was only started softly, can fire exactly when the time of the reset has
-- passed: soft starts do not postpone it. It is then idle, and one more event has come to the consumer, if the
-- consumer was ready, or else one more is lost.
pub reset-fires :
    (now timeout : ℕ) (softs : List (ℕ × ℕ)) (before : List (ℕ × Signal)) (et : TimerImpl)
    (ready : Bool) (later : ℕ)
    → loop (reset_then now timeout softs before) new_timer_impl ≡ some et
    → loop ((later, fires ready) ∷ reset_then now timeout softs before) new_timer_impl
      ≡ (if leb (now + timeout) later then some (told ready et) else none)
unfolding loop Runs
reset-fires now timeout softs before et ready later h =
    let runs = reset_then-Runs now timeout softs before et h in
    ap
      (λ o. elim o as (λ _. Option TimerImpl) [
        | none ↦ none
        | some mid ↦ turn (fires ready) later mid
      ])
      h
    ∙ fire-running (now + timeout) later ready et runs.0 runs.1
    ∙ ap (λ x. if leb (now + timeout) later then some x else none) (on_fire-told ready et)
