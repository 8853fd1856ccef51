-- ===== src/Node/Monad.antt =====
-- Handlers as state passing: a handler ends, or stops the goroutine that runs it.
use trebiz.Prelude.{ℕ, suc, ◌∷◌, Option, none, some, leb, if◌then◌else◌}
use trebiz.Node.State.{Node, Effect, World}

-- A panic, a channel operation that waits for ever, or no fuel left for a loop.
pub data Stop : Type 0 where
  panicked blocked starved : Stop

pub data Outcome {ℓ} (A : Type ℓ) : Type ℓ where
  done : A → World → Outcome A
  halted : Stop → World → Outcome A

abbrev pub M {ℓ} : Type ℓ → Type ℓ
M A = World → Outcome A

unfoldable pub pure {ℓ} : {A : Type ℓ} → A → M A
pure a w = done a w

unfoldable pub skip : M (Unit {0})
skip w = done tt w

unfoldable pub halt {ℓ} : {A : Type ℓ} → Stop → M A
halt s w = halted s w

unfoldable pub read_node : M Node
read_node w = done w.node w

unfoldable pub modify : (Node → Node) → M (Unit {0})
modify f w = done tt (record w { node = f w.node })

unfoldable pub emit : Effect → M (Unit {0})
emit x w = done tt (record w { out = x ∷ w.out })

-- Asks the outside.
unfoldable pub ask {ℓ} : {A : Type ℓ} → (ℕ → A) → M A
ask q w = done (q w.questions) (record w { questions = suc w.questions })

-- A read through a pointer that may be nil.
unfoldable pub deref {ℓ} : {A : Type ℓ} → Option A → M A
deref none w = halted Stop.panicked w
deref (some a) w = done a w

-- The error channel that a handler is given: `main` makes one with room for one error and never
-- receives from it, and some calls pass nil.
pub data ErrChan : Type 0 where
  nil_chan err_chan : ErrChan

-- `err <- e`.
unfoldable pub send_err : ErrChan → M (Unit {0})
send_err nil_chan w = halted Stop.blocked w
send_err err_chan w =
    if leb 1 w.errs then halted Stop.blocked w else done tt (record w { errs = suc w.errs })

abbrev pub and_then {ℓ κ} : {A : Type ℓ} {B : Type κ} → Outcome A → (A → M B) → Outcome B
and_then (done a w) f = f a w
and_then (halted s w) f = halted s w

-- To open `>>=` is to open the actions above.
infixl 5 ◌>>=◌ ◌>>◌
unfoldable pub ◌>>=◌ {ℓ κ} : {A : Type ℓ} {B : Type κ} → M A → (A → M B) → M B
unfolding pure skip halt read_node modify emit ask deref send_err
◌>>=◌ m f w = and_then (m w) f

abbrev pub ◌>>◌ {ℓ} : {B : Type ℓ} → M (Unit {0}) → M B → M B
m >> k = m >>= λ _. k

-- The world when a handler ends or stops.
abbrev pub after {ℓ} : {A : Type ℓ} → Outcome A → World
after (done _ w) = w
after (halted _ w) = w
