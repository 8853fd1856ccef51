-- ===== src/Protocol/Keeps.antt =====
-- Rules for "a handler keeps a property of the abstract state", whether it ends or stops.
use trebiz.Prelude.{ℕ, ◌∷◌, arith, ◌≡◌, refl, Bool, true, false, Option, none, some, if◌then◌else◌}
use trebiz.Node.State.{Node, Effect, World}
use trebiz.Node.Monad.{
  M, and_then, Outcome, done, halted, Stop, ErrChan, nil_chan, err_chan, ◌>>=◌, pure, skip, halt,
  read_node, modify, emit, ask, deref, send_err, after,
}
use trebiz.Protocol.Spec.{Core, core}

pub record Keeps {ℓ} {A : Type ℓ} (Q : Core → Type 0) (m : M A) : Type ℓ where
  pub at : (w : World) → Q (core w) → Q (core (after (m w)))

module _ {Q : Core → Type 0} where
  pub Keeps-skip : Keeps Q skip
  unfolding skip
  Keeps-skip = record { at = λ w h. h }

  pub Keeps-read_node : Keeps Q read_node
  unfolding read_node
  Keeps-read_node = record { at = λ w h. h }

  pub Keeps-send_err : (err : ErrChan) → Keeps Q (send_err err)
  unfolding send_err
  Keeps-send_err nil_chan = record { at = λ w h. h }
  Keeps-send_err err_chan = record { at = λ w h. ground arith }

  -- An assignment that the abstract state does not show, or shows as `Q` allows.
  pub Keeps-modify :
      (f : Node → Node)
      → ((w : World) → Q (core w) → Q (core (record w { node = f w.node })))
      → Keeps Q (modify f)
  unfolding modify
  Keeps-modify f h = record { at = h }

  pub Keeps-emit :
      (x : Effect)
      → ((w : World) → Q (core w) → Q (core (record w { out = x ∷ w.out })))
      → Keeps Q (emit x)
  unfolding emit
  Keeps-emit x h = record { at = h }

module _ {ℓ} {A : Type ℓ} {Q : Core → Type 0} where
  pub Keeps-pure : (a : A) → Keeps Q (pure a)
  unfolding pure
  Keeps-pure a = record { at = λ w h. h }

  pub Keeps-halt : (s : Stop) → Keeps Q (halt {A = A} s)
  unfolding halt
  Keeps-halt s = record { at = λ w h. h }

  pub Keeps-ask : (q : ℕ → A) → Keeps Q (ask q)
  unfolding ask
  Keeps-ask q = record { at = λ w h. h }

  pub Keeps-deref : (o : Option A) → Keeps Q (deref o)
  unfolding deref
  Keeps-deref none = record { at = λ w h. h }
  Keeps-deref (some a) = record { at = λ w h. h }

  pub Keeps-if :
      (b : Bool) (m n : M A)
      → (b ≡ true → Keeps Q m)
      → (b ≡ false → Keeps Q n)
      → Keeps Q (if b then m else n)
  Keeps-if true m n km kn = km refl
  Keeps-if false m n km kn = kn refl

module _ {ℓ} {A : Type ℓ} (Q : Core → Type 0) where
  -- A test at a world, whose outcome the branches may use.
  pub if_at :
      (b : Bool) (m n : M A) (w : World)
      → (b ≡ true → Q (core (after (m w))))
      → (b ≡ false → Q (core (after (n w))))
      → Q (core (after ((if b then m else n) w)))
  if_at true m n w hm hn = hm refl
  if_at false m n w hm hn = hn refl

module _ (Q : Core → Type 0) where
  -- A test that may do nothing.
  pub if_skip_at :
      (b : Bool) (m : M (Unit {0})) (w : World)
      → Q (core w)
      → (b ≡ true → Q (core (after (m w))))
      → Q (core (after ((if b then m else skip) w)))
  unfolding skip
  if_skip_at true m w q h = h refl
  if_skip_at false m w q h = q

module _ {ℓ κ} {A : Type ℓ} {B : Type κ} {Q : Core → Type 0} where
  pub and_then_at :
      (r : Outcome A) (f : A → M B)
      → ((a : A) → Keeps Q (f a))
      → Q (core (after r))
      → Q (core (after (and_then r f)))
  and_then_at (done a w) f kf h = (kf a).at w h
  and_then_at (halted s w) f kf h = h

  -- The same where what comes first brings more than what comes after needs.
  pub and_then_with :
      (P : Core → Type 0) (r : Outcome A) (f : A → M B)
      → ((s : Core) → P s → Q s)
      → ((a : A) (w : World) → P (core w) → Q (core (after (f a w))))
      → P (core (after r))
      → Q (core (after (and_then r f)))
  and_then_with P (done a w) f stop go h = go a w h
  and_then_with P (halted s w) f stop go h = stop _ h

  pub Keeps-bind :
      (m : M A) (f : A → M B) → Keeps Q m → ((a : A) → Keeps Q (f a)) → Keeps Q (m >>= f)
  unfolding ◌>>=◌
  Keeps-bind m f km kf = record { at = λ w h. and_then_at (m w) f kf (km.at w h) }

pub ruleset keeps_rules = (
  Keeps-skip, Keeps-read_node, Keeps-send_err, Keeps-pure, Keeps-halt, Keeps-ask, Keeps-deref,
  Keeps-if, Keeps-bind,
)

-- A handler keeps a property when it starts in one world.
pub record KeepsAt {ℓ} {A : Type ℓ} (Q : Core → Type 0) (w : World) (m : M A) : Type ℓ where
  pub holds : Q (core w) → Q (core (after (m w)))

module _ {ℓ} {A : Type ℓ} {Q : Core → Type 0} {w : World} where
  pub anywhere : {m : M A} → Keeps Q m → KeepsAt Q w m
  anywhere k = record { holds = k.at w }

  pub KeepsAt-if :
      (b : Bool) (m n : M A)
      → (b ≡ true → KeepsAt Q w m)
      → (b ≡ false → KeepsAt Q w n)
      → KeepsAt Q w (if b then m else n)
  KeepsAt-if true m n km kn = km refl
  KeepsAt-if false m n km kn = kn refl

  pub KeepsAt-read_node : (f : Node → M A) → KeepsAt Q w (f w.node) → KeepsAt Q w (read_node >>= f)
  unfolding ◌>>=◌
  KeepsAt-read_node f k = record { holds = k.holds }

  -- An effect that the abstract state shows as `Q` allows in this world.
  pub KeepsAt-emit :
      (x : Effect) (m : M A)
      → (Q (core w) → Q (core (record w { out = x ∷ w.out })))
      → Keeps Q m
      → KeepsAt Q w (emit x >>= λ _. m)
  unfolding emit ◌>>=◌
  KeepsAt-emit x m h k = record { holds = λ q. k.at (record w { out = x ∷ w.out }) (h q) }

module _ {ℓ κ} {A : Type ℓ} {B : Type κ} {Q : Core → Type 0} {w : World} where
  pub KeepsAt-deref :
      (o : Option A) (f : A → M B) → ((a : A) → KeepsAt Q w (f a)) → KeepsAt Q w (deref o >>= f)
  unfolding deref ◌>>=◌
  KeepsAt-deref none f k = record { holds = λ q. q }
  KeepsAt-deref (some a) f k = k a

-- What is kept from every world is kept.
pub everywhere {ℓ} :
    {A : Type ℓ} {Q : Core → Type 0} {m : M A} → ((w : World) → KeepsAt Q w m) → Keeps Q m
everywhere k = record { at = λ w. (k w).holds }
