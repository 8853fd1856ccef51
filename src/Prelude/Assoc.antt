-- ===== src/Prelude/Assoc.antt =====
-- Go maps as association lists. The order of the list is the order in which `range` goes through
-- the map: a theorem over every list covers every order.
use Prim.Native.Nat.{ℕ, suc}
use mathlib.Core.Path.{◌≡◌, refl, subst}
use mathlib.Core.Logic.{◌↔◌, ◌⊎◌, inl, inr}
use mathlib.Core.Bool.{Bool, true, false, ◌&&◌}
use mathlib.Core.Option.{Option, none, some}
use mathlib.Core.List.{List, [], ◌∷◌}
use native.Mathlib.Omega.{arith}
use trebiz.Prelude.Tests.{Bool-cases, ◌==◌, ==_iff, if◌then◌else◌}
use trebiz.Prelude.Lists.{length, All}

-- What a type of keys needs: Go's `==`.
pub record Key {ℓ} (A : Type ℓ) : Type ℓ where
  pub same : A → A → Bool
  pub same_iff : (a b : A) → (same a b ≡ true) ↔ (a ≡ b)

instance abbrev pub nat_key : Key ℕ
nat_key = record { same = ◌==◌; same_iff = ==_iff }

abbrev pub same_bytes : List ℕ → List ℕ → Bool
same_bytes [] [] = true
same_bytes (a ∷ as') (b ∷ bs) = a == b && same_bytes as' bs
same_bytes _ _ = false

same_bytes_sound : (a b : List ℕ) → same_bytes a b ≡ true → a ≡ b
same_bytes_sound [] [] h = refl
same_bytes_sound [] (b ∷ bs) h = cc
same_bytes_sound (a ∷ as') [] h = cc
same_bytes_sound (a ∷ as') (b ∷ bs) h = ground (arith, same_bytes_sound as' bs)

same_bytes_refl : (a : List ℕ) → same_bytes a a ≡ true
same_bytes_refl [] = refl
same_bytes_refl (a ∷ as') = ground (arith, same_bytes_refl as')

pub same_bytes_iff : (a b : List ℕ) → (same_bytes a b ≡ true) ↔ (a ≡ b)
same_bytes_iff a b = (same_bytes_sound a b, λ e. rw e (same_bytes_refl b))

instance abbrev pub bytes_key : Key (List ℕ)
bytes_key = record { same = same_bytes; same_iff = same_bytes_iff }

abbrev pub Map {ℓ κ} : Type ℓ → Type κ → Type (ℓ ⊔ κ)
Map K V = List (K × V)

module _ {ℓ κ} {K : Type ℓ} {V : Type κ} ⦃k : Key K⦄ where
  unfoldable pub lookup : K → Map K V → Option V
  lookup a [] = none
  lookup a ((b, v) ∷ m) = if k.same b a then some v else lookup a m

  unfoldable pub insert : K → V → Map K V → Map K V
  insert a v [] = (a, v) ∷ []
  insert a v ((b, w) ∷ m) = if k.same b a then (a, v) ∷ m else (b, w) ∷ insert a v m

  -- Reading a map with a zero value.
  abbrev pub get : K → V → Map K V → V
  get a d m = elim (lookup a m) [ none ↦ d | some v ↦ v ]

  abbrev pub has : K → Map K V → Bool
  has a m = elim (lookup a m) [ none ↦ false | some _ ↦ true ]

  pub lookup-insert :
      (a b : K) (v : V) (m : Map K V)
      → lookup b (insert a v m) ≡ (if k.same a b then some v else lookup b m)
  unfolding lookup insert
  lookup-insert a b v [] = refl
  lookup-insert a b v ((c, w) ∷ m) =
      ground (arith, k.same_iff c a, k.same_iff c b, k.same_iff a b, lookup-insert a b v m)

  pub lookup-insert_self : (a : K) (v : V) (m : Map K V) → lookup a (insert a v m) ≡ some v
  lookup-insert_self a v m = rw (lookup-insert a a v m, (k.same_iff a a).1 refl)

  -- An entry is added when the key is new, and replaced otherwise.
  pub length-insert :
      (a : K) (v : V) (m : Map K V)
      → length (insert a v m) ≡ (if has a m then length m else suc (length m))
  unfolding lookup insert
  length-insert a v [] = refl
  length-insert a v ((b, w) ∷ m) = ground (arith, length-insert a v m)

  -- What a map holds after an assignment is the value assigned, or was there before.
  pub lookup-insert_cases :
      (a b : K) (v w : V) (m : Map K V)
      → lookup b (insert a v m) ≡ some w
      → ((a ≡ b) × (v ≡ w)) ⊎ (lookup b m ≡ some w)
  lookup-insert_cases a b v w m h = ground (arith, lookup-insert a b v m, k.same_iff a b)

  -- An assignment removes no key.
  pub lookup-insert-some :
      (a b : K) (v w : V) (m : Map K V)
      → lookup b m ≡ some w
      → (u : V) × (lookup b (insert a v m) ≡ some u)
  lookup-insert-some a b v w m h = elim (Bool-cases (k.same a b)) [
    | inl same ↦ (v, rw (lookup-insert a b v m, same))
    | inr other ↦ (w, rw (lookup-insert a b v m, other, h))
  ]

-- The same for a map of values that may be nil.
pub get-insert_cases {ℓ κ} :
    {K : Type ℓ} ⦃k : Key K⦄ {V : Type κ} (a b : K) (v : Option V) (w : V) (m : Map K (Option V))
    → get b none (insert a v m) ≡ some w
    → (a ≡ b) ⊎ (get b none m ≡ some w)
get-insert_cases ⦃k⦄ a b v w m h = ground (arith, lookup-insert a b v m, k.same_iff a b)

-- What holds of the entries of a map.
module _ {ℓ κ μ} {K : Type ℓ} {V : Type κ} ⦃k : Key K⦄ (P : K → V → Type μ) where
  if_All :
      (c : Bool) (m n : Map K V)
      → All (λ p. P p.0 p.1) m
      → All (λ p. P p.0 p.1) n
      → All (λ p. P p.0 p.1) (if c then m else n)
  if_All true m n h k = h
  if_All false m n h k = k

  if_entry :
      (c : Bool) (a b : K) (v w : V) (o : Option V)
      → (c ≡ true → b ≡ a)
      → (if c then some w else o) ≡ some v
      → P b w
      → (o ≡ some v → P a v)
      → P a v
  if_entry true a b v w o same h here later =
      let value : w ≡ v = cc in subst (λ x. P x v) (same refl) (subst (λ x. P b x) value here)
  if_entry false a b v w o same h here later = later h

  pub All-insert :
      (a : K) (v : V) (m : Map K V)
      → P a v
      → All (λ p. P p.0 p.1) m
      → All (λ p. P p.0 p.1) (insert a v m)
  unfolding insert
  All-insert a v [] new old = (new, tt)
  All-insert a v ((b, w) ∷ m) new old =
      if_All (k.same b a) ((a, v) ∷ m) ((b, w) ∷ insert a v m) (new, old.1)
        (old.0, All-insert a v m new old.1)

  pub All-lookup :
      (a : K) (v : V) (m : Map K V) → lookup a m ≡ some v → All (λ p. P p.0 p.1) m → P a v
  unfolding lookup
  All-lookup a v [] h all = absurd cc
  All-lookup a v ((b, w) ∷ m) h all =
      if_entry (k.same b a) a b v w (lookup a m) (λ t. (k.same_iff b a).0 t) h all.0
        (λ h'. All-lookup a v m h' all.1)
