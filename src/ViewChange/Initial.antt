-- ===== src/ViewChange/Initial.antt =====
-- `selectInitialSequence` finds the latest stable checkpoint of the messages.
use trebiz.Prelude.{
  ℕ, ◌≡◌, refl, List, [], ◌∷◌, Bool, true, false, leb, if◌then◌else◌, arith, map, max, not,
}
use trebiz.Messages.{ViewChangeMsg}
use trebiz.ViewChange.Select.{initial_loop, select_initial_sequence}

-- The largest of some numbers, 0 for none.
abbrev pub largest : List ℕ → ℕ
largest [] = 0
largest (n ∷ rest) = max n (largest rest)

abbrev pub is_empty {ℓ} : {A : Type ℓ} → List A → Bool
is_empty [] = true
is_empty (x ∷ xs) = false

max_zero : (n : ℕ) → max n 0 ≡ n
max_zero n = omega arith

max_assoc : (a b c : ℕ) → max (max a b) c ≡ max a (max b c)
max_assoc a b c = omega arith

zero_leb : (n : ℕ) → leb 0 n ≡ true
zero_leb n = ground arith

larger : (sn n : ℕ) → (if leb sn n then n else sn) ≡ max sn n
larger sn n = ground arith

if_same {ℓ} : {A : Type ℓ} (b : Bool) (x : A) → (if b then x else x) ≡ x
if_same true x = refl
if_same false x = refl

initial_loop-max :
    (sn : ℕ) (vset : List ViewChangeMsg)
    → initial_loop sn true vset ≡ (max sn (largest (map (λ vc. vc.last_stable_ck) vset)), true)
unfolding initial_loop
initial_loop-max sn [] = rw (max_zero sn)
initial_loop-max sn (vc ∷ rest) = rw (
  larger sn vc.last_stable_ck,
  if_same (leb sn vc.last_stable_ck) true,
  initial_loop-max (max sn vc.last_stable_ck) rest,
  max_assoc sn vc.last_stable_ck (largest (map (λ vc. vc.last_stable_ck) rest)),
)

-- The new primary starts from the largest stable checkpoint of the messages it holds, and finds one
-- exactly if there is a message.
pub select_initial_sequence-largest :
    (vset : List ViewChangeMsg)
    → select_initial_sequence vset
      ≡ (largest (map (λ vc. vc.last_stable_ck) vset), not (is_empty vset))
unfolding select_initial_sequence initial_loop
select_initial_sequence-largest [] = refl
select_initial_sequence-largest (vc ∷ rest) =
    rw (zero_leb vc.last_stable_ck, initial_loop-max vc.last_stable_ck rest)
