-- ===== src/ViewChange/Smallest.antt =====
-- Which view a node joins.
use trebiz.Prelude.{
  ℕ, ◌≡◌, ◌∙◌, sym, List, [], ◌∷◌, map, filter, Map, ltb, leb, ◌==◌, ◌||◌, min, if◌then◌else◌,
  arith,
}
use trebiz.Messages.{Vcidx, ViewChangeMsg}
use trebiz.ViewChange.Receive.{min_view}

-- The smaller of two numbers, where 0 stands for none, and the smallest of some.
abbrev pub merge : ℕ → ℕ → ℕ
merge a b = if a == 0 then b else if b == 0 then a else min a b

abbrev pub smallest : List ℕ → ℕ
smallest [] = 0
smallest (v ∷ rest) = merge v (smallest rest)

-- The views after `view` that are asked for.
abbrev pub later_views : ℕ → Map Vcidx ViewChangeMsg → List ℕ
later_views view m = filter (λ v. ltb view v) (map (λ p. p.0.view) m)

merge_assoc : (a b c : ℕ) → merge (merge a b) c ≡ merge a (merge b c)
merge_assoc a b c = ground arith

merge_zero : (a : ℕ) → merge a 0 ≡ a
merge_zero a = ground arith

next_merge :
    (view v least : ℕ) (rest : List ℕ)
    → merge
        (if leb v view then least else if least == 0 || ltb v least then v else least)
        (smallest rest)
      ≡ merge least (smallest (if ltb view v then v ∷ rest else rest))
next_merge view v least rest = ground arith

min_view-merge :
    (view : ℕ) (m : Map Vcidx ViewChangeMsg) (least : ℕ)
    → min_view view m least ≡ merge least (smallest (later_views view m))
unfolding min_view
min_view-merge view [] least = sym (merge_zero least)
min_view-merge view ((idx, vc) ∷ rest) least =
    min_view-merge view rest _ ∙ next_merge view idx.view least (later_views view rest)

-- The view that a node joins is the smallest one after its own that a stored view-change message asks for, in
-- whatever order the store is gone through, and 0 if there is none.
pub min_view-smallest :
    (view : ℕ) (m : Map Vcidx ViewChangeMsg) → min_view view m 0 ≡ smallest (later_views view m)
min_view-smallest view m = min_view-merge view m 0
