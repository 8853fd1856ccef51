-- ===== src/ConfigGen/Distinct.antt =====
-- The numbers that are drawn for the faulty nodes.
use trebiz.Prelude.{
  ℕ, suc, Bool, ◌≢◌, ap, ◌∙◌, ◌+◌, ◌-◌, ◌≤◌, ◌<◌, ◌≡◌, refl, List, [], ◌∷◌, ◌++◌, some, false, ◌==◌,
  ltb, ◌||◌, length, All, All-map, arith, if◌then◌else◌, Bool-cases, inl, inr, subst, sym,
  length-append, ltb→lt,
}
use trebiz.ConfigGen.Draws.{exists, after_draw, random_loop, generate_random_number}

-- The unseen numbers that come out of some draws, after those that came before.
abbrev unseen : ℕ → List ℕ → List ℕ → List ℕ
unseen start seen [] = []
unseen start seen (draw ∷ draws) =
    if exists (draw + start) seen
    then unseen start seen draws
    else (draw + start) ∷ unseen start (seen ++ (draw + start) ∷ []) draws

abbrev IsFresh : List ℕ → Type 0
IsFresh [] = Unit
IsFresh (x ∷ xs) = (exists x xs ≡ false) × IsFresh xs

exists-append :
    (x y : ℕ) (xs : List ℕ)
    → exists x xs ≡ false
    → (y == x) ≡ false
    → exists x (xs ++ y ∷ []) ≡ false
exists-append x y [] h other = rw other
exists-append x y (v ∷ xs) h other = ground (arith, exists-append x y xs)

IsFresh-append : (x : ℕ) (xs : List ℕ) → exists x xs ≡ false → IsFresh xs → IsFresh (xs ++ x ∷ [])
IsFresh-append x [] h d = (refl, tt)
IsFresh-append x (v ∷ xs) h d =
    (exists-append v x xs d.0 (ground arith), IsFresh-append x xs (ground arith) d.1)

abbrev pub IsBetween : ℕ → ℕ → List ℕ → Type 0
IsBetween start end = All λ x. (start ≤ x) × (x < end)

IsBetween-append :
    (start end x : ℕ) (xs : List ℕ)
    → start ≤ x
    → x < end
    → IsBetween start end xs
    → IsBetween start end (xs ++ x ∷ [])
IsBetween-append start end x [] low high h = ((low, high), tt)
IsBetween-append start end x (v ∷ xs) low high h =
    (h.0, IsBetween-append start end x xs low high h.1)

-- What the loop keeps.
record IsChosen (start end : ℕ) (nums : List ℕ) : Type 0 where
  distinct : IsFresh nums
  between : IsBetween start end nums

full_count : (a b : ℕ) → ltb a b ≡ false → a ≤ b → a ≡ b
full_count a b h k = ground arith

after_draw-IsChosen :
    (start end count num : ℕ) (nums : List ℕ)
    → start ≤ num
    → num < end
    → IsChosen start end nums
    → IsChosen start end (after_draw start count num nums)
after_draw-IsChosen start end count num nums low high c = elim (Bool-cases (exists num nums)) [
  | inl drawn ↦ subst (λ b. IsChosen start end (if b then nums else nums ++ num ∷ [])) (sym drawn) c
  | inr new ↦
      subst (λ b. IsChosen start end (if b then nums else nums ++ num ∷ [])) (sym new)
        (record {
          distinct = IsFresh-append num nums new c.distinct;
          between = IsBetween-append start end num nums low high c.between;
        })
]

-- A draw that is counted leaves fewer that are to come.
after_draw-enough :
    (start count draw : ℕ) (draws nums : List ℕ)
    → length nums < count
    → count ≤ length nums + length (unseen start nums (draw ∷ draws))
    → (length (after_draw start count (draw + start) nums) ≤ count)
      × (count
          ≤ length (after_draw start count (draw + start) nums)
            + length (unseen start (after_draw start count (draw + start) nums) draws))
after_draw-enough start count draw draws nums room enough =
    ground (arith, length-append nums ((draw + start) ∷ []))

loop-IsChosen :
    (start end count : ℕ) (draws nums : List ℕ)
    → All (λ d. d + start < end) draws
    → IsChosen start end nums
    → length nums ≤ count
    → count ≤ length nums + length (unseen start nums draws)
    → (out : List ℕ) × (random_loop start count draws nums ≡ some out)
      × IsChosen start end out
      × (length out ≡ count)
unfolding random_loop
loop-IsChosen start end count [] nums inside c fits enough = (nums, ground arith, c, omega arith)
loop-IsChosen start end count (d ∷ draws) nums inside c fits enough =
    elim (Bool-cases (ltb (length nums) count)) [
      | inl room ↦
          let (fits', enough') =
            after_draw-enough start count d draws nums (ltb→lt _ _ room) enough in
          let (out, runs, chosen, counted) =
            loop-IsChosen start end count draws (after_draw start count (d + start) nums) inside.1
              (after_draw-IsChosen start end count (d + start) nums (omega arith) inside.0 c) fits'
              enough' in
          (out, rw room runs, chosen, counted)
      | inr full ↦ (nums, rw full, c, full_count (length nums) count full fits)
    ]

All-inside :
    (start end : ℕ) (draws : List ℕ)
    → start ≤ end
    → All (λ d. d < end - start) draws
    → All (λ d. d + start < end) draws
All-inside start end draws ordered inside = All-map (λ d h. omega arith) draws inside

no_range_error :
    (start end count : ℕ)
    → start ≤ end
    → count ≤ end - start
    → (ltb end start || ltb (end - start) count) ≡ false
no_range_error start end count ordered fits = ground arith

-- Whether a number is in a list.
abbrev pub among : ℕ → List ℕ → Bool
among num [] = false
among num (v ∷ nums) = num == v || among num nums

exists-among : (num : ℕ) (nums : List ℕ) → exists num nums ≡ among num nums
exists-among num [] = refl
exists-among num (v ∷ nums) = ground (arith, exists-among num nums)

-- How many different numbers some draws give that are not among those before.
abbrev pub different_count : ℕ → List ℕ → List ℕ → ℕ
different_count start seen [] = 0
different_count start seen (draw ∷ draws) =
    if among (draw + start) seen
    then different_count start seen draws
    else suc (different_count start ((draw + start) ∷ seen) draws)

among-append : (x y : ℕ) (xs : List ℕ) → among x (xs ++ y ∷ []) ≡ (x == y || among x xs)
among-append x y [] = refl
among-append x y (v ∷ xs) = ground (arith, among-append x y xs)

-- The order of the numbers before does not matter.
different_count-same :
    (start : ℕ) (seen other draws : List ℕ)
    → ((x : ℕ) → exists x seen ≡ among x other)
    → different_count start other draws ≡ length (unseen start seen draws)
different_count-same start seen other [] same = refl
different_count-same start seen other (draw ∷ draws) same =
    let later = different_count-same start seen other draws same in
    let added =
      different_count-same start (seen ++ (draw + start) ∷ []) ((draw + start) ∷ other) draws (λ x.
        exists-among x (seen ++ (draw + start) ∷ [])
        ∙ among-append x (draw + start) seen
        ∙ ap (λ b. x == draw + start || b) (sym (exists-among x seen) ∙ same x)) in
    ground (arith, same (draw + start))

-- No two numbers of the list are the same.
abbrev pub IsDistinct : List ℕ → Type 0
IsDistinct [] = Unit
IsDistinct (x ∷ xs) = All (λ y. x ≢ y) xs × IsDistinct xs

not_there : (x : ℕ) (xs : List ℕ) → exists x xs ≡ false → All (λ y. x ≢ y) xs
not_there x [] h = tt
not_there x (v ∷ xs) h = (λ same. ground arith, not_there x xs (ground arith))

IsFresh-IsDistinct : (xs : List ℕ) → IsFresh xs → IsDistinct xs
IsFresh-IsDistinct [] h = tt
IsFresh-IsDistinct (x ∷ xs) h = (not_there x xs h.0, IsFresh-IsDistinct xs h.1)

-- The numbers for the faulty nodes are drawn as soon as the random source has given enough different ones: then
-- there are as many as were asked for, no two are the same, and they lie in the range. The range is not smaller
-- than the count, and the source gives numbers below the size of the range.
pub generate_random_number-IsDistinct :
    (start end count : ℕ) (draws : List ℕ)
    → start ≤ end
    → count ≤ end - start
    → All (λ d. d < end - start) draws
    → count ≤ different_count start [] draws
    → (nums : List ℕ) × (generate_random_number start end count draws ≡ some nums)
      × IsDistinct nums
      × IsBetween start end nums
      × (length nums ≡ count)
unfolding generate_random_number
generate_random_number-IsDistinct start end count draws ordered fits inside enough =
    let same = different_count-same start [] [] draws (λ x. refl) in
    let (nums, runs, chosen, counted) =
      loop-IsChosen start end count draws [] (All-inside start end draws ordered inside)
        (record { distinct = tt; between = tt }) (omega arith) (omega (arith, same, enough)) in
    (
      nums,
      rw (no_range_error start end count ordered fits) runs,
      IsFresh-IsDistinct nums chosen.distinct,
      chosen.between,
      counted,
    )
