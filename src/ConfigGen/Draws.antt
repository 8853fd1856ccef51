-- ===== src/ConfigGen/Draws.antt =====
-- How the faulty nodes are drawn: `judgeNodeType` and `generateRandomNumber`. The random source is the list of the
-- numbers that `Intn` gives, one after the other; `none` says that the list is too short.
use trebiz.Prelude.{
  ℕ, ◌+◌, ◌-◌, List, [], ◌∷◌, ◌++◌, Option, none, some, Bool, true, false, ◌==◌, ltb, ◌||◌, length,
  if◌then◌else◌,
}

abbrev pub judge_node_type : ℕ → List ℕ → Bool
judge_node_type i [] = false
judge_node_type i (v ∷ b) = if i == v then true else judge_node_type i b

-- The inner loop, which looks for a number among those drawn before.
abbrev pub exists : ℕ → List ℕ → Bool
exists num [] = false
exists num (v ∷ nums) = if v == num then true else exists num nums

module _ (start count : ℕ) where
  abbrev pub after_draw : ℕ → List ℕ → List ℕ
  after_draw num nums = if exists num nums then nums else nums ++ num ∷ []

  unfoldable pub random_loop : List ℕ → List ℕ → Option (List ℕ)
  random_loop [] nums = if ltb (length nums) count then none else some nums
  random_loop (draw ∷ draws) nums =
      if ltb (length nums) count
      then random_loop draws (after_draw (draw + start) nums)
      else some nums

unfoldable pub generate_random_number : ℕ → ℕ → ℕ → List ℕ → Option (List ℕ)
unfolding random_loop
generate_random_number start end count draws =
    if ltb end start || ltb (end - start) count then some [] else random_loop start count draws []
