-- ===== src/Protocol/Quorum.antt =====
-- Sets of replicas, and that two quorums share a replica that is not faulty.
use trebiz.Prelude.{
  ℕ, zero, suc, ◌+◌, ◌≤◌, ◌<◌, ◌≡◌, refl, Bool, true, false, inl, inr, ◌⊎◌, if◌then◌else◌, arith,
}

-- How many of the replicas below `n` are in the set.
abbrev pub count : ℕ → (ℕ → Bool) → ℕ
count zero p = 0
count (suc n) p = (if p n then 1 else 0) + count n p

-- A replica of both sets that is not in the third.
abbrev pub IsCommon : (n : ℕ) (a b bad : ℕ → Bool) → ℕ → Type 0
IsCommon n a b bad j = (j < n) × (a j ≡ true) × (b j ≡ true) × (bad j ≡ false)

member_or_few :
    (x y z : Bool)
    → ((x ≡ true) × (y ≡ true) × (z ≡ false))
      ⊎ ((if x then 1 else 0) + (if y then 1 else 0) ≤ 1 + (if z then 1 else 0))
member_or_few true true false = inl (refl, refl, refl)
member_or_few true true true = inr (omega arith)
member_or_few true false z = inr (ground arith)
member_or_few false true z = inr (ground arith)
member_or_few false false z = inr (omega arith)

wider : (n : ℕ) (a b bad : ℕ → Bool) (j : ℕ) → IsCommon n a b bad j → IsCommon (suc n) a b bad j
wider n a b bad j (below, in_a, in_b, good) = (omega arith, in_a, in_b, good)

IsCommon-or_few :
    (n : ℕ) (a b bad : ℕ → Bool)
    → ((j : ℕ) × IsCommon n a b bad j) ⊎ (count n a + count n b ≤ n + count n bad)
IsCommon-or_few zero a b bad = inr (omega arith)
IsCommon-or_few (suc n) a b bad = elim (IsCommon-or_few n a b bad) [
  | inl (j, found) ↦ inl (j, wider n a b bad j found)
  | inr few ↦ elim (member_or_few (a n) (b n) (bad n)) [
    | inl (in_a, in_b, good) ↦ inl (n, (omega arith, in_a, in_b, good))
    | inr small ↦ inr (omega arith)
  ]
]

-- Two sets of at least `q` replicas each share a replica that is not bad, where twice `q` is more than the
-- number of replicas and of the bad ones together.
pub quorums_meet :
    (n q : ℕ) (a b bad : ℕ → Bool)
    → q ≤ count n a
    → q ≤ count n b
    → n + count n bad < q + q
    → (j : ℕ) × IsCommon n a b bad j
quorums_meet n q a b bad in_a in_b enough = elim (IsCommon-or_few n a b bad) [
  | inl found ↦ found
  | inr few ↦ absurd (omega arith)
]
