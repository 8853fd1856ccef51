-- ===== src/ViewChange/Assignment.antt =====
-- What `assignSequenceNumbers` gives to the sequence numbers of a new view.
use trebiz.Prelude.{
  ℕ, zero, suc, nat_key, bytes_key, ◌+◌, ◌^◌, ◌≤◌, ◌<◌, ◌≡◌, ◌≢◌, ◌∙◌, ◌⊎◌, inl, inr, refl, List,
  [], ◌∷◌, Option, none, some, Bool, true, false, leb, ltb, if◌then◌else◌, arith, Map, lookup,
  insert, add32, lookup-insert, ◌==◌, ◌&&◌, ==_iff, Bool-cases, subst, leb→le,
}
use trebiz.Messages.{Bytes, RequestBatch, ViewChangeMsg}
use trebiz.Node.Env.{Env}
use trebiz.ViewChange.Select.{
  Scan, certified, votes, scan_vset, assign_one, assign_frequent, assign_loop,
  assign_sequence_numbers,
}

-- An assignment at one key, seen at another, and two assignments at the same key.
lookup-insert_other :
    (s t : ℕ) (b : RequestBatch) (list : Map ℕ RequestBatch)
    → s ≢ t
    → lookup t (insert s b list) ≡ lookup t list
lookup-insert_other s t b list h = ground (arith, lookup-insert s t b list)

lookup-if_insert :
    (c : Bool) (s : ℕ) (b : RequestBatch) (l l' : Map ℕ RequestBatch)
    → lookup s l ≡ lookup s l'
    → lookup s (if c then insert s b l else l) ≡ lookup s (if c then insert s b l' else l')
lookup-if_insert true s b l l' h = ground (arith, lookup-insert s s b l, lookup-insert s s b l')
lookup-if_insert false s b l l' h = h

lookup-if_insert_other :
    (c : Bool) (s t : ℕ) (b : RequestBatch) (l : Map ℕ RequestBatch)
    → s ≢ t
    → lookup t (if c then insert s b l else l) ≡ lookup t l
lookup-if_insert_other true s t b l h = lookup-insert_other s t b l h
lookup-if_insert_other false s t b l h = refl

-- A round assigns no other sequence number than its own.
assign_frequent-other :
    (quorum s : ℕ) (diff : Map Bytes ℕ) (batches : Map Bytes RequestBatch)
    (list : Map ℕ RequestBatch) (t : ℕ)
    → s ≢ t
    → lookup t (assign_frequent quorum s diff batches list) ≡ lookup t list
unfolding assign_frequent
assign_frequent-other quorum s [] batches list t h = refl
assign_frequent-other quorum s ((key, value) ∷ rest) batches list t h =
    assign_frequent-other quorum s rest batches _ t h
    ∙ lookup-if_insert_other (leb quorum value) s t _ list h

assign_one-other :
    (quorum s : ℕ) (scan : Scan) (list : Map ℕ RequestBatch) (ok : Bool) (t : ℕ)
    → s ≢ t
    → lookup t (assign_one quorum s scan list ok).0 ≡ lookup t list
unfolding assign_one
assign_one-other quorum s (certified b) list ok t h = lookup-insert_other s t b list h
assign_one-other quorum s (votes diff batches) list ok t h = ground (
  arith,
  assign_frequent-other quorum s diff batches list t h,
  lookup-insert_other s t (record { batch = [] }) list h,
)

-- What a round assigns does not depend on what was assigned to other numbers.
assign_frequent-same :
    (quorum s : ℕ) (diff : Map Bytes ℕ) (batches : Map Bytes RequestBatch)
    (l l' : Map ℕ RequestBatch)
    → lookup s l ≡ lookup s l'
    → lookup s (assign_frequent quorum s diff batches l)
      ≡ lookup s (assign_frequent quorum s diff batches l')
unfolding assign_frequent
assign_frequent-same quorum s [] batches l l' h = h
assign_frequent-same quorum s ((key, value) ∷ rest) batches l l' h =
    assign_frequent-same quorum s rest batches _ _ (lookup-if_insert (leb quorum value) s _ l l' h)

assign_one-same :
    (quorum s : ℕ) (scan : Scan) (l l' : Map ℕ RequestBatch) (ok ok' : Bool)
    → lookup s l ≡ lookup s l'
    → lookup s (assign_one quorum s scan l ok).0 ≡ lookup s (assign_one quorum s scan l' ok').0
unfolding assign_one
assign_one-same quorum s (certified b) l l' ok ok' h = lookup-if_insert true s b l l' h
assign_one-same quorum s (votes diff batches) l l' ok ok' h = ground (
  arith,
  assign_frequent-same quorum s diff batches l l' h,
  lookup-if_insert true s (record { batch = [] }) l l' h,
)

-- What the loop from `s` to `max_s` makes of a list.
pub record IsAssigned (quorum s max_s : ℕ) (vset : List ViewChangeMsg) (list : Map ℕ RequestBatch)
    (r : Option (Map ℕ RequestBatch × Bool)) : Type 0 where
  pub result : Map ℕ RequestBatch × Bool
  pub ends : r ≡ some result
  pub inside :
      (t : ℕ)
      → s ≤ t
      → t ≤ max_s
      → lookup t result.0 ≡ lookup t (assign_one quorum t (scan_vset t vset [] []) list true).0
  pub outside : (t : ℕ) → (t < s) ⊎ (max_s < t) → lookup t result.0 ≡ lookup t list

no_wrap : (s max_s : ℕ) → max_s + 1 < 2 ^ 32 → s ≤ max_s → s + 1 ≡ add32 s 1
no_wrap s max_s room le = omega arith

module _ (quorum max_s : ℕ) (vset : List ViewChangeMsg) where
  -- One round, and the rounds after it.
  round-IsAssigned :
      (s : ℕ) (list : Map ℕ RequestBatch) (ok : Bool) (r : Option (Map ℕ RequestBatch × Bool))
      → s ≤ max_s
      → IsAssigned quorum
          (s + 1)
          max_s
          vset
          (assign_one quorum s (scan_vset s vset [] []) list ok).0
          r
      → IsAssigned quorum s max_s vset list r
  round-IsAssigned s list ok r le a = record {
    result = a.result;
    ends = a.ends;
    inside = λ t ge t_le. elim (Bool-cases (s == t)) [
      | inl same ↦
          subst
            (λ u.
              lookup u a.result.0
              ≡ lookup u (assign_one quorum u (scan_vset u vset [] []) list true).0)
            ((==_iff s t).0 same)
            (a.outside s (inl (omega arith))
              ∙ assign_one-same quorum s (scan_vset s vset [] []) list list ok true refl)
      | inr other ↦
          a.inside t (ground arith) t_le
          ∙ assign_one-same quorum t (scan_vset t vset [] []) _ list true true
              (assign_one-other quorum s (scan_vset s vset [] []) list ok t (ground arith))
    ];
    outside = λ t out.
        a.outside t (ground arith)
        ∙ assign_one-other quorum s (scan_vset s vset [] []) list ok t (ground arith);
  }

  if-IsAssigned :
      (c : Bool) (s : ℕ) (list : Map ℕ RequestBatch) (ok : Bool)
      (r : Option (Map ℕ RequestBatch × Bool))
      → (c ≡ true → IsAssigned quorum s max_s vset list r)
      → (c ≡ false → max_s < s)
      → IsAssigned quorum s max_s vset list (if c then r else some (list, ok))
  if-IsAssigned true s list ok r h past = h refl
  if-IsAssigned false s list ok r h past =
      let lt = past refl in
      record {
        result = (list, ok);
        ends = refl;
        inside = λ t ge le. absurd (omega arith);
        outside = λ t out. refl;
      }

  assign_loop-IsAssigned :
      (fuel s : ℕ) (list : Map ℕ RequestBatch) (ok : Bool)
      → max_s + 1 < 2 ^ 32
      → s ≤ max_s + 1
      → max_s + 1 < s + fuel
      → IsAssigned quorum s max_s vset list (assign_loop fuel quorum s max_s vset list ok)
  unfolding assign_loop
  assign_loop-IsAssigned zero s list ok room le enough = absurd (omega arith)
  assign_loop-IsAssigned (suc fuel) s list ok room le enough =
      if-IsAssigned (leb s max_s) s list ok _
        (λ before.
          let s_le = leb→le s max_s before in
          let one = assign_one quorum s (scan_vset s vset [] []) list ok in
          round-IsAssigned s list ok _ s_le (
            subst
              (λ k.
                IsAssigned quorum (s + 1) max_s vset one.0
                  (assign_loop fuel quorum k max_s vset one.0 one.1))
              (no_wrap s max_s room s_le)
              (assign_loop-IsAssigned fuel (s + 1) one.0 one.1 room (omega arith) (omega arith))))
        (λ past. ground arith)

pub window-IsAssigned :
    (e : Env) (vset : List ViewChangeMsg) (sn : ℕ)
    → sn + e.log_k + 1 < 2 ^ 32
    → IsAssigned e.pre_prepare_subset_count
        (sn + 1)
        (sn + e.log_k)
        vset
        []
        (assign_sequence_numbers e vset sn)
unfolding assign_sequence_numbers
window-IsAssigned e vset sn room =
    let first : add32 sn 1 ≡ sn + 1 = omega arith in
    let last : add32 sn e.log_k ≡ sn + e.log_k = omega arith in
    rw (first, last)
      (assign_loop-IsAssigned e.pre_prepare_subset_count (sn + e.log_k) vset (suc e.log_k) (sn + 1)
        [] true room (omega arith) (omega arith))

-- A new view gives each sequence number of its window what one round of the loop decides for it: the loop
-- ends, and where the window ends before the largest `uint32`, the number `t` gets the batch that its own
-- round puts into an empty list, and a number outside the window gets none.
pub assign_sequence_numbers-lookup :
    (e : Env) (vset : List ViewChangeMsg) (sn t : ℕ)
    → sn + e.log_k + 1 < 2 ^ 32
    → (list : Map ℕ RequestBatch) × (ok : Bool) × (assign_sequence_numbers e vset sn
        ≡ some (list, ok))
      × (lookup t list ≡ (
          if ltb sn t && leb t (sn + e.log_k)
          then lookup t (assign_one e.pre_prepare_subset_count t (scan_vset t vset [] []) [] true).0
          else none))
unfolding assign_sequence_numbers lookup
assign_sequence_numbers-lookup e vset sn t room =
    let a = window-IsAssigned e vset sn room in
    (
      a.result.0,
      a.result.1,
      a.ends,
      elim (Bool-cases (ltb sn t && leb t (sn + e.log_k))) [
        | inl within ↦ rw (within, a.inside t (ground arith) (ground arith))
        | inr beyond ↦ rw (beyond, a.outside t (ground arith))
      ],
    )
