-- ===== src/ViewChange/Certified.antt =====
-- What `assignSequenceNumbers` does with a request that was prepared.
use mathlib.Core.List.Memᴰ.{head, tail}
use trebiz.Prelude.{
  ℕ, refl, subst, Memᴰ, nat_key, bytes_key, ◌+◌, ◌^◌, ◌≤◌, ◌<◌, ◌≡◌, List, [], ◌∷◌, Option, none,
  some, Bool, true, false, if◌then◌else◌, arith, Map, lookup, lookup-insert_self,
}
use trebiz.Messages.{Bytes, PrePrepareMsg, RequestBatch, PrepareQc, ViewChangeMsg}
use trebiz.Node.Env.{Env}
use trebiz.ViewChange.Select.{Scan, certified, scan_vset, assign_one, assign_sequence_numbers}
use trebiz.ViewChange.Assignment.{window-IsAssigned}

-- A message that shows a batch as prepared at a sequence number: it has a proposal of the batch and a prepare
-- certificate for the number.
pub record Shows (t : ℕ) (vc : ViewChangeMsg) (b : RequestBatch) : Type 0 where
  pub proposal : PrePrepareMsg
  pub proposed : lookup t vc.pset ≡ some proposal
  pub batch_is : proposal.req_batch ≡ b
  pub certificate : PrepareQc
  pub prepared : lookup t vc.qset ≡ some certificate

-- What the scan finds is shown by one of the messages.
abbrev IsShown : ℕ → List ViewChangeMsg → Scan → Type 0
IsShown t vset s =
    (vc : ViewChangeMsg) × (b : RequestBatch) × Memᴰ vc vset × Shows t vc b × (s ≡ certified b)

later-IsShown :
    (t : ℕ) (vc : ViewChangeMsg) (rest : List ViewChangeMsg) (s : Scan)
    → IsShown t rest s
    → IsShown t (vc ∷ rest) s
later-IsShown t vc rest s (v, b, here, shows, same) = (v, b, tail here, shows, same)

-- A scanned message ends the scan if it shows a batch, and else the scan goes on.
turn-IsShown :
    (t : ℕ) (vc : ViewChangeMsg) (rest : List ViewChangeMsg) (o : Option PrePrepareMsg)
    (q : Option PrepareQc) (skipped : Scan) (counted : PrePrepareMsg → Scan)
    → lookup t vc.pset ≡ o
    → lookup t vc.qset ≡ q
    → (((b : RequestBatch) → ¬ Shows t vc b) → IsShown t rest skipped)
    → (((b : RequestBatch) → ¬ Shows t vc b) → (p : PrePrepareMsg) → IsShown t rest (counted p))
    → IsShown t (vc ∷ rest) (elim o as (λ _. Scan) [
      | none ↦ skipped
      | some p ↦
          if elim q as (λ _. Bool) [ none ↦ false | some _ ↦ true ]
          then certified p.req_batch
          else counted p
    ])
turn-IsShown t vc rest none q skipped counted at_p at_q f g =
    later-IsShown t vc rest skipped (f (λ b s. let x = s.proposed in cc))
turn-IsShown t vc rest (some p) none skipped counted at_p at_q f g =
    later-IsShown t vc rest (counted p) (g (λ b s. let x = s.prepared in cc) p)
turn-IsShown t vc rest (some p) (some q) skipped counted at_p at_q f g = (
  vc,
  p.req_batch,
  head refl,
  record { proposal = p; proposed = at_p; batch_is = refl; certificate = q; prepared = at_q },
  refl,
)

-- Some message shows a batch.
abbrev pub AnyShows : ℕ → List ViewChangeMsg → Type 0
AnyShows t vset = (vc : ViewChangeMsg) × (b : RequestBatch) × Memᴰ vc vset × Shows t vc b

rest-AnyShows :
    (t : ℕ) (vc : ViewChangeMsg) (rest : List ViewChangeMsg)
    → AnyShows t (vc ∷ rest)
    → ((b : RequestBatch) → ¬ Shows t vc b)
    → AnyShows t rest
rest-AnyShows t vc rest (v, b, head same, shows) blank =
    absurd (blank b (subst (λ x. Shows t x b) same shows))
rest-AnyShows t vc rest (v, b, tail here, shows) blank = (v, b, here, shows)

scan_vset-IsShown :
    (t : ℕ) (vset : List ViewChangeMsg) (diff : Map Bytes ℕ) (batches : Map Bytes RequestBatch)
    → AnyShows t vset
    → IsShown t vset (scan_vset t vset diff batches)
unfolding scan_vset
scan_vset-IsShown t [] diff batches some_shows = elim some_shows.2 [ ]
scan_vset-IsShown t (vc ∷ rest) diff batches some_shows =
    turn-IsShown t vc rest (lookup t vc.pset) (lookup t vc.qset) _ _ refl refl
      (λ blank. scan_vset-IsShown t rest diff batches (rest-AnyShows t vc rest some_shows blank))
      (λ blank p. scan_vset-IsShown t rest _ _ (rest-AnyShows t vc rest some_shows blank))

-- Where a view-change message shows a batch as prepared at a number of the window, by a proposal and a prepare
-- certificate for the number, the new view assigns to the number a batch that one of the messages shows so: no
-- other batch, however often it was only proposed, and not the empty one. The window ends before the largest
-- `uint32`.
pub certified-lookup :
    (e : Env) (vset : List ViewChangeMsg) (sn t : ℕ)
    → sn + e.log_k + 1 < 2 ^ 32
    → sn < t
    → t ≤ sn + e.log_k
    → AnyShows t vset
    → (list : Map ℕ RequestBatch) × (ok : Bool) × (vc : ViewChangeMsg) × (b : RequestBatch)
      × (assign_sequence_numbers e vset sn ≡ some (list, ok))
      × (lookup t list ≡ some b)
      × Memᴰ vc vset
      × Shows t vc b
unfolding assign_one
certified-lookup e vset sn t room above below some_shows =
    let a = window-IsAssigned e vset sn room in
    let (vc, b, here, shows, found) = scan_vset-IsShown t vset [] [] some_shows in
    (
      a.result.0,
      a.result.1,
      vc,
      b,
      a.ends,
      rw (a.inside t (omega arith) below, found, lookup-insert_self t b []),
      here,
      shows,
    )
