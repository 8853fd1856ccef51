-- ===== src/ViewChange/Correct.antt =====
-- What `correctViewChange` checks, and what it makes of a node's own message.
use trebiz.Prelude.{ℕ, ◌<◌, ◌≡◌, ◌↔◌, refl, List, [], ◌∷◌, true, All, arith, Map, add32, nat_key}
use trebiz.Messages.{PrePrepareMsg, PrepareQc, CheckpointMsg, ViewChangeMsg, Payload}
use trebiz.Node.Env.{Env}
use trebiz.Node.Send.{verify_threshold_sig}
use trebiz.Normal.Prepare.{vote_of}
use trebiz.ViewChange.Select.{correct_pset, correct_qset, correct_cset, correct_view_change}

module _ (e : Env) where
  -- What a view-change message has to fulfil.
  pub record IsCorrect (vc : ViewChangeMsg) : Type 0 where
    pub pset_ok :
        All
          (λ p.
            (p.1.view < vc.view)
            × (vc.last_stable_ck < p.1.sn)
            × (p.1.sn < add32 vc.last_stable_ck e.log_k))
          vc.pset
    pub qset_ok :
        All
          (λ q.
            verify_threshold_sig e (Payload.vote (vote_of q.1)) e.ts_pub_key q.1.threshold_sig
            ≡ true)
          vc.qset
    pub cset_ok : All (λ c. c.seq_n ≡ vc.last_stable_ck) vc.cset

  correct_pset_iff :
      (vc : ViewChangeMsg) (ps : Map ℕ PrePrepareMsg)
      → (correct_pset e vc ps ≡ true) ↔ (
          All
            (λ p.
              (p.1.view < vc.view)
              × (vc.last_stable_ck < p.1.sn)
              × (p.1.sn < add32 vc.last_stable_ck e.log_k))
            ps)
  unfolding correct_pset
  correct_pset_iff vc [] = (λ _. tt, λ _. refl)
  correct_pset_iff vc ((k, p) ∷ rest) = let (f, g) = correct_pset_iff vc rest in ground arith

  correct_qset_iff :
      (qs : Map ℕ PrepareQc)
      → (correct_qset e qs ≡ true) ↔ (
          All
            (λ q.
              verify_threshold_sig e (Payload.vote (vote_of q.1)) e.ts_pub_key q.1.threshold_sig
              ≡ true)
            qs)
  unfolding correct_qset
  correct_qset_iff [] = (λ _. tt, λ _. refl)
  correct_qset_iff ((k, q) ∷ rest) = let (f, g) = correct_qset_iff rest in ground arith

  correct_cset_iff :
      (vc : ViewChangeMsg) (cs : List CheckpointMsg)
      → (correct_cset e vc cs ≡ true) ↔ (All (λ c. c.seq_n ≡ vc.last_stable_ck) cs)
  unfolding correct_cset
  correct_cset_iff vc [] = (λ _. tt, λ _. refl)
  correct_cset_iff vc (c ∷ rest) = let (f, g) = correct_cset_iff vc rest in ground arith

  -- `correctViewChange` accepts a message exactly if its pre-prepares are from earlier views and lie strictly
  -- between the stable checkpoint and the end of the window above it, its prepare certificates verify, and
  -- its checkpoints are all for the stable checkpoint.
  pub correct_view_change_iff :
      (vc : ViewChangeMsg) → (correct_view_change e vc ≡ true) ↔ IsCorrect vc
  unfolding correct_view_change
  correct_view_change_iff vc =
      let (p, p') = correct_pset_iff vc vc.pset in
      let (q, q') = correct_qset_iff vc.qset in
      let (c, c') = correct_cset_iff vc vc.cset in
      (
        λ h. record {
          pset_ok = p (ground arith);
          qset_ok = q (ground arith);
          cset_ok = c (ground arith);
        },
        λ i. let a = p' i.pset_ok in let b = q' i.qset_ok in let d = c' i.cset_ok in rw (a, b, d),
      )
