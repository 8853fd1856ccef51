-- ===== src/ViewChange/Taking.antt =====
-- Which view-change messages `recvViewChange` takes.
use trebiz.Prelude.{
  nat_key, ◌≡◌, ◌⊎◌, ◌≤◌, inl, inr, refl, false, insert, has, ltb, ◌||◌, not, Bool-cases, arith,
}
use trebiz.Messages.{Vcidx, vcidx_key, ViewChangeMsg}
use trebiz.Node.Env.{Env}
use trebiz.Node.State.{World}
use trebiz.Node.Monad.{Outcome, done, ErrChan, ◌>>=◌, ◌>>◌, skip, modify}
use trebiz.ViewChange.Select.{correct_view_change}
use trebiz.ViewChange.Receive.{join_later_view, check_view_quorum, recv_view_change}
use trebiz.ViewChange.Correct.{IsCorrect, correct_view_change_iff}

abbrev pub index_of : ViewChangeMsg → Vcidx
index_of vc = record { view = vc.view; replica_id = vc.replica_id }

-- A message that a node takes: it is for the node's view or a later one, it is correct, and it is the first of its
-- sender for that view.
pub record Takes (e : Env) (w : World) (vc : ViewChangeMsg) : Type 0 where
  pub not_old : w.node.curren_view ≤ vc.view
  pub correct : IsCorrect e vc
  pub first : has (index_of vc) w.node.view_change_store ≡ false

-- The world after a message was stored.
abbrev pub with_message : ViewChangeMsg → World → World
with_message vc w = record w {
  node = record w.node { view_change_store = insert (index_of vc) vc w.node.view_change_store };
}

-- What follows a message that is taken: it is stored, and the node looks whether to join a later view and whether
-- to make the new view.
abbrev pub after_taking : Env → ViewChangeMsg → ErrChan → World → Outcome (Unit {0})
after_taking e vc err w = (join_later_view e err >> check_view_quorum e vc err) (with_message vc w)

-- A view-change message is taken exactly if it is for the node's view or a later one, its pre-prepares are from
-- earlier views and lie strictly between the stable checkpoint and the end of the window above it, its prepare
-- certificates verify, its checkpoints are all for the stable checkpoint, and it is the first of its sender for its
-- view. Any other message leaves the node as it is.
pub recv_view_change-Takes :
    (e : Env) (vc : ViewChangeMsg) (err : ErrChan) (w : World)
    → (Takes e w vc × (recv_view_change e vc err w ≡ after_taking e vc err w))
      ⊎ ((¬ Takes e w vc) × (recv_view_change e vc err w ≡ done tt w))
unfolding recv_view_change ◌>>=◌ modify skip
recv_view_change-Takes e vc err w =
    let (sound, complete) = correct_view_change_iff e vc in
    elim (Bool-cases (
      ltb vc.view w.node.curren_view
      || not (correct_view_change e vc)
      || has (index_of vc) w.node.view_change_store)) [
        | inl refused ↦ inr (
          λ t. let a = t.not_old in let b = complete t.correct in let c = t.first in ground arith,
          rw refused refl,
        )
        | inr taken ↦ inl (
          record { not_old = ground arith; correct = sound (ground arith); first = ground arith },
          rw taken refl,
        )
      ]
