-- ===== src/Normal/Voters.antt =====
-- A vote to prepare for a request that has no fast timer.
use trebiz.Prelude.{
  nat_key, ◌≡◌, ◌⊎◌, inl, inr, refl, none, true, false, lookup, has, not, ◌||◌, Bool-cases, arith,
}
use trebiz.Messages.{id_key, PrepareMsg}
use trebiz.Node.Env.{Env}
use trebiz.Node.State.{World}
use trebiz.Node.Monad.{Stop, done, halted, ◌>>=◌, after, skip}
use trebiz.Node.Cert.{cert_of, get_cert, modify_cert, in_watermarks}
use trebiz.Normal.Prepare.{handle_prepare_vote, handle_prepare_msg}

-- A vote that a node takes: its view is active, the number is in the window, and the vote is the first of its
-- sender that the node has for the number in its view.
pub record TakesVote (e : Env) (w : World) (pm : PrepareMsg) : Type 0 where
  pub active : w.node.active_view ≡ true
  pub in_window : in_watermarks e w.node.h pm.vote.sn ≡ true
  pub first :
      has pm.replica_id
        (cert_of w.node (record { sn = pm.vote.sn; view = w.node.curren_view })).pre_pare_store
      ≡ false

-- Where no fast timer runs or has run for the request of a vote, a node panics on the vote exactly if it takes it:
-- its view is active, the number is in the window, and the vote is the first of its sender. On any other vote it
-- ends without a panic.
pub handle_prepare_msg-panics :
    (e : Env) (pm : PrepareMsg) (w : World)
    → lookup (record { sn = pm.vote.sn; view = pm.vote.view }) w.node.prepare_timer ≡ none
    → (TakesVote e w pm
        × (handle_prepare_msg e pm w ≡ halted Stop.panicked (after (handle_prepare_msg e pm w))))
      ⊎ ((¬ TakesVote e w pm)
          × (handle_prepare_msg e pm w ≡ done tt (after (handle_prepare_msg e pm w))))
unfolding handle_prepare_msg handle_prepare_vote get_cert modify_cert ◌>>=◌ skip
handle_prepare_msg-panics e pm w no_timer =
    elim (Bool-cases (not w.node.active_view || not (in_watermarks e w.node.h pm.vote.sn))) [
      | inl passed ↦
          inr (λ t. let a = t.active in let b = t.in_window in ground arith, rw passed refl)
      | inr looked ↦
          elim (Bool-cases (
            has pm.replica_id
              (cert_of w.node
                (record { sn = pm.vote.sn; view = w.node.curren_view })).pre_pare_store)) [
                  | inl again ↦ inr (λ t. let a = t.first in cc, rw (looked, again) refl)
                  | inr new ↦ inl (
                    record { active = ground arith; in_window = ground arith; first = new },
                    rw (looked, new, no_timer) refl,
                  )
                ]
    ]
