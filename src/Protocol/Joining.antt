-- ===== src/Protocol/Joining.antt =====
-- A later view is joined by steps of the protocol.
use trebiz.Prelude.{
  ℕ, refl, ◌≤◌, inl, inr, sym, subst, ◌≢◌, ◌<◌, ◌+◌, [], ◌∷◌, Bool, true, Map, ◌||◌, ◌==◌, ltb, leb,
  length, insert, nat_key, bytes_key, sub32, if◌then◌else◌, arith,
}
use trebiz.Messages.{checkpoint_key, Vcidx, vcidx_key, ViewChangeMsg}
use trebiz.Node.Env.{Env}
use trebiz.Node.State.{World}
use trebiz.Node.Monad.{after, ErrChan, ◌>>=◌, modify, skip}
use trebiz.ViewChange.Send.{send_view_change}
use trebiz.ViewChange.Taking.{Takes, with_message, after_taking, recv_view_change-Takes}
use trebiz.ViewChange.Receive.{
  later_replicas, min_view, join_later_view, check_view_quorum, recv_view_change,
}
use trebiz.Protocol.Spec.{Core, core, IsClosed, IsAsked, goes_before, notes_ask}
use trebiz.Protocol.Keeps.{Keeps, Keeps-bind, keeps_rules, if_at}
use trebiz.Protocol.Accepting.{Keeps-leave}
use trebiz.Protocol.Entering.{Keeps-send_new_view}

-- One round of the loop for the smallest view.
abbrev next_least : ℕ → ℕ → ℕ → ℕ
next_least view v least =
    if leb v view then least else if least == 0 || ltb v least then v else least

next_least-later :
    (view v least : ℕ)
    → (least ≢ 0 → view < least)
    → next_least view v least ≢ 0
    → view < next_least view v least
next_least-later view v least h n = ground arith

next_least-first :
    (view : ℕ) (idx : Vcidx) (least : ℕ) (seen : Map ℕ Bool)
    → (least ≢ 0 → view < least)
    → (0 < length seen → view < least)
    → 0 < length (if leb idx.view view then seen else insert idx.replica_id true seen)
    → view < next_least view idx.view least
next_least-first view idx least seen h k p = ground arith

-- Replicas in later views leave a smallest later view.
min_view-later :
    (view : ℕ) (m : Map Vcidx ViewChangeMsg) (seen : Map ℕ Bool) (least : ℕ)
    → (least ≢ 0 → view < least)
    → (0 < length seen → view < least)
    → 0 < length (later_replicas view m seen)
    → view < min_view view m least
unfolding later_replicas min_view
min_view-later view [] seen least h k p = k p
min_view-later view ((idx, vc) ∷ rest) seen least h k p =
    min_view-later view rest _ _ (next_least-later view idx.view least h)
      (λ q. next_least-first view idx least seen h k q) p

module _ (e : Env) {Q : Core → Type 0} (closed : IsClosed e Q) where
  join-step :
      (w : World) (err : ErrChan)
      → e.f + 1 ≤ length (later_replicas w.node.curren_view w.node.view_change_store [])
      → Q (core w)
      → Q (
          core (
            after (
              send_view_change e err (record w {
                node = record w.node {
                  curren_view = sub32 (min_view w.node.curren_view w.node.view_change_store 0) 1;
                };
              }))))
  join-step w err p q = (Keeps-leave e closed err).at _ (
      closed.at
        (goes_before (core w) _ (record {
          later =
              min_view-later w.node.curren_view w.node.view_change_store [] 0 (λ n. absurd (n refl))
                (λ h. elim h [ ]) (omega (arith, p));
          enough = p;
          smallest = refl;
        }))
        q)

  Keeps-join_later_view : (err : ErrChan) → Keeps Q (join_later_view e err)
  unfolding join_later_view modify ◌>>=◌
  Keeps-join_later_view err = record {
    at = λ w q.
        if_at Q
          (leb (e.f + 1) (length (later_replicas w.node.curren_view w.node.view_change_store []))) _
          skip w (λ enough. join-step w err (ground arith) q) (λ _. q);
  }

  Keeps-check_view_quorum :
      (vc : ViewChangeMsg) (err : ErrChan) → Keeps Q (check_view_quorum e vc err)
  unfolding check_view_quorum
  Keeps-check_view_quorum vc err = search (keeps_rules, Keeps-send_new_view e closed)

  -- A message that is taken is noted.
  taken-step :
      (vc : ViewChangeMsg) (err : ErrChan) (w : World)
      → Takes e w vc
      → Q (core w)
      → Q (core (after (after_taking e vc err w)))
  unfolding ◌>>=◌
  taken-step vc err w taken q =
      let asked : IsAsked e (core w) vc = record {
        not_old = taken.not_old;
        correct = taken.correct;
        first = taken.first;
      } in
      (Keeps-bind (join_later_view e err) (λ _. check_view_quorum e vc err)
          (Keeps-join_later_view err) (λ _. Keeps-check_view_quorum vc err)).at
        (with_message vc w) (closed.at (notes_ask (core w) vc asked) q)

  pub Keeps-recv_view_change :
      (vc : ViewChangeMsg) (err : ErrChan) → Keeps Q (recv_view_change e vc err)
  Keeps-recv_view_change vc err = record {
    at = λ w q. elim (recv_view_change-Takes e vc err w) [
      | inl (taken, same) ↦ subst (λ r. Q (core (after r))) (sym same) (taken-step vc err w taken q)
      | inr (_, same) ↦ subst (λ r. Q (core (after r))) (sym same) q
    ];
  }
