-- ===== src/Protocol/HighMark.antt =====
-- A proposal at the high watermark, and the view change.
use trebiz.Prelude.{
  ℕ, nat_key, ◌+◌, ◌^◌, ◌<◌, ◌≡◌, refl, inl, inr, List, [], Option, none, some, lookup, All,
  All-map, All-lookup, add32, arith, subst, ◌∙◌,
}
use trebiz.Messages.{MsgId, id_key, PrePrepareMsg}
use trebiz.Config.{Config, new_world}
use trebiz.Main.{Event, run}
use trebiz.Node.Env.{Env}
use trebiz.Node.State.{Node}
use trebiz.Node.Cert.{cert_of}
use trebiz.ViewChange.Send.{view_change_msg}
use trebiz.Messages.{ViewChangeMsg}
use trebiz.Node.State.{World}
use trebiz.Node.Monad.{ErrChan, done}
use trebiz.ViewChange.Receive.{recv_view_change}
use trebiz.ViewChange.Correct.{IsCorrect}
use trebiz.ViewChange.Taking.{recv_view_change-Takes}
use trebiz.ViewChange.Collect.{Held, cal_pq_set-collect, collect-found, collect-All, cert_of-stored}
use trebiz.Protocol.Filed.{IsFor, IsFiled, run-IsFiled}

too_high : (h k sn : ℕ) → h + k < 2 ^ 32 → sn ≡ h + k → sn < add32 h k → ⊥
too_high h k sn room at_mark below = omega arith

view_change_msg-low : (e : Env) (n : Node) → (view_change_msg e n).last_stable_ck ≡ n.h
unfolding view_change_msg
view_change_msg-low e n = refl

held : (id : MsgId) (o : Option PrePrepareMsg) → IsFor id o → Held (λ sn p. p.sn ≡ sn) id.sn o
held id none h = tt
held id (some p) h = h.0

-- The pre-prepares of the view-change message are under their sequence numbers.
view_change_msg-keyed :
    (e : Env) (n : Node)
    → IsFiled n.req_cert_store
    → All (λ p. p.1.sn ≡ p.0) (view_change_msg e n).pset
unfolding view_change_msg
view_change_msg-keyed e n f = rw (cal_pq_set-collect n.h n.req_cert_store [] []) (
    collect-All (λ c. c.pre_prepare_store) n.h (λ sn p. p.sn ≡ sn) n.req_cert_store []
      (All-map (λ p h. held p.0 p.1.pre_prepare_store h) n.req_cert_store f) tt)

view_change_msg-found :
    (e : Env) (n : Node) (id : MsgId) (p : PrePrepareMsg)
    → (cert_of n id).pre_prepare_store ≡ some p
    → n.h < id.sn
    → (q : PrePrepareMsg) × (lookup id.sn (view_change_msg e n).pset ≡ some q)
unfolding view_change_msg
view_change_msg-found e n id p has above =
    let (c, found, is_p) = cert_of-stored (λ c. c.pre_prepare_store) n id p refl has in
    rw (cal_pq_set-collect n.h n.req_cert_store [] [])
      (collect-found (λ c. c.pre_prepare_store) n.h n.req_cert_store id c p [] found is_p above)

refused :
    (e other : Env) (n : Node) (id : MsgId) (p : PrePrepareMsg)
    → IsFiled n.req_cert_store
    → (cert_of n id).pre_prepare_store ≡ some p
    → id.sn ≡ n.h + e.log_k
    → 0 < e.log_k
    → n.h + e.log_k < 2 ^ 32
    → other.log_k ≡ e.log_k
    → ¬ IsCorrect other (view_change_msg e n)
refused e other n id p filed has at_mark some_window room same_window ok =
    let vc = view_change_msg e n in
    let (q, found) = view_change_msg-found e n id p has (omega arith) in
    let q_sn : q.sn ≡ id.sn =
      All-lookup (λ sn r. r.sn ≡ sn) id.sn q vc.pset found (view_change_msg-keyed e n filed) in
    let bounds =
      All-lookup
        (λ _ r.
          (r.view < vc.view)
          × (vc.last_stable_ck < r.sn)
          × (r.sn < add32 vc.last_stable_ck other.log_k))
        id.sn q vc.pset found ok.pset_ok in
    too_high n.h e.log_k q.sn room (q_sn ∙ at_mark) (
      subst (λ k. q.sn < add32 n.h k) same_window
        (subst (λ l. q.sn < add32 l other.log_k) (view_change_msg-low e n) bounds.2))

ignored :
    (other : Env) (vc : ViewChangeMsg) (err : ErrChan) (w : World)
    → ¬ IsCorrect other vc
    → recv_view_change other vc err w ≡ done tt w
ignored other vc err w bad = elim (recv_view_change-Takes other vc err w) [
  | inl (taken, _) ↦ absurd (bad taken.correct)
  | inr (_, same) ↦ same
]

-- After any events in any order, starting from a new node: a node that keeps a proposal for a number at the
-- high watermark (which is in its window, where the window is not empty and does not pass the largest
-- `uint32`) makes a view-change message that no node with the same window size takes: the message leaves any such
-- node, in any state, as it is.
pub high_mark-refused :
    (e : Env) (conf : Config) (evs : List Event) (id : MsgId) (p : PrePrepareMsg) (other : Env)
    (err : ErrChan) (w : World)
    → (cert_of (run e (new_world conf) evs).node id).pre_prepare_store ≡ some p
    → id.sn ≡ (run e (new_world conf) evs).node.h + e.log_k
    → 0 < e.log_k
    → (run e (new_world conf) evs).node.h + e.log_k < 2 ^ 32
    → other.log_k ≡ e.log_k
    → recv_view_change other (view_change_msg e (run e (new_world conf) evs).node) err w ≡ done tt w
high_mark-refused e conf evs id p other err w has at_mark some_window room same_window =
    let n = (run e (new_world conf) evs).node in
    ignored other (view_change_msg e n) err w
      (refused e other n id p (run-IsFiled e conf evs) has at_mark some_window room same_window)
