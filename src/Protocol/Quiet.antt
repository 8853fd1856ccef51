-- ===== src/Protocol/Quiet.antt =====
-- Parts of the handlers that leave the abstract state alone: sending, timers, and making signatures.
use trebiz.Prelude.{ℕ, List, [], ◌∷◌, Option, none, some, Bool, true, false, Map, nat_key, has}
use trebiz.Messages.{Bytes, Payload, Message, MsgType, MsgId, PrepareQc}
use trebiz.Node.Env.{Env, PubPoly}
use trebiz.Node.State.{spawns, posts, stops_timer, resets_timer, Task}
use trebiz.Node.Monad.{M, ErrChan, emit, pure}
use trebiz.Node.Send.{
  report, send_each, keeps_silent, broadcast_encoded, broadcast, post_encoded, send_to_leader,
  create_threshold_sig,
}
use trebiz.Node.Timers.{start_timer, stop_timer}
use trebiz.Normal.Execute.{check_if_create_chkpt}
use trebiz.Normal.Commit.{create_commit_msg, create_commit_qc, send_commit_msg}
use trebiz.Protocol.Spec.{Core}
use trebiz.Protocol.Keeps.{
  Keeps, Keeps-skip, Keeps-pure, Keeps-bind, Keeps-if, Keeps-modify, Keeps-emit, Keeps-send_err,
  keeps_rules,
}

module _ {Q : Core → Type 0} where
  pub Keeps-spawns : (t : Task) → Keeps Q (emit (spawns t))
  Keeps-spawns t = Keeps-emit (spawns t) (λ w h. h)

  pub Keeps-report : (failed : Bool) (err : ErrChan) → Keeps Q (report failed err)
  Keeps-report true err = Keeps-send_err err
  Keeps-report false err = Keeps-skip

  pub Keeps-stop_timer : Keeps Q stop_timer
  unfolding stop_timer
  Keeps-stop_timer =
      Keeps-bind _ _ (Keeps-modify _ (λ w h. h)) (λ _. Keeps-emit stops_timer (λ w h. h))

  pub Keeps-start_timer : (t : ℕ) → Keeps Q (start_timer t)
  unfolding start_timer
  Keeps-start_timer t =
      Keeps-bind _ _ (Keeps-modify _ (λ w h. h)) (λ _. Keeps-emit (resets_timer t) (λ w h. h))

  pub Keeps-posts :
      (addr : Bytes) (ty : MsgType) (msg : Message) (sig : Bytes)
      → Keeps Q (emit (posts addr ty msg sig))
  Keeps-posts addr ty msg sig = Keeps-emit _ (λ w h. h)

module _ (e : Env) {Q : Core → Type 0} where
  Keeps-send_each :
      (addrs : Map ℕ Bytes) (exc : Map ℕ Bool) (ty : MsgType) (msg : Message) (sig : Bytes)
      → Keeps Q (send_each e addrs exc ty msg sig)
  unfolding send_each
  Keeps-send_each [] exc ty msg sig = Keeps-skip
  Keeps-send_each ((i, addr) ∷ rest) exc ty msg sig =
      Keeps-bind _ _ (Keeps-if (has i exc) _ _ (λ _. Keeps-skip) (λ _. Keeps-spawns _))
        (λ _. Keeps-send_each rest exc ty msg sig)

  Keeps-keeps_silent : Keeps Q (keeps_silent e)
  unfolding keeps_silent
  Keeps-keeps_silent = search keeps_rules

  Keeps-broadcast_encoded :
      (b : Option Bytes) (exc : Map ℕ Bool) (ty : MsgType) (msg : Message)
      → Keeps Q (broadcast_encoded e b exc ty msg)
  unfolding broadcast_encoded
  Keeps-broadcast_encoded none exc ty msg = Keeps-pure true
  Keeps-broadcast_encoded (some b) exc ty msg = search (keeps_rules, Keeps-send_each)

  pub Keeps-broadcast :
      (ty : MsgType) (msg : Message) (exc : Map ℕ Bool) → Keeps Q (broadcast e ty msg exc)
  unfolding broadcast
  Keeps-broadcast ty msg exc = search (keeps_rules, Keeps-keeps_silent, Keeps-broadcast_encoded)

  Keeps-post_encoded :
      (b : Option Bytes) (ty : MsgType) (msg : Message) (addr : Bytes)
      → Keeps Q (post_encoded e b ty msg addr)
  unfolding post_encoded
  Keeps-post_encoded none ty msg addr = Keeps-pure true
  Keeps-post_encoded (some b) ty msg addr = search (keeps_rules, Keeps-posts) depth 9

  pub Keeps-send_to_leader :
      (ty : MsgType) (msg : Message) (addr : Bytes) → Keeps Q (send_to_leader e ty msg addr)
  unfolding send_to_leader
  Keeps-send_to_leader ty msg addr = search (keeps_rules, Keeps-keeps_silent, Keeps-post_encoded)

  pub Keeps-check_if_create_chkpt : (sn : ℕ) → Keeps Q (check_if_create_chkpt e sn)
  unfolding check_if_create_chkpt
  Keeps-check_if_create_chkpt sn = search (keeps_rules, Keeps-spawns)

  threshold_encoded :
      (b : Option Bytes) (f : Bytes → M (Option Bytes))
      → ((x : Bytes) → Keeps Q (f x))
      → Keeps {A = Option Bytes} Q (elim b [ none ↦ pure none | some x ↦ f x ])
  threshold_encoded none f h = Keeps-pure none
  threshold_encoded (some x) f h = h x

  pub Keeps-create_threshold_sig :
      (msg : Payload) (sigs : List Bytes) (key : PubPoly) (t n : ℕ)
      → Keeps Q (create_threshold_sig e msg sigs key t n)
  unfolding create_threshold_sig
  Keeps-create_threshold_sig msg sigs key t n =
      threshold_encoded (e.encode msg) _ (λ x. search keeps_rules)

  pub Keeps-create_commit_msg : (q : PrepareQc) → Keeps Q (create_commit_msg e q)
  unfolding create_commit_msg
  Keeps-create_commit_msg q = search keeps_rules depth 9

  pub Keeps-send_commit_msg : (q : PrepareQc) (err : ErrChan) → Keeps Q (send_commit_msg e q err)
  unfolding send_commit_msg
  Keeps-send_commit_msg q err =
      search (keeps_rules, Keeps-create_commit_msg, Keeps-send_to_leader, Keeps-report)

  pub Keeps-create_commit_qc : (id : MsgId) (q : PrepareQc) → Keeps Q (create_commit_qc e id q)
  unfolding create_commit_qc
  Keeps-create_commit_qc id q = search (keeps_rules, Keeps-create_threshold_sig) depth 9
