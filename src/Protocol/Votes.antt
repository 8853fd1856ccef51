-- ===== src/Protocol/Votes.antt =====
-- What a node signs.
use trebiz.Prelude.{◌≡◌, ◌≢◌, ◌∙◌, refl, sym, List, length, All, All-map, All-Memᴰ, Memᴰ, ap}
use trebiz.Messages.{MsgId, id_key, VoteForPrepare, contents}
use trebiz.Config.{Config, new_world}
use trebiz.Main.{Event, run}
use trebiz.Node.Env.{Env}
use trebiz.Protocol.Spec.{
  Core, core, cert_at, signed_votes, Step, opens, changes, queues, buffers, executes_next,
  signs_vote, moves_low, goes_before, leaves_view, enters_view, stores_checkpoint, notes_ask,
  notes_new_view, makes_new_view,
}
use trebiz.Protocol.Refines.{run-closed}
use trebiz.Protocol.Loyalty.{Step-HasDigest}

-- The request that a vote is for.
abbrev pub voted_id : VoteForPrepare → MsgId
voted_id v = record { sn = v.sn; view = v.view }

-- A vote for a digest is backed by the certificate of its request.
abbrev IsHeld : Core → VoteForPrepare → Type 0
IsHeld s v =
    length (contents v.batch_hash) ≢ 0
    → contents (cert_at s (voted_id v)).req_batch_digest ≡ contents v.batch_hash

module _ (e : Env) where
  Step-IsHeld : {s t : Core} → Step e s t → (v : VoteForPrepare) → IsHeld s v → IsHeld t v
  Step-IsHeld st v h some_digest =
      Step-HasDigest e (voted_id v) (contents v.batch_hash) some_digest st (h some_digest)

  still-IsHeld : {s t : Core} → Step e s t → All (IsHeld s) s.ballots → All (IsHeld t) s.ballots
  still-IsHeld {s = s} st h = All-map (Step-IsHeld st) s.ballots h

  Step-ballots : {s t : Core} → Step e s t → All (IsHeld s) s.ballots → All (IsHeld t) t.ballots
  Step-ballots (signs_vote s sn) h = (λ _. refl, still-IsHeld (signs_vote s sn) h)
  Step-ballots (opens s id n) h = still-IsHeld (opens s id n) h
  Step-ballots (changes s id c st) h = still-IsHeld (changes s id c st) h
  Step-ballots (queues s id c) h = still-IsHeld (queues s id c) h
  Step-ballots (buffers s id c) h = still-IsHeld (buffers s id c) h
  Step-ballots (executes_next s x c) h = still-IsHeld (executes_next s x c) h
  Step-ballots (moves_low s sn c) h = still-IsHeld (moves_low s sn c) h
  Step-ballots (goes_before s v c) h = still-IsHeld (goes_before s v c) h
  Step-ballots (leaves_view s) h = still-IsHeld (leaves_view s) h
  Step-ballots (enters_view s c) h = still-IsHeld (enters_view s c) h
  Step-ballots (stores_checkpoint s x c) h = still-IsHeld (stores_checkpoint s x c) h
  Step-ballots (notes_ask s x c) h = still-IsHeld (notes_ask s x c) h
  Step-ballots (notes_new_view s x c) h = still-IsHeld (notes_new_view s x c) h
  Step-ballots (makes_new_view s x c) h = still-IsHeld (makes_new_view s x c) h

new_world-IsHeld :
    (conf : Config) → All (IsHeld (core (new_world conf))) (core (new_world conf)).ballots
unfolding new_world
new_world-IsHeld conf = tt

-- A node that signs two votes for the same sequence number and view signs them for the same digest, if neither
-- digest is empty: after any events in any order, starting from a new node.
pub votes_agree :
    (e : Env) (conf : Config) (evs : List Event) (v u : VoteForPrepare)
    → Memᴰ v (signed_votes (run e (new_world conf) evs).out)
    → Memᴰ u (signed_votes (run e (new_world conf) evs).out)
    → v.sn ≡ u.sn
    → v.view ≡ u.view
    → length (contents v.batch_hash) ≢ 0
    → length (contents u.batch_hash) ≢ 0
    → contents v.batch_hash ≡ contents u.batch_hash
votes_agree e conf evs v u v_signed u_signed same_sn same_view v_digest u_digest =
    let end = core (run e (new_world conf) evs) in
    let held =
      run-closed e {Q = λ s. All (IsHeld s) s.ballots} (record { at = Step-ballots e })
        (new_world conf) evs (new_world-IsHeld conf) in
    let v_held = All-Memᴰ _ v_signed held v_digest in
    let u_held = All-Memᴰ _ u_signed held u_digest in
    let same : voted_id v ≡ voted_id u = cc in
    sym v_held ∙ ap (λ id. contents (cert_at end id).req_batch_digest) same ∙ u_held
