-- ===== src/Requests/Pipeline.antt =====
-- What becomes of the requests in the pool.
use trebiz.Prelude.{
  ℕ, ◌-◌, ◌≡◌, ◌∙◌, refl, subst, ap, List, [], ◌∷◌, ◌++◌, Bool, true, false, ◌&&◌, ◌==◌, length,
  take, drop, take-append-drop, length-drop, ltb, if◌then◌else◌, arith,
}
use mathlib.Core.List.{append_assoc}
use trebiz.Messages.{Request}
use trebiz.Node.Env.{Env}
use trebiz.Node.State.{
  Effect, checkpoint_task, check_prepared_task, propose_task, send_task, spawns, posts,
  starts_fast_timer, stops_timer, resets_timer, soft_resets_timer, executes, signs, World,
}
use trebiz.Node.Monad.{◌>>=◌, after, emit, skip}
use trebiz.Node.Cert.{primary}
use trebiz.Requests.{send_batch}

abbrev pub batch_of : Effect → List Request
batch_of (spawns (propose_task b)) = b.batch
batch_of (spawns (checkpoint_task sn)) = []
batch_of (spawns (check_prepared_task id)) = []
batch_of (spawns (send_task i a ty m sig)) = []
batch_of (posts a ty m sig) = []
batch_of (starts_fast_timer id b) = []
batch_of stops_timer = []
batch_of (resets_timer t) = []
batch_of (soft_resets_timer t) = []
batch_of (signs v) = []
batch_of (executes sn id) = []

-- The requests handed over for a proposal, in that order, from effects that begin with the newest.
abbrev pub handed_over : List Effect → List Request
handed_over [] = []
handed_over (x ∷ rest) = handed_over rest ++ batch_of x

-- All requests of a node: those that it handed over, and those that wait.
abbrev pub pipeline : World → List Request
pipeline w = handed_over w.out ++ w.node.batch_store

-- Whether a node proposes.
abbrev pub is_proposer : Env → World → Bool
is_proposer e w = w.node.active_view && primary e w.node.curren_view == e.replica_id

-- The first `k` requests leave the pool, and are handed over or not.
abbrev with_pool : World → List Request → World
with_pool w pool = record w { node = record w.node { batch_store = pool } }

hand_over-pipeline :
    (b : Bool) (k : ℕ) (w : World)
    → let pool = w.node.batch_store in
      let w' = after (
        (if b then emit (spawns (propose_task (record { batch = take k pool }))) else skip)
          (with_pool w (drop k pool))) in
      if b
      then pipeline w' ≡ pipeline w
      else (w'.out ≡ w.out) × (length w'.node.batch_store ≡ length pool - k)
unfolding emit skip
hand_over-pipeline true k w =
    append_assoc (handed_over w.out) _ _
    ∙ ap (λ l. handed_over w.out ++ l) (take-append-drop k w.node.batch_store)
hand_over-pipeline false k w = (refl, length-drop k w.node.batch_store)

smaller : (m n : ℕ) → m - (if ltb m n then m else n) ≡ m - n
smaller m n = ground arith

-- A round of the batch at a node. If it proposes, every request stays in its place, handed over or waiting.
-- If not, nothing is handed over, and a batch of requests leaves the pool for good.
pub send_batch-pipeline :
    (e : Env) (w : World)
    → let w' = after (send_batch e w) in
      if is_proposer e w
      then pipeline w' ≡ pipeline w
      else (w'.out ≡ w.out)
        × (length w'.node.batch_store ≡ length w.node.batch_store - e.batch_size)
unfolding send_batch ◌>>=◌
send_batch-pipeline e w =
    subst
      (λ k.
        let w' = after (send_batch e w) in
        if is_proposer e w
        then pipeline w' ≡ pipeline w
        else (w'.out ≡ w.out) × (length w'.node.batch_store ≡ k))
      (smaller (length w.node.batch_store) e.batch_size)
      (hand_over-pipeline (is_proposer e w)
        (if ltb (length w.node.batch_store) e.batch_size
          then length w.node.batch_store
          else e.batch_size)
        w)
