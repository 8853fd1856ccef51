-- ===== src/Protocol/Order.antt =====
-- In which order a node executes requests.
use trebiz.Prelude.{
  ℕ, zero, suc, ◌≡◌, refl, ◌∙◌, All, List, [], ◌∷◌, map, length, u32, add32, arith,
}
use trebiz.Config.{Config, new_world}
use trebiz.Main.{Event, run}
use trebiz.Node.Env.{Env}
use trebiz.Protocol.Spec.{
  HasCertificate, cert_at, Core, core, exec_log, Step, opens, changes, queues, buffers,
  executes_next, signs_vote, moves_low, goes_before, leaves_view, enters_view, stores_checkpoint,
  notes_ask, notes_new_view, makes_new_view,
}
use trebiz.Messages.{MsgId}
use trebiz.Protocol.Safety.{executed-HasCertificate}
use trebiz.Protocol.Refines.{run-closed}

-- The sequence numbers from `n` down to 1, as `uint32` holds them.
abbrev pub countdown : ℕ → List ℕ
countdown zero = []
countdown (suc n) = u32 (suc n) ∷ countdown n

add32_counted : (l n : ℕ) → l ≡ u32 n → add32 l 1 ≡ u32 (suc n)
add32_counted l n h = omega arith

module _ (e : Env) where
  -- The log is what was executed so far, and the last number is that of its newest entry.
  record IsOrdered (s : Core) : Type 0 where
    counted : s.last_exec ≡ u32 (length s.log)
    ordered : map (λ p. p.0) s.log ≡ countdown (length s.log)

  Step-IsOrdered : {s t : Core} → Step e s t → IsOrdered s → IsOrdered t
  Step-IsOrdered (executes_next s d h) o =
      let next = add32_counted s.last_exec (length s.log) o.counted in
      record { counted = next; ordered = rw (next, o.ordered) }
  Step-IsOrdered (opens s id h) o = record { counted = o.counted; ordered = o.ordered }
  Step-IsOrdered (changes s id c st) o = record { counted = o.counted; ordered = o.ordered }
  Step-IsOrdered (queues s id h) o = record { counted = o.counted; ordered = o.ordered }
  Step-IsOrdered (buffers s id h) o = record { counted = o.counted; ordered = o.ordered }
  Step-IsOrdered (signs_vote s sn) o = record { counted = o.counted; ordered = o.ordered }
  Step-IsOrdered (moves_low s sn h) o = record { counted = o.counted; ordered = o.ordered }
  Step-IsOrdered (goes_before s v h) o = record { counted = o.counted; ordered = o.ordered }
  Step-IsOrdered (leaves_view s) o = record { counted = o.counted; ordered = o.ordered }
  Step-IsOrdered (enters_view s h) o = record { counted = o.counted; ordered = o.ordered }
  Step-IsOrdered (stores_checkpoint s x h) o = record { counted = o.counted; ordered = o.ordered }
  Step-IsOrdered (notes_ask s x h) o = record { counted = o.counted; ordered = o.ordered }
  Step-IsOrdered (notes_new_view s x h) o = record { counted = o.counted; ordered = o.ordered }
  Step-IsOrdered (makes_new_view s x h) o = record { counted = o.counted; ordered = o.ordered }

  new_world-IsOrdered : (conf : Config) → IsOrdered (core (new_world conf))
  unfolding new_world
  new_world-IsOrdered conf = record { counted = refl; ordered = refl }

-- Requests that carry the numbers they were executed under.
own_numbers :
    (P : MsgId → Type 0) (log : List (ℕ × MsgId))
    → All (λ p. (p.1.sn ≡ p.0) × P p.1) log
    → map (λ p. p.1.sn) log ≡ map (λ p. p.0) log
own_numbers P [] h = refl
own_numbers P ((sn, id) ∷ log) h = rw (h.0.0, own_numbers P log h.1)

-- After any events in any order, starting from a new node, the sequence numbers that the executed requests have
-- themselves, the newest first, are the numbers from how many there are down to 1, as `uint32` holds them: the node
-- executes the requests in the order of their sequence numbers and without a gap. The log has them under these
-- numbers too.
pub executed_in_order :
    (e : Env) (conf : Config) (evs : List Event)
    → let log = exec_log (run e (new_world conf) evs).out in
      (map (λ p. p.1.sn) log ≡ countdown (length log))
      × (map (λ p. p.0) log ≡ countdown (length log))
executed_in_order e conf evs =
    let o =
      (run-closed e (record { at = Step-IsOrdered e }) (new_world conf) evs
        (new_world-IsOrdered e conf)).ordered in
    let own =
      own_numbers (λ id. HasCertificate e id (cert_at (core (run e (new_world conf) evs)) id))
        (exec_log (run e (new_world conf) evs).out) (executed-HasCertificate e conf evs) in
    (own ∙ o, o)
