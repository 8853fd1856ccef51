-- ===== src/Normal/Fuel.antt =====
-- The loop of `executeRequest` ends.
use trebiz.Prelude.{
  ℕ, zero, suc, nat_key, ◌+◌, ◌^◌, ◌≤◌, ◌<◌, ◌≡◌, refl, List, [], ◌∷◌, Bool, true, false, Map, has,
  lookup, insert, length, All, if◌then◌else◌, ◌==◌, ◌&&◌, add32, sub32, arith, ltb, ltb→lt,
  Bool-cases, subst, length-insert, inl, inr,
}
use trebiz.Messages.{MsgId, id_key}
use trebiz.Node.Env.{Env}
use trebiz.Node.State.{World}
use trebiz.Node.Monad.{
  M, Outcome, done, halted, panicked, blocked, starved, ErrChan, and_then, skip, ◌>>=◌, ◌>>◌,
}
use trebiz.Node.Cert.{get_cert, cert_of}
use trebiz.Normal.Execute.{is_buffered, execute_next, execute_loop, execute_request}
use trebiz.Normal.Steady.{is_starved, IsSteady, Steady-execute_next}

-- How often a number is in a list, and how often all keys of a map are.
abbrev hits : ℕ → List ℕ → ℕ
hits b [] = 0
hits b (k ∷ ks) = (if b == k then 1 else 0) + hits b ks

abbrev total {ℓ} : {V : Type ℓ} → Map ℕ V → List ℕ → ℕ
total [] ks = 0
total ((b, v) ∷ m) ks = hits b ks + total m ks

module _ {ℓ} {V : Type ℓ} where
  total-more : (m : Map ℕ V) (k : ℕ) (ks : List ℕ) → total m ks ≤ total m (k ∷ ks)
  total-more [] k ks = omega arith
  total-more ((b, v) ∷ m) k ks = ground (arith, total-more m k ks)

  total-has : (m : Map ℕ V) (k : ℕ) (ks : List ℕ) → has k m ≡ true → total m ks < total m (k ∷ ks)
  unfolding lookup
  total-has [] k ks h = absurd cc
  total-has ((b, v) ∷ m) k ks h = ground (arith, total-more m k ks, total-has m k ks)

  length-le-total :
      (m : Map ℕ V) (ks : List ℕ) → All (λ k. has k m ≡ true) ks → length ks ≤ total m ks
  length-le-total m [] h = omega arith
  length-le-total m (k ∷ ks) h = omega (arith, total-has m k ks h.0, length-le-total m ks h.1)

  total-le-length : (m : Map ℕ V) (ks : List ℕ) → ((b : ℕ) → hits b ks ≤ 1) → total m ks ≤ length m
  total-le-length [] ks h = omega arith
  total-le-length ((b, v) ∷ m) ks h = omega (arith, h b, total-le-length m ks h)

-- The numbers from `i` on, as `uint32` counts.
abbrev from : ℕ → ℕ → List ℕ
from zero i = []
from (suc n) i = i ∷ from n (add32 i 1)

length-from : (n i : ℕ) → length (from n i) ≡ n
length-from zero i = refl
length-from (suc n) i = omega (arith, length-from n (add32 i 1))

hits-from_large : (b n i : ℕ) → 2 ^ 32 ≤ b → i < 2 ^ 32 → hits b (from n i) ≡ 0
hits-from_large b zero i large word = refl
hits-from_large b (suc n) i large word =
    ground (arith, hits-from_large b n (add32 i 1) large (omega arith))

hits-from_word :
    (b n i : ℕ)
    → b < 2 ^ 32
    → i < 2 ^ 32
    → n ≤ 2 ^ 32
    → hits b (from n i) ≤ (if ltb (sub32 b i) n then 1 else 0)
hits-from_word b zero i word word' room = ground arith
hits-from_word b (suc n) i word word' room =
    ground (arith, hits-from_word b n (add32 i 1) word (omega arith) (omega arith))

hits-from : (b n i : ℕ) → i < 2 ^ 32 → n ≤ 2 ^ 32 → hits b (from n i) ≤ 1
hits-from b n i word room = elim (Bool-cases (ltb b (2 ^ 32))) [
  | inl small ↦ ground (arith, hits-from_word b n i (ltb→lt b (2 ^ 32) small) word room)
  | inr large ↦ ground (arith, hits-from_large b n i (ground arith) word)
]

-- Consecutive keys of a map are at most as many as its entries.
from-le-length {ℓ} :
    {V : Type ℓ} (m : Map ℕ V) (n i : ℕ)
    → i < 2 ^ 32
    → n ≤ 2 ^ 32
    → All (λ k. has k m ≡ true) (from n i)
    → n ≤ length m
from-le-length m n i word room all = omega (
  arith,
  length-from n i,
  length-le-total m (from n i) all,
  total-le-length m (from n i) (λ b. hits-from b n i word room),
)

and_then-starved :
    (r : Outcome (Unit {0})) (k : M (Unit {0})) (w : World)
    → is_starved (and_then r (λ _. k)) ≡ true
    → IsSteady w r
    → (v : World) × (v.node.exec_req_buffer ≡ w.node.exec_req_buffer) × (is_starved (k v) ≡ true)
and_then-starved (done a v) k w h s = (v, s.same, h)
and_then-starved (halted panicked v) k w h s = absurd cc
and_then-starved (halted blocked v) k w h s = absurd cc
and_then-starved (halted starved v) k w h s = absurd cc

-- A round of a loop that runs out of fuel found its number and went on.
round-starved :
    (b : Bool) (m k : M (Unit {0})) (w : World)
    → is_starved ((if b then m >> k else skip) w) ≡ true
    → IsSteady w (m w)
    → (b ≡ true)
      × ((v : World) × (v.node.exec_req_buffer ≡ w.node.exec_req_buffer)
          × (is_starved (k v) ≡ true))
unfolding skip ◌>>=◌
round-starved true m k w h s = (refl, and_then-starved (m w) k w h s)
round-starved false m k w h s = absurd cc

and-left : (a b : Bool) → (a && b) ≡ true → a ≡ true
and-left a b h = ground arith

-- A loop that runs out of fuel has found all its numbers in the buffer.
module _ (e : Env) (err : ErrChan) where
  execute_loop-starved :
      (fuel i : ℕ) (w : World)
      → is_starved (execute_loop e fuel i err w) ≡ true
      → All (λ k. has k w.node.exec_req_buffer ≡ true) (from fuel i)
  unfolding execute_loop ◌>>=◌
  execute_loop-starved zero i w h = tt
  execute_loop-starved (suc fuel) i w h =
      let (found, (v, same, later)) =
        round-starved (is_buffered w.node i) (execute_next e i err)
          (execute_loop e fuel (add32 i 1) err) w h ((Steady-execute_next e i err).at w) in
      (
        and-left _ _ found,
        subst (λ m. All (λ k. has k m ≡ true) (from fuel (add32 i 1))) same
            (execute_loop-starved fuel (add32 i 1) v later),
      )

  loop-fed :
      (w : World) (i : ℕ)
      → i < 2 ^ 32
      → length w.node.exec_req_buffer < 2 ^ 32
      → is_starved (execute_loop e (suc (length w.node.exec_req_buffer)) i err w) ≡ false
  loop-fed w i word room =
      elim (Bool-cases
        (is_starved (execute_loop e (suc (length w.node.exec_req_buffer)) i err w))) [
          | inr fed ↦ fed
          | inl out ↦
              let too_many =
                from-le-length w.node.exec_req_buffer (suc (length w.node.exec_req_buffer)) i word
                  (omega arith) (execute_loop-starved _ i w out) in
              absurd (omega arith)
        ]

if_fed :
    (b : Bool) (m : M (Unit {0})) (w : World)
    → is_starved (m w) ≡ false
    → is_starved ((if b then m else skip) w) ≡ false
unfolding skip
if_fed true m w h = h
if_fed false m w h = refl

length-insert-le {ℓ} :
    {V : Type ℓ} (a : ℕ) (v : V) (m : Map ℕ V) → length (insert a v m) ≤ length m + 1
length-insert-le a v m = ground (arith, length-insert a v m)

-- The execution loop ends: where the buffer has fewer entries than there are numbers above 0, executing a
-- request never runs out of fuel.
pub execute_request-ends :
    (e : Env) (id : MsgId) (err : ErrChan) (w : World)
    → length w.node.exec_req_buffer + 1 < 2 ^ 32
    → is_starved (execute_request e id err w) ≡ false
unfolding execute_request get_cert ◌>>=◌
execute_request-ends e id err w room = if_fed (ltb w.node.last_exec id.sn) _ _ (
    loop-fed e err _ (add32 w.node.last_exec 1) (omega arith) (
      omega (
        arith,
        length-insert-le id.sn (cert_of w.node id).req_batch_digest w.node.exec_req_buffer,
      )))
