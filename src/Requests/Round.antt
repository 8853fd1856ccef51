-- ===== src/Requests/Round.antt =====
-- A round of the request loop at the node that proposes.
use trebiz.Prelude.{
  ℕ, zero, suc, ◌≡◌, ◌∙◌, refl, sym, ap, List, [], ◌∷◌, ◌++◌, Bool, true, false, if◌then◌else◌,
  ◌==◌, ◌&&◌, length, nat_key,
}
use mathlib.Core.List.{append_assoc, append-nil}
use trebiz.Messages.{Bytes, Request}
use trebiz.Node.Env.{Env}
use trebiz.Node.State.{World, Node, Effect}
use trebiz.Node.Monad.{
  M, Outcome, done, halted, and_then, after, skip, read_node, modify, emit, ◌>>=◌,
}
use trebiz.Node.Cert.{primary}
use trebiz.Requests.{
  make_request, receive_new_request, receive_new_request_for_test, send_batch, handle_req_batch,
}
use trebiz.Requests.Pipeline.{pipeline, is_proposer, send_batch-pipeline}

-- Empty requests, as the node makes them for itself.
abbrev pub empty_requests : ℕ → List Request
empty_requests zero = []
empty_requests (suc n) = make_request [] ∷ empty_requests n

-- A node that proposes, with the requests that it had in `l` and some empty ones.
record IsKept (e : Env) (l : List Request) (w : World) : Type 0 where
  proposes : is_proposer e w ≡ true
  added : ℕ
  all_there : pipeline w ≡ l ++ empty_requests added

record Keeping {ℓ} (e : Env) {A : Type ℓ} (m : M A) : Type ℓ where
  at : (l : List Request) (w : World) → IsKept e l w → IsKept e l (after (m w))

snoc_empty : (n : ℕ) → empty_requests n ++ make_request [] ∷ [] ≡ empty_requests (suc n)
snoc_empty zero = refl
snoc_empty (suc n) = ap (λ l. make_request [] ∷ l) (snoc_empty n)

proposer_keeps : (P Q : Type 0) (b : Bool) → b ≡ true → (if b then P else Q) → P
proposer_keeps P Q true h p = p
proposer_keeps P Q false h q = absurd cc

emit_or_skip :
    (e : Env) (b : Bool) (x : Effect) (w : World)
    → is_proposer e (after ((if b then emit x else skip) w)) ≡ is_proposer e w
unfolding emit skip
emit_or_skip e true x w = refl
emit_or_skip e false x w = refl

send_batch-proposes :
    (e : Env) (w : World) → is_proposer e (after (send_batch e w)) ≡ is_proposer e w
unfolding send_batch ◌>>=◌
send_batch-proposes e w = emit_or_skip e (is_proposer e w) _ _

module _ (e : Env) where
  Keeping-skip : Keeping e skip
  unfolding skip
  Keeping-skip = record { at = λ l w k. k }

  Keeping-read_node : Keeping e read_node
  unfolding read_node
  Keeping-read_node = record { at = λ l w k. k }

  Keeping-if :
      (b : Bool) (m n : M (Unit {0})) → Keeping e m → Keeping e n → Keeping e (if b then m else n)
  Keeping-if true m n h k = h
  Keeping-if false m n h k = k

  and_then-IsKept {ℓ κ} :
      {A : Type ℓ} {B : Type κ} (l : List Request) (r : Outcome A) (f : A → M B)
      → IsKept e l (after r)
      → ((a : A) → Keeping e (f a))
      → IsKept e l (after (and_then r f))
  and_then-IsKept l (done a v) f h k = (k a).at l v h
  and_then-IsKept l (halted s v) f h k = h

  Keeping-bind {ℓ κ} :
      {A : Type ℓ} {B : Type κ} (m : M A) (f : A → M B)
      → Keeping e m
      → ((a : A) → Keeping e (f a))
      → Keeping e (m >>= f)
  unfolding ◌>>=◌
  Keeping-bind m f h k = record { at = λ l w i. and_then-IsKept l (m w) f (h.at l w i) k }

  Keeping-leader : (f : Node → Bytes) → Keeping e (modify λ n. record n { leader = f n })
  unfolding modify
  Keeping-leader f = record {
    at = λ l w k. record { proposes = k.proposes; added = k.added; all_there = k.all_there };
  }

  Keeping-send_batch : Keeping e (send_batch e)
  Keeping-send_batch = record {
    at = λ l w k. record {
      proposes = send_batch-proposes e w ∙ k.proposes;
      added = k.added;
      all_there =
          proposer_keeps _ _ (is_proposer e w) k.proposes (send_batch-pipeline e w) ∙ k.all_there;
    };
  }

  Keeping-receive : Keeping e (receive_new_request e [])
  unfolding receive_new_request ◌>>=◌
  Keeping-receive = record {
    at = λ l w k. record {
      proposes = k.proposes;
      added = suc k.added;
      all_there =
          sym (append_assoc _ w.node.batch_store _)
          ∙ ap (λ x. x ++ make_request [] ∷ []) k.all_there
          ∙ append_assoc l _ _
          ∙ ap (λ x. l ++ x) (snoc_empty k.added);
    };
  }

  Keeping-receive_for_test : (n : ℕ) → Keeping e (receive_new_request_for_test e n)
  unfolding receive_new_request_for_test
  Keeping-receive_for_test zero = Keeping-skip
  Keeping-receive_for_test (suc n) =
      Keeping-bind _ _ (Keeping-bind _ _ Keeping-receive (λ _. Keeping-skip))
        (λ _. Keeping-receive_for_test n)

  Keeping-handle_req_batch : (expired : Bool) → Keeping e (handle_req_batch e expired)
  unfolding handle_req_batch
  Keeping-handle_req_batch expired = Keeping-bind _ _ (Keeping-leader _) λ _.
      Keeping-bind _ _ Keeping-read_node λ n.
        Keeping-bind _ _ (Keeping-if _ _ _ Keeping-send_batch Keeping-skip) λ _.
          Keeping-bind _ _ Keeping-read_node λ m.
            Keeping-if expired _ _
              (Keeping-if (length m.batch_store == 0) _ _
                (Keeping-if (m.active_view && primary e m.curren_view == e.replica_id) _ _
                  (Keeping-receive_for_test e.batch_size) Keeping-skip)
                Keeping-send_batch)
              Keeping-skip

-- A round of the request loop at a node that proposes, whether or not the batch timer has run out: every request
-- of the node stays in its place, handed over for a proposal or waiting, and only empty requests of the
-- node's own come after them.
pub handle_req_batch-pipeline :
    (e : Env) (expired : Bool) (w : World)
    → is_proposer e w ≡ true
    → (n : ℕ) × (pipeline (after (handle_req_batch e expired w)) ≡ pipeline w ++ empty_requests n)
handle_req_batch-pipeline e expired w h =
    let kept =
      (Keeping-handle_req_batch e expired).at (pipeline w) w
        (record { proposes = h; added = 0; all_there = sym (append-nil _) }) in
    (kept.added, kept.all_there)
