-- ===== src/Examples/Replicas.antt =====
-- A cluster of four replicas whose replica 0 is faulty, and what the others execute.
use trebiz.Prelude.{
  ℕ, ◌≤◌, ◌∙◌, ap, zero, suc, ◌≡◌, ◌≢◌, refl, sym, subst, List, [], ◌∷◌, Option, none, some, Bool,
  true, false, ◌&&◌, same_bytes, same_bytes_iff, arith, Memᴰ, lookup, insert, length,
}
use mathlib.Core.List.Memᴰ.{head}
use trebiz.Messages.{contents, Bytes, Payload, VoteForPrepare, pre_prepare, fast_prepare_qc}
use trebiz.Sign.{verify_sign_ed, verify_ts, sign_ts_partial, sign_with_prikey}
use trebiz.Main.{Event, rpc, task, run}
use trebiz.Config.{Config, new_settings, new_world}
use trebiz.Node.Env.{Env, Crypto}
use trebiz.Node.State.{check_prepared_task, MsgCert, empty_cert}
use trebiz.Node.Monad.{◌>>=◌}
use trebiz.Node.Cert.{cert_of, get_cert, modify_cert, primary, in_watermarks}
use trebiz.Node.Send.{verify_rsa_signature, verify_threshold_sig, send_to_leader, address}
use trebiz.Normal.Prepare.{check_if_prepared, send_prepare_msg, create_prepare_msg}
use trebiz.Normal.PrePrepare.{handle_pre_prepare_msg}
use trebiz.Normal.Certificates.{handle_fast_prepare_qc}
use trebiz.Normal.Execute.{
  execute_request, execute_loop, execute_next, execute_cert, after_execution,
}
use trebiz.Protocol.Spec.{exec_log, signed_votes}
use trebiz.Protocol.Votes.{votes_agree}
use trebiz.Protocol.Agreement.{
  Cluster, world_of, IsBacked, IsUnforgeable, Certifies, by_prepare, by_fast, certificates_agree,
  executed_agree,
}
use trebiz.Examples.Setting.{conf, crypto, outside, proposal, fast_qc, id_of, good}

abbrev hash_text : Option Bytes → Bytes
hash_text none = 0 ∷ []
hash_text (some b) = 1 ∷ b

-- Votes have different texts.
abbrev encode_vote : Payload → Option Bytes
encode_vote (Payload.vote v) = some (v.sn ∷ v.view ∷ hash_text v.batch_hash)
encode_vote _ = some (0 ∷ [])

abbrev the_vote : VoteForPrepare
the_vote = record { sn = 1; batch_hash = some (1 ∷ []); view = 0 }

-- One text has a threshold signature.
abbrev one_vote : Crypto
one_vote = record crypto {
  encode = encode_vote;
  bls_verify = λ key b sig. same_bytes b (1 ∷ 0 ∷ 1 ∷ 1 ∷ []) && same_bytes sig good;
}

abbrev conf_of : ℕ → Config
conf_of i = record conf { replica_id = i }

unfoldable env_of : ℕ → Env
unfolding new_settings
env_of i = record { settings = new_settings (conf_of i); crypto = one_vote; outside = outside }

abbrev one_request : List Event
one_request =
    rpc (pre_prepare (proposal 1)) good
    ∷ rpc (fast_prepare_qc (fast_qc 1)) good
    ∷ task (check_prepared_task (id_of 1))
    ∷ []

abbrev some_events : ℕ → List Event
some_events zero = []
some_events (suc _) = one_request

abbrev is_zero : ℕ → Bool
is_zero zero = true
is_zero (suc _) = false

abbrev is_positive : ℕ → Bool
is_positive zero = false
is_positive (suc _) = true

abbrev number : ℕ → ℕ
number zero = 0
number (suc zero) = 1
number (suc (suc zero)) = 2
number (suc (suc (suc _))) = 3

abbrev cluster : Cluster
cluster = record {
  size = 4;
  env = λ i. env_of (number i);
  conf = λ i. conf_of (number i);
  events = some_events;
  faulty = is_zero;
}

hash_text-eq : (o : Option Bytes) → hash_text o ≡ 1 ∷ 1 ∷ [] → o ≡ some (1 ∷ [])
hash_text-eq none h = cc
hash_text-eq (some b) h = cc

and-left : (a b : Bool) → (a && b) ≡ true → a ≡ true
and-left a b h = ground arith

same_vote :
    (v : VoteForPrepare)
    → v.sn ∷ v.view ∷ hash_text v.batch_hash ≡ 1 ∷ 0 ∷ 1 ∷ 1 ∷ []
    → the_vote ≡ v
same_vote v text =
    let sn_eq : v.sn ≡ 1 = cc in
    let view_eq : v.view ≡ 0 = cc in
    let hash_eq : v.batch_hash ≡ some (1 ∷ []) = hash_text-eq v.batch_hash (cc) in
    rw (sn_eq, view_eq, hash_eq)

only_vote :
    (i : ℕ) (v : VoteForPrepare) (sig : Bytes)
    → verify_threshold_sig (env_of i) (Payload.vote v) (env_of i).ts_pub_key sig ≡ true
    → the_vote ≡ v
unfolding env_of verify_threshold_sig verify_ts
only_vote i v sig h =
    let text : v.sn ∷ v.view ∷ hash_text v.batch_hash ≡ 1 ∷ 0 ∷ 1 ∷ 1 ∷ [] =
      (same_bytes_iff _ _).0 (and-left _ (same_bytes sig good) h) in
    same_vote v text

voted_by : (j : ℕ) → is_positive j ≡ true → Memᴰ the_vote (signed_votes (world_of cluster j).out)
unfolding env_of new_world run ◌>>=◌ get_cert modify_cert primary in_watermarks verify_rsa_signature
    verify_threshold_sig verify_sign_ed verify_ts sign_ts_partial sign_with_prikey send_to_leader
    address check_if_prepared send_prepare_msg create_prepare_msg handle_pre_prepare_msg
    handle_fast_prepare_qc execute_request execute_loop execute_next execute_cert after_execution
    lookup insert
voted_by zero h = absurd cc
voted_by (suc zero) h = head refl
voted_by (suc (suc zero)) h = head refl
voted_by (suc (suc (suc j))) h = head refl

unforged : (q : ℕ) → q ≤ 3 → IsUnforgeable cluster q (λ e. e.ts_pub_key)
unforged q h = record {
  backed = λ i v sig valid.
      subst (IsBacked cluster q) (only_vote (number i) v sig valid) (record {
        signers = is_positive;
        enough = h;
        voted = λ j in_set honest. voted_by j in_set;
      });
}

fast_unforged : (q : ℕ) → q ≤ 3 → IsUnforgeable cluster q (λ e. e.fast_pub_key)
unfolding env_of
fast_unforged q h = record { backed = (unforged q h).backed }

-- Each replica that is not faulty holds a fast prepare certificate, and has executed the request.
served :
    (k : ℕ)
    → let w = world_of cluster (suc k) in
      ((cert_of w.node (id_of 1)).prepare_qc ≡ none)
      × ((cert_of w.node (id_of 1)).fast_prepare_qc ≡ some (fast_qc 1))
      × (exec_log w.out ≡ (1, id_of 1) ∷ [])
unfolding env_of new_world run ◌>>=◌ get_cert modify_cert primary in_watermarks verify_rsa_signature
    verify_threshold_sig verify_sign_ed verify_ts sign_ts_partial sign_with_prikey send_to_leader
    address check_if_prepared send_prepare_msg create_prepare_msg handle_pre_prepare_msg
    handle_fast_prepare_qc execute_request execute_loop execute_next execute_cert after_execution
    lookup insert
served zero = (refl, refl, refl)
served (suc zero) = (refl, refl, refl)
served (suc (suc k)) = (refl, refl, refl)

idle : cert_of (world_of cluster 0).node (id_of 1) ≡ empty_cert
unfolding env_of new_world run lookup
idle = refl

fast_digest :
    (c : MsgCert) (d : Bytes)
    → c.prepare_qc ≡ none
    → c.fast_prepare_qc ≡ some (fast_qc 1)
    → Certifies c d
    → d ≡ 1 ∷ []
fast_digest c d no_qc qc (by_prepare q has same) = absurd cc
fast_digest c d no_qc qc (by_fast q has same) =
    let same_qc : fast_qc 1 ≡ q = cc in sym same ∙ ap (λ x. contents x.batch_hash) (sym same_qc)

no_digest : (c : MsgCert) (d : Bytes) → c ≡ empty_cert → Certifies c d → ⊥
no_digest c d nothing (by_prepare q has same) =
    let none_yet : empty_cert.prepare_qc ≡ some q =
      subst (λ x. x.prepare_qc ≡ some q) nothing has in
    absurd cc
no_digest c d nothing (by_fast q has same) =
    let none_yet : empty_cert.fast_prepare_qc ≡ some q =
      subst (λ x. x.fast_prepare_qc ≡ some q) nothing has in
    absurd cc

digests :
    (k : ℕ) (d : Bytes) → Certifies (cert_of (world_of cluster k).node (id_of 1)) d → length d ≢ 0
digests zero d has = absurd (no_digest _ d idle has)
digests (suc k) d has =
    let digest = fast_digest _ d (served k).0 (served k).1 has in
    subst (λ x. length x ≢ 0) (sym digest) (λ h. omega arith)

executed : (k : ℕ) → Memᴰ (1, id_of 1) (exec_log (world_of cluster (suc k)).out)
executed k = subst (Memᴰ (1, id_of 1)) (sym (served k).2) (head refl)

votes_agree_example : contents the_vote.batch_hash ≡ contents the_vote.batch_hash
votes_agree_example =
    votes_agree (env_of 1) (conf_of 1) one_request the_vote the_vote (voted_by 1 refl)
      (voted_by 1 refl) refl refl (λ h. omega arith) (λ h. omega arith)

certificates_agree_example : contents (fast_qc 1).batch_hash ≡ contents the_vote.batch_hash
certificates_agree_example =
    certificates_agree cluster 3 (unforged 3 (omega arith)) (fast_unforged 3 (omega arith))
      (omega arith) 1 2 (id_of 1) (1 ∷ []) (1 ∷ []) (by_fast (fast_qc 1) (served 0).1 refl)
      (by_fast (fast_qc 1) (served 1).1 refl) (λ h. omega arith) (λ h. omega arith)

executed_agree_example :
    (d : Bytes) × Certifies (cert_of (world_of cluster 1).node (id_of 1)) d
    × Certifies (cert_of (world_of cluster 3).node (id_of 1)) d
executed_agree_example =
    executed_agree cluster 3 (unforged 3 (omega arith)) (fast_unforged 3 (omega arith))
      (omega arith) 1 3 1 (id_of 1) digests (executed 0) (executed 2)
