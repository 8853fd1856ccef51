-- ===== src/Protocol/Agreement.antt =====
-- The replicas of a cluster and what their certificates say together.
use trebiz.Prelude.{
  Memᴰ, All-Memᴰ, ℕ, ◌+◌, ◌≤◌, ◌<◌, ◌≡◌, ◌≢◌, ◌∙◌, refl, sym, subst, List, some, Bool, true, false,
  length,
}
use trebiz.Messages.{
  Bytes, MsgId, id_key, PrepareQc, FastPrepareQc, VoteForPrepare, Payload, contents,
}
use trebiz.Config.{Config, new_world}
use trebiz.Main.{Event, run}
use trebiz.Node.Env.{Env, PubPoly}
use trebiz.Node.State.{MsgCert, World}
use trebiz.Node.Cert.{cert_of}
use trebiz.Node.Send.{verify_threshold_sig}
use trebiz.Normal.Prepare.{vote_of, fast_vote_of}
use trebiz.Protocol.Spec.{exec_log, signed_votes, HasCertificate, fast, slow}
use trebiz.Protocol.Sound.{IsSound}
use trebiz.Protocol.Safety.{run-IsSound, executed-HasCertificate}
use trebiz.Protocol.Votes.{votes_agree}
use trebiz.Protocol.Quorum.{count, quorums_meet}

-- What the replicas of a cluster are configured with and what each of them handles, which of them are faulty,
-- and how many there are. What a faulty replica does is not said by its run.
pub record Cluster : Type 0 where
  pub size : ℕ
  pub env : ℕ → Env
  pub conf : ℕ → Config
  pub events : ℕ → List Event
  pub faulty : ℕ → Bool

abbrev pub world_of : Cluster → ℕ → World
world_of c i = run (c.env i) (new_world (c.conf i)) (c.events i)

module _ (c : Cluster) where
  -- A vote that `q` replicas signed, as far as they are not faulty.
  pub record IsBacked (q : ℕ) (v : VoteForPrepare) : Type 0 where
    pub signers : ℕ → Bool
    pub enough : q ≤ count c.size signers
    pub voted :
        (j : ℕ) → signers j ≡ true → c.faulty j ≡ false → Memᴰ v (signed_votes (world_of c j).out)

  -- A threshold signature over a vote is made from the partial signatures of `q` replicas over the same vote: it
  -- cannot be forged, and the encoder gives different votes different bytes.
  pub record IsUnforgeable (q : ℕ) (key : Env → PubPoly) : Type 0 where
    pub backed :
        (i : ℕ) (v : VoteForPrepare) (sig : Bytes)
        → verify_threshold_sig (c.env i) (Payload.vote v) (key (c.env i)) sig ≡ true
        → IsBacked q v

  two_backed :
      (q : ℕ) (v u : VoteForPrepare)
      → IsBacked q v
      → IsBacked q u
      → c.size + count c.size c.faulty < q + q
      → v.sn ≡ u.sn
      → v.view ≡ u.view
      → length (contents v.batch_hash) ≢ 0
      → length (contents u.batch_hash) ≢ 0
      → contents v.batch_hash ≡ contents u.batch_hash
  two_backed q v u v_backed u_backed enough same_sn same_view v_digest u_digest =
      let (j, (below, in_v, in_u, honest)) =
        quorums_meet c.size q v_backed.signers u_backed.signers c.faulty v_backed.enough
          u_backed.enough enough in
      votes_agree (c.env j) (c.conf j) (c.events j) v u (v_backed.voted j in_v honest)
        (u_backed.voted j in_u honest) same_sn same_view v_digest u_digest

-- What a certificate store holds for a request: a prepare certificate for the digest, or one of the fast path.
pub data Certifies (c : MsgCert) (digest : Bytes) : Type 0 where
  by_prepare :
      (q : PrepareQc) → c.prepare_qc ≡ some q → contents q.batch_hash ≡ digest → Certifies c digest
  by_fast :
      (q : FastPrepareQc)
      → c.fast_prepare_qc ≡ some q
      → contents q.batch_hash ≡ digest
      → Certifies c digest

-- The vote that stands behind a certificate.
record Backing (c : Cluster) (q : ℕ) (id : MsgId) (digest : Bytes) : Type 0 where
  vote : VoteForPrepare
  sn_eq : vote.sn ≡ id.sn
  view_eq : vote.view ≡ id.view
  digest_eq : contents vote.batch_hash ≡ digest
  backed : IsBacked c q vote

module _ (c : Cluster) (q : ℕ) (slow_key : IsUnforgeable c q (λ e. e.ts_pub_key))
    (fast_key : IsUnforgeable c q (λ e. e.fast_pub_key)) where
  Backing-of :
      (i : ℕ) (id : MsgId) (d : Bytes)
      → IsSound (c.env i) id (cert_of (world_of c i).node id)
      → Certifies (cert_of (world_of c i).node id) d
      → Backing c q id d
  Backing-of i id d s (by_prepare k has same) =
      let ok = s.prepare_ok k has in
      record {
        vote = vote_of k;
        sn_eq = ok.same_sn;
        view_eq = ok.same_view;
        digest_eq = same;
        backed = slow_key.backed i (vote_of k) k.threshold_sig ok.signed;
      }
  Backing-of i id d s (by_fast k has same) =
      let ok = s.fast_ok k has in
      record {
        vote = fast_vote_of k;
        sn_eq = ok.same_sn;
        view_eq = ok.same_view;
        digest_eq = same;
        backed = fast_key.backed i (fast_vote_of k) k.threshold_sig ok.signed;
      }

-- Two nodes of a cluster never hold certificates for different batches of the same sequence number and view.
-- The nodes are any two, and each handles any events in any order from its start. The certificates are those of
-- either path, for digests that are not empty. A threshold signature of either key takes `q` replicas, and twice
-- `q` is more than the number of replicas and of faulty replicas together.
pub certificates_agree :
    (c : Cluster) (q : ℕ)
    → IsUnforgeable c q (λ e. e.ts_pub_key)
    → IsUnforgeable c q (λ e. e.fast_pub_key)
    → c.size + count c.size c.faulty < q + q
    → (i j : ℕ) (id : MsgId) (d d' : Bytes) → Certifies (cert_of (world_of c i).node id) d
    → Certifies (cert_of (world_of c j).node id) d'
    → length d ≢ 0
    → length d' ≢ 0
    → d ≡ d'
certificates_agree c q slow_key fast_key enough i j id d d' here there d_some d'_some =
    let a = Backing-of c q slow_key fast_key i id d (run-IsSound _ _ (c.events i) id) here in
    let b = Backing-of c q slow_key fast_key j id d' (run-IsSound _ _ (c.events j) id) there in
    sym a.digest_eq
    ∙ two_backed c q a.vote b.vote a.backed b.backed enough (a.sn_eq ∙ sym b.sn_eq)
        (a.view_eq ∙ sym b.view_eq) (subst (λ x. length x ≢ 0) (sym a.digest_eq) d_some)
        (subst (λ x. length x ≢ 0) (sym b.digest_eq) d'_some)
    ∙ b.digest_eq

abbrev pub digest_of : {e : Env} {id : MsgId} {c : MsgCert} → HasCertificate e id c → Bytes
digest_of (fast q has ok) = contents q.batch_hash
digest_of (slow q k has ok has_commit valid) = contents q.batch_hash

certified :
    {e : Env} {id : MsgId} {c : MsgCert} (h : HasCertificate e id c) → Certifies c (digest_of h)
certified (fast q has ok) = by_fast q has refl
certified (slow q k has ok has_commit valid) = by_prepare q has refl

-- Any two nodes of a cluster that executed the same request, each after any events in any order from its start,
-- hold certificates for the same digest. The request is one sequence number of one view, and no certificate
-- that a node of the cluster holds for it has an empty digest. A threshold signature of either key takes `q`
-- replicas, and twice `q` is more than the number of replicas and of faulty replicas together.
pub executed_agree :
    (c : Cluster) (q : ℕ)
    → IsUnforgeable c q (λ e. e.ts_pub_key)
    → IsUnforgeable c q (λ e. e.fast_pub_key)
    → c.size + count c.size c.faulty < q + q
    → (i j : ℕ) (sn : ℕ) (id : MsgId)
    → ((k : ℕ) (d : Bytes) → Certifies (cert_of (world_of c k).node id) d → length d ≢ 0)
    → Memᴰ (sn, id) (exec_log (world_of c i).out)
    → Memᴰ (sn, id) (exec_log (world_of c j).out)
    → (d : Bytes) × Certifies (cert_of (world_of c i).node id) d
      × Certifies (cert_of (world_of c j).node id) d
executed_agree c q slow_key fast_key enough i j sn id digests here there =
    let mine = certified (All-Memᴰ _ here (executed-HasCertificate _ _ (c.events i))).1 in
    let yours = certified (All-Memᴰ _ there (executed-HasCertificate _ _ (c.events j))).1 in
    let same =
      certificates_agree c q slow_key fast_key enough i j id _ _ mine yours (digests i _ mine)
        (digests j _ yours) in
    (_, mine, subst (Certifies (cert_of (world_of c j).node id)) (sym same) yours)
