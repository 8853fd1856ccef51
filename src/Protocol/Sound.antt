-- ===== src/Protocol/Sound.antt =====
-- What a certificate of a request fulfils at any time, and what changes of it keep.
use trebiz.Prelude.{
  ◌≡◌, refl, sym, subst, Option, none, some, Bool, true, false, Map, nat_key, lookup, insert, get,
  lookup-insert, if◌then◌else◌,
}
use trebiz.Messages.{MsgId, id_key, PrepareQc, FastPrepareQc}
use trebiz.Node.Env.{Env}
use trebiz.Node.State.{MsgCert, empty_cert, prepared, committed}
use trebiz.Protocol.Spec.{
  Core, IsPrepareQc, IsFastQc, HasCertificate, fast, slow, CertStep, votes, takes_proposal,
  takes_prepare_qc, takes_fast_qc, takes_commit_qc, prepares, commits_fast, commits_slow,
}
use trebiz.Node.Send.{verify_threshold_sig}
use trebiz.Normal.Commit.{qc_payload}

-- The certificate that a map shows after an assignment.
if_assigned {ℓ} :
    (P : MsgCert → Type ℓ) (b : Bool) (c : MsgCert) (o : Option MsgCert)
    → (b ≡ true → P c)
    → P (elim o [ none ↦ empty_cert | some d ↦ d ])
    → P (elim (if b then some c else o) [ none ↦ empty_cert | some d ↦ d ])
if_assigned P true c o new old = new refl
if_assigned P false c o new old = old

-- A property that a map's certificates have after an assignment, if they had it before.
pub get-insert {ℓ} :
    (P : MsgId → MsgCert → Type ℓ) (certs : Map MsgId MsgCert) (id : MsgId) (c : MsgCert)
    → P id c
    → (j : MsgId) → P j (get j empty_cert certs)
    → P j (get j empty_cert (insert id c certs))
get-insert P certs id c new j old =
    subst (λ o. P j (elim o [ none ↦ empty_cert | some d ↦ d ])) (sym (lookup-insert id j c certs))
      (if_assigned (P j) (id_key.same id j) c (lookup j certs)
        (λ same. subst (λ i. P i c) ((id_key.same_iff id j).0 same) new) old)

module _ (e : Env) where
  -- What a certificate in the store fulfils.
  pub record IsSound (id : MsgId) (c : MsgCert) : Type 0 where
    pub prepare_ok : (q : PrepareQc) → c.prepare_qc ≡ some q → IsPrepareQc e id q
    pub fast_ok : (q : FastPrepareQc) → c.fast_prepare_qc ≡ some q → IsFastQc e id q
    pub prepared_ok : c.req_batch_stage ≡ prepared → (q : PrepareQc) × (c.prepare_qc ≡ some q)
    pub committed_ok : c.req_batch_stage ≡ committed → HasCertificate e id c

  pub empty_cert-IsSound : (id : MsgId) → IsSound id empty_cert
  empty_cert-IsSound id = record {
    prepare_ok = λ q p. cc;
    fast_ok = λ q p. cc;
    prepared_ok = λ p. cc;
    committed_ok = λ p. cc;
  }

  pub HasCertificate-CertStep :
      {s : Core} {id : MsgId} {c d : MsgCert}
      → CertStep e s id c d
      → HasCertificate e id c
      → HasCertificate e id d
  HasCertificate-CertStep (takes_prepare_qc q h ok) (slow p k hp okp hk okk) = absurd cc
  HasCertificate-CertStep (takes_prepare_qc q h ok) (fast p hp okp) = fast p hp okp
  HasCertificate-CertStep (takes_fast_qc q h ok) (fast p hp okp) = absurd cc
  HasCertificate-CertStep (takes_fast_qc q h ok) (slow p k hp okp hk okk) = slow p k hp okp hk okk
  HasCertificate-CertStep (takes_commit_qc q h) (slow p k hp okp hk okk) = absurd cc
  HasCertificate-CertStep (takes_commit_qc q h) (fast p hp okp) = fast p hp okp
  HasCertificate-CertStep (votes ps ks p k) (fast q hp ok) = fast q hp ok
  HasCertificate-CertStep (votes ps ks p k) (slow q r hp ok hk okk) = slow q r hp ok hk okk
  HasCertificate-CertStep (takes_proposal m h) (fast q hp ok) = fast q hp ok
  HasCertificate-CertStep (takes_proposal m h) (slow q r hp ok hk okk) = slow q r hp ok hk okk
  HasCertificate-CertStep (prepares q h h') (fast p hp ok) = fast p hp ok
  HasCertificate-CertStep (prepares q h h') (slow p r hp ok hk okk) = slow p r hp ok hk okk
  HasCertificate-CertStep (commits_fast q h h') (fast p hp ok) = fast p hp ok
  HasCertificate-CertStep (commits_fast q h h') (slow p r hp ok hk okk) = slow p r hp ok hk okk
  HasCertificate-CertStep (commits_slow q h h' v) (fast p hp ok) = fast p hp ok
  HasCertificate-CertStep (commits_slow q h h' v) (slow p r hp ok hk okk) = slow p r hp ok hk okk

  CertStep-prepare_qc :
      {s : Core} {id : MsgId} {c d : MsgCert}
      → CertStep e s id c d
      → IsSound id c
      → (q : PrepareQc) → d.prepare_qc ≡ some q
      → IsPrepareQc e id q
  CertStep-prepare_qc (takes_prepare_qc p n ok) i q h = subst (IsPrepareQc e _) (cc) ok
  CertStep-prepare_qc (votes ps ks p k) i q h = i.prepare_ok q h
  CertStep-prepare_qc (takes_proposal m a) i q h = i.prepare_ok q h
  CertStep-prepare_qc (takes_fast_qc p n ok) i q h = i.prepare_ok q h
  CertStep-prepare_qc (takes_commit_qc p n) i q h = i.prepare_ok q h
  CertStep-prepare_qc (prepares p r x) i q h = i.prepare_ok q h
  CertStep-prepare_qc (commits_fast p r x) i q h = i.prepare_ok q h
  CertStep-prepare_qc (commits_slow p r x v) i q h = i.prepare_ok q h

  CertStep-IsFastQc :
      {s : Core} {id : MsgId} {c d : MsgCert}
      → CertStep e s id c d
      → IsSound id c
      → (q : FastPrepareQc) → d.fast_prepare_qc ≡ some q
      → IsFastQc e id q
  CertStep-IsFastQc (takes_fast_qc p n ok) i q h = subst (IsFastQc e _) (cc) ok
  CertStep-IsFastQc (votes ps ks p k) i q h = i.fast_ok q h
  CertStep-IsFastQc (takes_proposal m a) i q h = i.fast_ok q h
  CertStep-IsFastQc (takes_prepare_qc p n ok) i q h = i.fast_ok q h
  CertStep-IsFastQc (takes_commit_qc p n) i q h = i.fast_ok q h
  CertStep-IsFastQc (prepares p r x) i q h = i.fast_ok q h
  CertStep-IsFastQc (commits_fast p r x) i q h = i.fast_ok q h
  CertStep-IsFastQc (commits_slow p r x v) i q h = i.fast_ok q h

  CertStep-prepared :
      {s : Core} {id : MsgId} {c d : MsgCert}
      → CertStep e s id c d
      → IsSound id c
      → d.req_batch_stage ≡ prepared
      → (q : PrepareQc) × (d.prepare_qc ≡ some q)
  CertStep-prepared (takes_prepare_qc p n ok) i h = (p, refl)
  CertStep-prepared (votes ps ks p k) i h = i.prepared_ok h
  CertStep-prepared (takes_proposal m a) i h = absurd cc
  CertStep-prepared (takes_fast_qc p n ok) i h = i.prepared_ok h
  CertStep-prepared (takes_commit_qc p n) i h = i.prepared_ok h
  CertStep-prepared (prepares p r x) i h = (p, x)
  CertStep-prepared (commits_fast p r x) i h = absurd cc
  CertStep-prepared (commits_slow p r x v) i h = absurd cc

  CertStep-committed :
      {s : Core} {id : MsgId} {c d : MsgCert}
      → CertStep e s id c d
      → IsSound id c
      → d.req_batch_stage ≡ committed
      → HasCertificate e id d
  CertStep-committed (takes_proposal m a) i h = absurd cc
  CertStep-committed (prepares p r x) i h = absurd cc
  CertStep-committed (commits_fast p r x) i h = fast p x (i.fast_ok p x)
  CertStep-committed (commits_slow k r x v) i h =
      let (q, has) = i.prepared_ok r in
      slow q k has (i.prepare_ok q has) x (
        subst (λ o. verify_threshold_sig e (qc_payload o) e.ts_pub_key k.threshold_sig ≡ true) has
          v)
  CertStep-committed {s = s} (votes ps ks p k) i h =
      HasCertificate-CertStep {s = s} (votes ps ks p k) (i.committed_ok h)
  CertStep-committed {s = s} (takes_prepare_qc p n ok) i h =
      HasCertificate-CertStep {s = s} (takes_prepare_qc p n ok) (i.committed_ok h)
  CertStep-committed {s = s} (takes_fast_qc p n ok) i h =
      HasCertificate-CertStep {s = s} (takes_fast_qc p n ok) (i.committed_ok h)
  CertStep-committed {s = s} (takes_commit_qc p n) i h =
      HasCertificate-CertStep {s = s} (takes_commit_qc p n) (i.committed_ok h)

  pub CertStep-IsSound :
      {s : Core} {id : MsgId} {c d : MsgCert} → CertStep e s id c d → IsSound id c → IsSound id d
  CertStep-IsSound st i = record {
    prepare_ok = λ q h. CertStep-prepare_qc st i q h;
    fast_ok = λ q h. CertStep-IsFastQc st i q h;
    prepared_ok = λ h. CertStep-prepared st i h;
    committed_ok = λ h. CertStep-committed st i h;
  }
