-- ===== src/Protocol/Loyalty.antt =====
-- A node does not change its mind about a request.
use trebiz.Prelude.{
  ℕ, ◌≡◌, ◌≢◌, ◌∙◌, refl, sym, subst, none, some, Bool, true, false, insert, get, length,
  same_bytes, same_bytes_iff, not, ◌&&◌, ◌==◌, arith, List,
}
use trebiz.Messages.{Bytes, MsgId, id_key, PrePrepareMsg, contents}
use trebiz.Main.{Event, run}
use trebiz.Node.Env.{Env}
use trebiz.Node.State.{MsgCert, empty_cert, World}
use trebiz.Node.Cert.{cert_of}
use trebiz.Normal.PrePrepare.{conflicts}
use trebiz.Protocol.Spec.{
  Core, cert_at, CertStep, votes, takes_proposal, takes_prepare_qc, takes_fast_qc, takes_commit_qc,
  prepares, commits_fast, commits_slow, Step, opens, changes, queues, buffers, executes_next,
  signs_vote, moves_low, goes_before, leaves_view, enters_view, stores_checkpoint, notes_ask,
  notes_new_view, makes_new_view,
}
use trebiz.Protocol.Refines.{run-closed}
use trebiz.Protocol.Sound.{get-insert}

-- The digest of a certificate is `d`.
abbrev HasDigest : Bytes → MsgCert → Type 0
HasDigest d c = contents c.req_batch_digest ≡ d

no_conflict : (n : ℕ) (b : Bool) → (not (n == 0) && not b) ≡ false → n ≢ 0 → b ≡ true
no_conflict n b h some_length = ground arith

agreeing :
    (c : MsgCert) (m : PrePrepareMsg) (d : Bytes)
    → length d ≢ 0
    → conflicts c m ≡ false
    → HasDigest d c
    → contents m.batch_hash ≡ d
agreeing c m d some_digest agrees h =
    let same : same_bytes (contents c.req_batch_digest) (contents m.batch_hash) ≡ true =
      no_conflict (length (contents c.req_batch_digest)) _ agrees
        (subst (λ x. length x ≢ 0) (sym h) some_digest) in
    sym ((same_bytes_iff _ _).0 same) ∙ h

module _ (e : Env) (id : MsgId) (d : Bytes) (some_digest : length d ≢ 0) where
  CertStep-HasDigest :
      {s : Core} {c c' : MsgCert} → CertStep e s id c c' → HasDigest d c → HasDigest d c'
  CertStep-HasDigest {c = c} (takes_proposal m a) h = agreeing c m d some_digest a.agrees h
  CertStep-HasDigest (votes ps ks p k) h = h
  CertStep-HasDigest (takes_prepare_qc q n ok) h = h
  CertStep-HasDigest (takes_fast_qc q n ok) h = h
  CertStep-HasDigest (takes_commit_qc q n) h = h
  CertStep-HasDigest (prepares q r x) h = h
  CertStep-HasDigest (commits_fast q r x) h = h
  CertStep-HasDigest (commits_slow k r x v) h = h

  assigned :
      (s : Core) (i : MsgId) (c : MsgCert)
      → (i ≡ id → HasDigest d (cert_at s i) → HasDigest d c)
      → HasDigest d (cert_at s id)
      → HasDigest d (get id empty_cert (insert i c s.certs))
  assigned s i c kept h =
      get-insert (λ j c'. j ≡ id → HasDigest d (cert_at s j) → HasDigest d c') s.certs i c kept id
        (λ _ x. x) refl h

  pub Step-HasDigest :
      {s t : Core} → Step e s t → HasDigest d (cert_at s id) → HasDigest d (cert_at t id)
  Step-HasDigest (opens s i none_yet) h =
      assigned s i empty_cert
        (λ _.
          subst
            (λ o. HasDigest d (elim o [ none ↦ empty_cert | some c ↦ c ]) → HasDigest d empty_cert)
            (sym none_yet) (λ x. x))
        h
  Step-HasDigest (changes s i c st) h =
      assigned s i c
        (λ same. CertStep-HasDigest (subst (λ j. CertStep e s j (cert_at s i) c) same st)) h
  Step-HasDigest (queues s i c) h = h
  Step-HasDigest (buffers s i c) h = h
  Step-HasDigest (executes_next s x c) h = h
  Step-HasDigest (signs_vote s sn) h = h
  Step-HasDigest (moves_low s sn c) h = h
  Step-HasDigest (goes_before s v c) h = h
  Step-HasDigest (leaves_view s) h = h
  Step-HasDigest (enters_view s c) h = h
  Step-HasDigest (stores_checkpoint s x c) h = h
  Step-HasDigest (notes_ask s x c) h = h
  Step-HasDigest (notes_new_view s x c) h = h
  Step-HasDigest (makes_new_view s x c) h = h

-- A node that has taken a batch for a number and view keeps to it: whatever events follow, and in whatever
-- order, the certificate of the request has the same digest, if the digest is not empty.
pub digest_kept :
    (e : Env) (w : World) (evs : List Event) (id : MsgId) (d : Bytes)
    → length d ≢ 0
    → contents (cert_of w.node id).req_batch_digest ≡ d
    → contents (cert_of (run e w evs).node id).req_batch_digest ≡ d
digest_kept e w evs id d some_digest h =
    run-closed e {Q = λ s. HasDigest d (cert_at s id)}
      (record { at = Step-HasDigest e id d some_digest }) w evs h
