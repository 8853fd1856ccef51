-- ===== src/Protocol/Commits.antt =====
-- The checks that move a request from stage to stage are steps of the protocol.
use trebiz.Prelude.{◌≡◌, refl, ap, Option, none, some, Bool, true, lookup-insert_self, ◌&&◌, arith}
use trebiz.Messages.{MsgId, id_key, PrepareQc, CommitQc}
use trebiz.Node.Env.{Env}
use trebiz.Node.State.{World, MsgCert, MsgStage, received, prepared, committed}
use trebiz.Node.Monad.{after, ErrChan, ◌>>=◌, ◌>>◌}
use trebiz.Node.Cert.{modify_cert, cert_of}
use trebiz.Normal.Execute.{execute_request}
use trebiz.Normal.Commit.{is_prepared, is_received, commit_now, check_if_committed}
use trebiz.Normal.Prepare.{has_value, check_if_prepared}
use trebiz.Protocol.Spec.{Core, core, IsClosed, CertStep, commits_slow, commits_fast, prepares}
use trebiz.Protocol.Keeps.{Keeps, Keeps-skip, if_at, if_skip_at}
use trebiz.Protocol.Certs.{Keeps-get_cert, modify_cert-step}
use trebiz.Protocol.Execution.{execute_request-step}

-- A certificate that was changed reads back changed.
pub cert_of-modify_cert :
    (w : World) (id : MsgId) (f : MsgCert → MsgCert)
    → cert_of (after (modify_cert id f w)).node id ≡ f (cert_of w.node id)
unfolding modify_cert ◌>>=◌
cert_of-modify_cert w id f =
    ground (arith, lookup-insert_self id (f (cert_of w.node id)) w.node.req_cert_store)

is_prepared-eq : (s : MsgStage) → is_prepared s ≡ true → s ≡ prepared
is_prepared-eq s h = ground arith

is_received-eq : (s : MsgStage) → is_received s ≡ true → s ≡ received
is_received-eq s h = ground arith

pub and-true : (a b : Bool) → (a && b) ≡ true → (a ≡ true) × (b ≡ true)
and-true a b h = ground arith

pub has_value-eq {ℓ} : {A : Type ℓ} (o : Option A) → has_value o ≡ true → (a : A) × (o ≡ some a)
has_value-eq none h = cc
has_value-eq (some a) h = (a, refl)

abbrev pub as_stage : MsgStage → MsgCert → MsgCert
as_stage s c = record c { req_batch_stage = s }

module _ (e : Env) {Q : Core → Type 0} (closed : IsClosed e Q) where
  -- A certificate moves to `committed`, and its request is executed.
  commit-step :
      (id : MsgId) (err : ErrChan) (w : World)
      → CertStep e (core w) id (cert_of w.node id) (as_stage committed (cert_of w.node id))
      → Q (core w)
      → Q (core (after ((modify_cert id (as_stage committed) >> execute_request e id err) w)))
  unfolding modify_cert ◌>>=◌
  commit-step id err w c q =
      execute_request-step e closed id err (after (modify_cert id (as_stage committed) w))
        (ap (λ (c : MsgCert). c.req_batch_stage) (cert_of-modify_cert w id (as_stage committed)))
        (modify_cert-step e closed w id (as_stage committed) c q)

  commit_now-step :
      (id : MsgId) (k : Option CommitQc) (err : ErrChan) (w : World)
      → (cert_of w.node id).req_batch_stage ≡ prepared
      → (cert_of w.node id).commit_qc ≡ k
      → Q (core w)
      → Q (core (after (commit_now e id (cert_of w.node id).prepare_qc k err w)))
  unfolding commit_now
  commit_now-step id none err w p h q = (Keeps-skip {Q = Q}).at w q
  commit_now-step id (some k) err w p h q =
      if_skip_at Q _ _ w q λ valid. commit-step id err w (commits_slow k p h valid) q

  pub Keeps-check_if_committed :
      (id : MsgId) (err : ErrChan) → Keeps Q (check_if_committed e id err)
  unfolding check_if_committed
  Keeps-check_if_committed id err =
      Keeps-get_cert e closed id _
        λ w q. if_skip_at Q _ _ w q λ p. commit_now-step id _ err w (is_prepared-eq _ p) refl q

  prepare-step :
      (id : MsgId) (err : ErrChan) (pqc : PrepareQc) (w : World)
      → (cert_of w.node id).req_batch_stage ≡ received
      → (cert_of w.node id).prepare_qc ≡ some pqc
      → Q (core w)
      → Q (core (after ((modify_cert id (as_stage prepared) >> check_if_committed e id err) w)))
  unfolding modify_cert ◌>>=◌
  prepare-step id err pqc w r p q =
      (Keeps-check_if_committed id err).at (after (modify_cert id (as_stage prepared) w))
        (modify_cert-step e closed w id (as_stage prepared) (prepares pqc r p) q)

  pub Keeps-check_if_prepared : (id : MsgId) (err : ErrChan) → Keeps Q (check_if_prepared e id err)
  unfolding check_if_prepared
  Keeps-check_if_prepared id err = Keeps-get_cert e closed id _ λ w q.
      if_at Q _ _ _ w
        (λ h.
          let parts = and-true _ _ h in
          let fast = has_value-eq _ parts.1 in
          commit-step id err w (commits_fast fast.0 (is_received-eq _ parts.0) fast.1) q)
        λ _. if_skip_at Q _ _ w q λ h.
          let parts = and-true _ _ h in
          let slow = has_value-eq _ parts.1 in
          prepare-step id err slow.0 w (is_received-eq _ parts.0) slow.1 q
