-- ===== src/Protocol/Accepting.antt =====
-- A replica that takes a quorum certificate, a proposal or a checkpoint makes steps of the protocol.
use trebiz.Prelude.{◌≡◌, refl, Option, none, some, Bool, true, false, not, ◌||◌, nat_key, arith}
use trebiz.Messages.{MsgId, PrepareQc, FastPrepareQc, CommitQc}
use trebiz.Node.Env.{Env}
use trebiz.Node.State.{World, MsgCert}
use trebiz.Node.Monad.{M, after, ErrChan, ◌>>=◌, ◌>>◌}
use trebiz.Node.Cert.{modify_cert, cert_of}
use trebiz.ViewChange.Send.{send_view_change}
use trebiz.Normal.Prepare.{has_value}
use trebiz.Normal.Certificates.{
  accept_prepare_qc, handle_prepare_qc, accept_fast_prepare_qc, handle_fast_prepare_qc,
  check_commit_qc, accept_commit_qc, handle_commit_qc,
}
use trebiz.Protocol.Spec.{
  Core, core, IsClosed, CertStep, takes_prepare_qc, takes_fast_qc, takes_commit_qc, leaves_view,
}
use trebiz.Protocol.Keeps.{Keeps, Keeps-bind, Keeps-if, Keeps-skip, keeps_rules, if_at}
use trebiz.Protocol.Quiet.{Keeps-spawns, Keeps-send_commit_msg}
use trebiz.Protocol.Certs.{Keeps-get_cert, modify_cert-step}
use trebiz.Protocol.Execution.{Keeps-send_view_change}
use trebiz.Protocol.Commits.{Keeps-check_if_committed, Keeps-check_if_prepared}

pub or-false : (a b : Bool) → (a || b) ≡ false → (a ≡ false) × (b ≡ false)
or-false a b h = ground arith

pub not-false : (a : Bool) → not a ≡ false → a ≡ true
not-false a h = ground arith

has_value-none {ℓ} : {A : Type ℓ} (o : Option A) → has_value o ≡ false → o ≡ none
has_value-none none h = refl
has_value-none (some a) h = cc

module _ (e : Env) {Q : Core → Type 0} (closed : IsClosed e Q) where
  pub Keeps-leave : (err : ErrChan) → Keeps Q (send_view_change e err)
  Keeps-leave err = Keeps-send_view_change e (λ s q. closed.at (leaves_view s) q) err

  -- What follows a change of the certificate.
  pub then-step :
      (w : World) (id : MsgId) (f : MsgCert → MsgCert) (m : M (Unit {0}))
      → CertStep e (core w) id (cert_of w.node id) (f (cert_of w.node id))
      → Keeps Q m
      → Q (core w)
      → Q (core (after ((modify_cert id f >> m) w)))
  unfolding modify_cert ◌>>=◌
  then-step w id f m c km q =
      km.at (after (modify_cert id f w)) (modify_cert-step e closed w id f c q)

  Keeps-accept_prepare_qc :
      (id : MsgId) (q : PrepareQc) (err : ErrChan)
      → q.sn ≡ id.sn
      → q.view ≡ id.view
      → Keeps Q (accept_prepare_qc e id q err)
  unfolding accept_prepare_qc
  Keeps-accept_prepare_qc id q err sn view = Keeps-get_cert e closed id _ λ w h.
      if_at Q _ _ _ w (λ _. (Keeps-skip {Q = Q}).at w h)
        λ o.
          let parts = or-false _ _ o in
          then-step w id _ _
            (takes_prepare_qc q (has_value-none _ parts.0)
              (record { same_sn = sn; same_view = view; signed = not-false _ parts.1 }))
            (Keeps-bind _ _ (Keeps-check_if_prepared e closed id err)
              (λ _. Keeps-send_commit_msg e q err))
            h

  pub Keeps-handle_prepare_qc :
      (q : PrepareQc) (err : ErrChan) → Keeps Q (handle_prepare_qc e q err)
  unfolding handle_prepare_qc
  Keeps-handle_prepare_qc q err = search (keeps_rules, Keeps-leave, Keeps-accept_prepare_qc)

  Keeps-accept_fast_prepare_qc :
      (id : MsgId) (q : FastPrepareQc)
      → q.sn ≡ id.sn
      → q.view ≡ id.view
      → Keeps Q (accept_fast_prepare_qc e id q)
  unfolding accept_fast_prepare_qc
  Keeps-accept_fast_prepare_qc id q sn view = Keeps-get_cert e closed id _ λ w h.
      if_at Q _ _ _ w (λ _. (Keeps-skip {Q = Q}).at w h)
        λ o.
          let parts = or-false _ _ o in
          then-step w id _ _
            (takes_fast_qc q (has_value-none _ parts.0)
              (record { same_sn = sn; same_view = view; signed = not-false _ parts.1 }))
            (Keeps-spawns _) h

  pub Keeps-handle_fast_prepare_qc : (q : FastPrepareQc) → Keeps Q (handle_fast_prepare_qc e q)
  unfolding handle_fast_prepare_qc
  Keeps-handle_fast_prepare_qc q = search (keeps_rules, Keeps-accept_fast_prepare_qc)

  Keeps-check_commit_qc :
      (id : MsgId) (q : CommitQc) (p : Option PrepareQc) (err : ErrChan)
      → Keeps Q (check_commit_qc e id q p err)
  unfolding check_commit_qc
  Keeps-check_commit_qc id q none err = Keeps-skip
  Keeps-check_commit_qc id q (some p) err =
      Keeps-if _ _ _ (λ _. Keeps-check_if_committed e closed id err) (λ _. Keeps-skip)

  Keeps-accept_commit_qc :
      (id : MsgId) (q : CommitQc) (err : ErrChan) → Keeps Q (accept_commit_qc e id q err)
  unfolding accept_commit_qc
  Keeps-accept_commit_qc id q err = Keeps-get_cert e closed id _ λ w h.
      if_at Q _ _ _ w (λ _. (Keeps-skip {Q = Q}).at w h)
        λ o.
          then-step w id _ _ (takes_commit_qc q (has_value-none _ o))
            (Keeps-check_commit_qc id q _ err) h

  pub Keeps-handle_commit_qc : (q : CommitQc) (err : ErrChan) → Keeps Q (handle_commit_qc e q err)
  unfolding handle_commit_qc
  Keeps-handle_commit_qc q err = search (keeps_rules, Keeps-leave, Keeps-accept_commit_qc)
