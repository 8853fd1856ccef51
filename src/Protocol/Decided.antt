-- ===== src/Protocol/Decided.antt =====
-- A request whose turn it is is executed once it is certified, on both paths.
use trebiz.Prelude.{◌≡◌, ◌∙◌, ap, none, some, true, Option, add32, ltb, Memᴰ}
use trebiz.Messages.{Bytes, MsgId, id_key, PrePrepareMsg, PrepareQc, FastPrepareQc, CommitQc}
use trebiz.Node.Env.{Env}
use trebiz.Node.State.{World, MsgCert, MsgStage, received, prepared, committed}
use trebiz.Node.Monad.{M, after, ErrChan, ◌>>=◌, ◌>>◌}
use trebiz.Node.Cert.{get_cert, modify_cert, cert_of}
use trebiz.Node.Send.{verify_threshold_sig}
use trebiz.Normal.Execute.{execute_request}
use trebiz.Normal.Commit.{qc_payload, commit_now, check_if_committed}
use trebiz.Normal.Prepare.{check_if_prepared}
use trebiz.Protocol.Spec.{core, exec_log}
use trebiz.Protocol.Certs.{opened, cert_of-opened}
use trebiz.Protocol.Commits.{as_stage, cert_of-modify_cert}
use trebiz.Protocol.Progress.{HasLogged, request-logs}

-- What a certificate needs for its request to be executed when its turn comes.
pub record IsReady (e : Env) (id : MsgId) (w : World) : Type 0 where
  pub ppm : PrePrepareMsg
  pub digest : Bytes
  pub digested : (cert_of w.node id).req_batch_digest ≡ some digest
  pub proposed : (cert_of w.node id).pre_prepare_store ≡ some ppm
  pub in_turn : id.sn ≡ add32 w.node.last_exec 1
  pub new : ltb w.node.last_exec id.sn ≡ true

-- The certificates that decide a request: a fast one, or else one of each round of the slow path, where the
-- commit certificate has a threshold signature over the prepare certificate.
pub data IsDecided (e : Env) (c : MsgCert) : Type 0 where
  fast_path : (q : FastPrepareQc) → c.fast_prepare_qc ≡ some q → IsDecided e c
  slow_path :
      (p : PrepareQc) (k : CommitQc)
      → c.fast_prepare_qc ≡ none
      → c.prepare_qc ≡ some p
      → c.commit_qc ≡ some k
      → verify_threshold_sig e (qc_payload (some p)) e.ts_pub_key k.threshold_sig ≡ true
      → IsDecided e c

module _ (e : Env) (id : MsgId) (err : ErrChan) where
  as_stage-IsReady :
      (s : MsgStage) (w : World)
      → IsReady e id w
      → IsReady e id (after (modify_cert id (as_stage s) w))
  unfolding modify_cert ◌>>=◌
  as_stage-IsReady s w r = record {
    ppm = r.ppm;
    digest = r.digest;
    digested =
        ap (λ (c : MsgCert). c.req_batch_digest) (cert_of-modify_cert w id (as_stage s))
        ∙ r.digested;
    proposed =
        ap (λ (c : MsgCert). c.pre_prepare_store) (cert_of-modify_cert w id (as_stage s))
        ∙ r.proposed;
    in_turn = r.in_turn;
    new = r.new;
  }

  opened-IsReady : (w : World) → IsReady e id w → IsReady e id (opened id w)
  opened-IsReady w r = record {
    ppm = r.ppm;
    digest = r.digest;
    digested = ap (λ (c : MsgCert). c.req_batch_digest) (cert_of-opened w id) ∙ r.digested;
    proposed = ap (λ (c : MsgCert). c.pre_prepare_store) (cert_of-opened w id) ∙ r.proposed;
    in_turn = r.in_turn;
    new = r.new;
  }

  abbrev Executes : M (Unit {0}) → World → Type 0
  Executes m w = HasLogged (id.sn, id) (core (after (m w)))

  ready-Executes : (w : World) → IsReady e id w → Executes (execute_request e id err) w
  ready-Executes w r = request-logs e id err w r.ppm r.digest r.in_turn r.new r.digested r.proposed

  committed-Executes :
      (w : World)
      → IsReady e id w
      → Executes (modify_cert id (as_stage committed) >> execute_request e id err) w
  unfolding modify_cert ◌>>=◌
  committed-Executes w r =
      ready-Executes (after (modify_cert id (as_stage committed) w))
        (as_stage-IsReady committed w r)

  commit_now-Executes :
      (w : World) (p : Option PrepareQc) (k : CommitQc)
      → verify_threshold_sig e (qc_payload p) e.ts_pub_key k.threshold_sig ≡ true
      → IsReady e id w
      → Executes (commit_now e id p (some k) err) w
  unfolding commit_now
  commit_now-Executes w p k good r = rw good (committed-Executes w r)

  -- The second round of the slow path.
  check_if_committed-Executes :
      (w : World) (p : PrepareQc) (k : CommitQc)
      → (cert_of w.node id).req_batch_stage ≡ prepared
      → (cert_of w.node id).prepare_qc ≡ some p
      → (cert_of w.node id).commit_qc ≡ some k
      → verify_threshold_sig e (qc_payload (some p)) e.ts_pub_key k.threshold_sig ≡ true
      → IsReady e id w
      → Executes (check_if_committed e id err) w
  unfolding check_if_committed get_cert ◌>>=◌
  check_if_committed-Executes w p k stage pqc cqc good r =
      rw (stage, pqc, cqc) (commit_now-Executes (opened id w) (some p) k good (opened-IsReady w r))

-- A request that is certified, by a fast prepare certificate or by a prepare and a commit certificate, and that the
-- node has taken from a proposal but not yet committed, is executed as soon as the node looks at it, if it is the
-- next in turn: its identifier goes into the log of executed requests. The commit certificate has a threshold
-- signature over the prepare certificate, and the number of the last executed request does not wrap.
pub check_if_prepared-executes :
    (e : Env) (id : MsgId) (err : ErrChan) (w : World)
    → (cert_of w.node id).req_batch_stage ≡ received
    → IsDecided e (cert_of w.node id)
    → IsReady e id w
    → Memᴰ (id.sn, id) (exec_log (after (check_if_prepared e id err w)).out)
unfolding check_if_prepared get_cert modify_cert ◌>>=◌
check_if_prepared-executes e id err w stage (fast_path q fast) r =
    rw (stage, fast) (committed-Executes e id err (opened id w) (opened-IsReady e id err w r))
check_if_prepared-executes e id err w stage (slow_path p k fast pqc cqc good) r =
    let w' = opened id w in
    let same =
      cert_of-modify_cert w' id (as_stage prepared)
      ∙ ap (as_stage prepared) (cert_of-opened w id) in
    rw (stage, fast, pqc)
      (check_if_committed-Executes e id err (after (modify_cert id (as_stage prepared) w')) p k
        (ap (λ (c : MsgCert). c.req_batch_stage) same)
        (ap (λ (c : MsgCert). c.prepare_qc) same ∙ pqc)
        (ap (λ (c : MsgCert). c.commit_qc) same ∙ cqc) good
        (as_stage-IsReady e id err prepared w' (opened-IsReady e id err w r)))
