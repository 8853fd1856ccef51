-- ===== src/Protocol/Spec.antt =====
-- The abstract state and its steps.
use trebiz.Prelude.{
  ℕ, ◌≡◌, ◌<◌, ◌≤◌, ◌+◌, bytes_key, length, [], ◌∷◌, none, some, Bool, true, false, Map, nat_key,
  lookup, insert, get, has, add32, sub32,
}
use trebiz.Messages.{
  Bytes, MsgId, id_key, PrePrepareMsg, PrepareQc, FastPrepareQc, PrepareMsg, CommitMsg, CommitQc,
  CheckpointMsg, checkpoint_key, vcidx_key, ViewChangeMsg, NewViewMsg,
}
use trebiz.Node.Env.{Env}
use trebiz.Node.State.{MsgCert, empty_cert, received, prepared, committed}
use trebiz.Node.Cert.{primary, in_watermarks}
use trebiz.Node.Send.{verify_threshold_sig}
use trebiz.Normal.Checkpoint.{count_matching, diff_values, checkpoint_quorum}
use trebiz.Normal.Commit.{qc_payload}
use trebiz.Normal.Execute.{no_id}
use trebiz.Normal.PrePrepare.{conflicts}
use trebiz.ViewChange.Receive.{later_replicas, min_view}
use trebiz.ViewChange.Correct.{IsCorrect}
pub use trebiz.Protocol.Core.{
  exec_log, signed_votes, Core, core, cert_at, vote_at, IsPrepareQc, IsFastQc, HasCertificate, fast,
  slow,
}

module _ (e : Env) where
  -- When a replica takes a proposal.
  pub record IsAcceptable (s : Core) (id : MsgId) (c : MsgCert) (m : PrePrepareMsg) : Type 0 where
    pub same_sn : m.sn ≡ id.sn
    pub same_view : m.view ≡ id.view
    pub is_active : s.active ≡ true
    pub from_primary : m.replica_id ≡ primary e s.view
    pub in_window : in_watermarks e s.low m.sn ≡ true
    pub agrees : conflicts c m ≡ false

  -- How the certificate of a request may change.
  pub data CertStep (s : Core) (id : MsgId) (c : MsgCert) : MsgCert → Type 0 where
    votes :
        (prepares : Map ℕ PrepareMsg) (commits : Map ℕ CommitMsg) (p k : Bool)
        → CertStep s id c (record c {
          pre_pare_store = prepares;
          commit_store = commits;
          prepare_qc_stage = p;
          commit_qc_stage = k;
        })
    takes_proposal :
        (m : PrePrepareMsg)
        → IsAcceptable s id c m
        → CertStep s id c (record c {
          req_batch_stage = received;
          req_batch_digest = m.batch_hash;
          pre_prepare_store = some m;
        })
    takes_prepare_qc :
        (q : PrepareQc)
        → c.prepare_qc ≡ none
        → IsPrepareQc e id q
        → CertStep s id c (record c { prepare_qc = some q })
    takes_fast_qc :
        (q : FastPrepareQc)
        → c.fast_prepare_qc ≡ none
        → IsFastQc e id q
        → CertStep s id c (record c { fast_prepare_qc = some q })
    takes_commit_qc :
        (q : CommitQc) → c.commit_qc ≡ none → CertStep s id c (record c { commit_qc = some q })
    prepares :
        (q : PrepareQc)
        → c.req_batch_stage ≡ received
        → c.prepare_qc ≡ some q
        → CertStep s id c (record c { req_batch_stage = prepared })
    commits_fast :
        (q : FastPrepareQc)
        → c.req_batch_stage ≡ received
        → c.fast_prepare_qc ≡ some q
        → CertStep s id c (record c { req_batch_stage = committed })
    commits_slow :
        (k : CommitQc)
        → c.req_batch_stage ≡ prepared
        → c.commit_qc ≡ some k
        → verify_threshold_sig e (qc_payload c.prepare_qc) e.ts_pub_key k.threshold_sig ≡ true
        → CertStep s id c (record c { req_batch_stage = committed })

  -- A checkpoint that moves the low watermark: it lies in the window, a quorum of the stored checkpoints for its
  -- number has its digest, and they have few digests in all.
  pub record IsStableAt (s : Core) (c : CheckpointMsg) : Type 0 where
    pub in_window : in_watermarks e s.low c.seq_n ≡ true
    pub enough : checkpoint_quorum e ≤ count_matching c.state_digest (get c.seq_n [] s.checkpoints)
    pub few_digests :
        length (diff_values (get c.seq_n [] s.checkpoints) ((c.state_digest, true) ∷ [])) ≤ e.f + 1

  -- A request for a view that a replica notes.
  pub record IsAsked (s : Core) (vc : ViewChangeMsg) : Type 0 where
    pub not_old : s.view ≤ vc.view
    pub correct : IsCorrect e vc
    pub first : has (record { view = vc.view; replica_id = vc.replica_id }) s.asks ≡ false

  -- The smallest later view that is asked for, where f + 1 replicas ask for later views.
  pub record IsJoined (s : Core) (v : ℕ) : Type 0 where
    pub later : s.view < v
    pub enough : e.f + 1 ≤ length (later_replicas s.view s.asks [])
    pub smallest : v ≡ min_view s.view s.asks 0

  -- A new view that a replica notes: the primary of the view sent it, and it is the first for that view.
  pub record IsAnnounced (s : Core) (nv : NewViewMsg) : Type 0 where
    pub from_primary : primary e nv.view ≡ nv.replica_id
    pub not_old : s.view ≤ nv.view
    pub first : has nv.view s.new_views ≡ false

  -- A replica enters the view it has moved to, once it has a new-view message for it.
  pub record CanEnter (s : Core) : Type 0 where
    pub idle : s.active ≡ false
    pub message : NewViewMsg
    pub announced : lookup s.view s.new_views ≡ some message

  pub data Step : Core → Core → Type 0 where
    opens :
        (s : Core) (id : MsgId)
        → lookup id s.certs ≡ none
        → Step s (record s { certs = insert id empty_cert s.certs })
    changes :
        (s : Core) (id : MsgId) (c : MsgCert)
        → CertStep s id (cert_at s id) c
        → Step s (record s { certs = insert id c s.certs })
    -- A committed request waits for its turn.
    queues :
        (s : Core) (id : MsgId)
        → (cert_at s id).req_batch_stage ≡ committed
        → Step s (record s { ids = insert id.sn id s.ids })
    buffers :
        (s : Core) (id : MsgId)
        → lookup id.sn s.ids ≡ some id
        → Step s (record s { buffer = insert id.sn (cert_at s id).req_batch_digest s.buffer })
    -- The next request in the order of sequence numbers is executed, if it has come.
    executes_next :
        (s : Core) (digest : Bytes)
        → get (add32 s.last_exec 1) none s.buffer ≡ some digest
        → Step s (record s {
          last_exec = add32 s.last_exec 1;
          log = (add32 s.last_exec 1, get (add32 s.last_exec 1) no_id s.ids) ∷ s.log;
        })
    -- A vote carries the digest that the node has for the number in its view.
    signs_vote :
        (s : Core) (sn : ℕ)
        → Step s (record s { ballots = vote_at s (record { sn = sn; view = s.view }) ∷ s.ballots })
    stores_checkpoint :
        (s : Core) (c : CheckpointMsg)
        → in_watermarks e s.low c.seq_n ≡ true
        → Step s (record s {
          checkpoints = insert c.seq_n (insert c true (get c.seq_n [] s.checkpoints)) s.checkpoints;
        })
    moves_low :
        (s : Core) (c : CheckpointMsg) → IsStableAt s c → Step s (record s { low = c.seq_n })
    notes_ask :
        (s : Core) (vc : ViewChangeMsg)
        → IsAsked s vc
        → Step s (record s {
          asks = insert (record { view = vc.view; replica_id = vc.replica_id }) vc s.asks;
        })
    -- To join a later view, a replica goes to the view before it and leaves that.
    goes_before : (s : Core) (v : ℕ) → IsJoined s v → Step s (record s { view = sub32 v 1 })
    leaves_view : (s : Core) → Step s (record s { view = add32 s.view 1; active = false })
    notes_new_view :
        (s : Core) (nv : NewViewMsg)
        → IsAnnounced s nv
        → Step s (record s { new_views = insert nv.view nv s.new_views })
    -- The new view that a replica has made itself.
    makes_new_view :
        (s : Core) (nv : NewViewMsg)
        → nv.replica_id ≡ e.replica_id
        → Step s (record s { new_views = insert s.view nv s.new_views })
    enters_view : (s : Core) → CanEnter s → Step s (record s { active = true })

  pub data Steps (s : Core) : Core → Type 0 where
    here : Steps s s
    next : {t u : Core} → Steps s t → Step t u → Steps s u

-- What every step keeps.
pub record IsClosed (e : Env) (Q : Core → Type 0) : Type 0 where
  pub at : {s t : Core} → Step e s t → Q s → Q t

-- A closed property holds after any number of steps.
pub IsClosed-Steps :
    (e : Env) (Q : Core → Type 0) {s t : Core} → IsClosed e Q → Steps e s t → Q s → Q t
IsClosed-Steps e Q c here q = q
IsClosed-Steps e Q c (next r st) q = c.at st (IsClosed-Steps e Q c r q)

-- What can be reached from a state is closed.
pub Steps-IsClosed : (e : Env) (s : Core) → IsClosed e (Steps e s)
Steps-IsClosed e s = record { at = λ st r. next r st }
