-- ===== src/Protocol/Core.antt =====
-- The abstract state of a node, and the certificates that justify an execution.
use trebiz.Prelude.{ℕ, ◌≡◌, bytes_key, List, [], ◌∷◌, Option, some, Bool, true, Map, nat_key, get}
use trebiz.Messages.{
  Bytes, MsgId, id_key, PrepareQc, FastPrepareQc, CommitQc, VoteForPrepare, Payload, CheckpointMsg,
  checkpoint_key, Vcidx, vcidx_key, ViewChangeMsg, NewViewMsg,
}
use trebiz.Node.Env.{Env}
use trebiz.Node.State.{
  MsgCert, empty_cert, Effect, spawns, posts, starts_fast_timer, stops_timer, resets_timer,
  soft_resets_timer, executes, signs, World,
}
use trebiz.Node.Send.{verify_threshold_sig}
use trebiz.Normal.Commit.{qc_payload}
use trebiz.Normal.Prepare.{vote_of, fast_vote_of}

-- The requests that were executed, the last one first.
abbrev pub exec_log : List Effect → List (ℕ × MsgId)
exec_log [] = []
exec_log (spawns t ∷ rest) = exec_log rest
exec_log (posts a ty m sig ∷ rest) = exec_log rest
exec_log (starts_fast_timer id b ∷ rest) = exec_log rest
exec_log (stops_timer ∷ rest) = exec_log rest
exec_log (resets_timer t ∷ rest) = exec_log rest
exec_log (soft_resets_timer t ∷ rest) = exec_log rest
exec_log (executes sn id ∷ rest) = (sn, id) ∷ exec_log rest
exec_log (signs v ∷ rest) = exec_log rest

-- The votes that were signed, the last one first.
abbrev pub signed_votes : List Effect → List VoteForPrepare
signed_votes [] = []
signed_votes (spawns t ∷ rest) = signed_votes rest
signed_votes (posts a ty m sig ∷ rest) = signed_votes rest
signed_votes (starts_fast_timer id b ∷ rest) = signed_votes rest
signed_votes (stops_timer ∷ rest) = signed_votes rest
signed_votes (resets_timer t ∷ rest) = signed_votes rest
signed_votes (soft_resets_timer t ∷ rest) = signed_votes rest
signed_votes (executes sn id ∷ rest) = signed_votes rest
signed_votes (signs v ∷ rest) = v ∷ signed_votes rest

pub record Core : Type 0 where
  pub certs : Map MsgId MsgCert
  pub last_exec : ℕ
  pub buffer : Map ℕ (Option Bytes)
  pub ids : Map ℕ MsgId
  pub low : ℕ
  pub view : ℕ
  pub active : Bool
  pub log : List (ℕ × MsgId)
  pub ballots : List VoteForPrepare
  pub checkpoints : Map ℕ (Map CheckpointMsg Bool)
  pub asks : Map Vcidx ViewChangeMsg
  pub new_views : Map ℕ NewViewMsg

-- What a world shows of itself.
abbrev pub core : World → Core
core w = record {
  certs = w.node.req_cert_store;
  last_exec = w.node.last_exec;
  buffer = w.node.exec_req_buffer;
  ids = w.node.exec_req_id_buffer;
  low = w.node.h;
  view = w.node.curren_view;
  active = w.node.active_view;
  log = exec_log w.out;
  ballots = signed_votes w.out;
  checkpoints = w.node.checkpoint_store;
  asks = w.node.view_change_store;
  new_views = w.node.new_view_store;
}

abbrev pub cert_at : Core → MsgId → MsgCert
cert_at s id = get id empty_cert s.certs

-- The vote for a request, by what the node holds of it.
abbrev pub vote_at : Core → MsgId → VoteForPrepare
vote_at s id = record { sn = id.sn; batch_hash = (cert_at s id).req_batch_digest; view = id.view }

module _ (e : Env) where
  -- A certificate that 2f + 1 replicas prepared a request.
  pub record IsPrepareQc (id : MsgId) (q : PrepareQc) : Type 0 where
    pub same_sn : q.sn ≡ id.sn
    pub same_view : q.view ≡ id.view
    pub signed :
        verify_threshold_sig e (Payload.vote (vote_of q)) e.ts_pub_key q.threshold_sig ≡ true

  -- The certificate of the fast path.
  pub record IsFastQc (id : MsgId) (q : FastPrepareQc) : Type 0 where
    pub same_sn : q.sn ≡ id.sn
    pub same_view : q.view ≡ id.view
    pub signed :
        verify_threshold_sig e (Payload.vote (fast_vote_of q)) e.fast_pub_key q.threshold_sig ≡ true

  -- What justifies that a request is executed: the fast path's certificate, or a prepare certificate
  -- with a commit certificate over it.
  pub data HasCertificate (id : MsgId) (c : MsgCert) : Type 0 where
    fast : (q : FastPrepareQc) → c.fast_prepare_qc ≡ some q → IsFastQc id q → HasCertificate id c
    slow :
        (q : PrepareQc) (k : CommitQc)
        → c.prepare_qc ≡ some q
        → IsPrepareQc id q
        → c.commit_qc ≡ some k
        → verify_threshold_sig e (qc_payload (some q)) e.ts_pub_key k.threshold_sig ≡ true
        → HasCertificate id c
