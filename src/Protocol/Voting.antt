-- ===== src/Protocol/Voting.antt =====
-- Votes and the certificates that the primary makes of them are steps of the protocol.
use trebiz.Prelude.{ℕ, true, nat_key, insert, ◌∷◌, subst}
use trebiz.Messages.{Bytes, MsgId, PrepareMsg, CommitMsg, VoteForPrepare}
use trebiz.Node.Env.{Env, PubPoly}
use trebiz.Node.State.{PartialSigs, World, MsgCert, signs}
use trebiz.Node.Monad.{ErrChan}
use trebiz.Node.Cert.{modify_cert, cert_of}
use trebiz.Normal.Commit.{handle_commit_vote, handle_commit_msg}
use trebiz.Normal.Prepare.{
  create_prepare_msg, send_prepare_msg, make_prepare_sig, create_prepare_qc, create_fast_prepare_qc,
  check_if_prepare_qc, check_if_fast_prepare_qc, handle_prepare_vote, handle_prepare_msg,
  fast_timer_fires,
}
use trebiz.Protocol.Spec.{Core, core, IsClosed, votes, signs_vote}
use trebiz.Protocol.Keeps.{
  Keeps, Keeps-bind, Keeps-modify, keeps_rules, KeepsAt-read_node, KeepsAt-deref, KeepsAt-emit,
  everywhere,
}
use trebiz.Protocol.Quiet.{
  Keeps-report, Keeps-broadcast, Keeps-send_to_leader, Keeps-create_threshold_sig,
  Keeps-create_commit_qc,
}
use trebiz.Protocol.Certs.{
  Keeps-get_cert_only, Keeps-modify_cert, KeepsAt-get_cert, opened, cert_of-opened,
}

module _ (e : Env) {Q : Core → Type 0} where
  Keeps-make_prepare_sig :
      (id : MsgId) (b : Bytes) (sigs : PartialSigs) (key : PubPoly) (quorum : ℕ)
      → Keeps Q (make_prepare_sig e id b sigs key quorum)
  unfolding make_prepare_sig
  Keeps-make_prepare_sig id b sigs key quorum = search (keeps_rules, Keeps-create_threshold_sig)

  Keeps-create_prepare_qc : (id : MsgId) (b : Bytes) → Keeps Q (create_prepare_qc e id b)
  unfolding create_prepare_qc
  Keeps-create_prepare_qc id b = search (keeps_rules, Keeps-make_prepare_sig)

  Keeps-create_fast_prepare_qc : (id : MsgId) (b : Bytes) → Keeps Q (create_fast_prepare_qc e id b)
  unfolding create_fast_prepare_qc
  Keeps-create_fast_prepare_qc id b = search (keeps_rules, Keeps-make_prepare_sig)

module _ (e : Env) {Q : Core → Type 0} (closed : IsClosed e Q) where
  prepare_stage-step :
      (id : MsgId) → Keeps Q (modify_cert id λ c. record c { prepare_qc_stage = true })
  prepare_stage-step id =
      Keeps-modify_cert e closed id _
        λ s c. votes c.pre_pare_store c.commit_store true c.commit_qc_stage

  commit_stage-step :
      (id : MsgId) → Keeps Q (modify_cert id λ c. record c { commit_qc_stage = true })
  commit_stage-step id =
      Keeps-modify_cert e closed id _
        λ s c. votes c.pre_pare_store c.commit_store c.prepare_qc_stage true

  signs-step :
      (w : World) (sn : ℕ)
      → let id : MsgId = record { sn = sn; view = w.node.curren_view } in
        let v : VoteForPrepare = record {
          sn = sn;
          batch_hash = (cert_of w.node id).req_batch_digest;
          view = w.node.curren_view;
        } in
        Q (core (opened id w)) → Q (core (record (opened id w) { out = signs v ∷ w.out }))
  signs-step w sn q =
      let id : MsgId = record { sn = sn; view = w.node.curren_view } in
      subst
        (λ (c : MsgCert).
          let v : VoteForPrepare = record {
            sn = sn;
            batch_hash = c.req_batch_digest;
            view = w.node.curren_view;
          } in
          Q (core (record (opened id w) { out = signs v ∷ w.out })))
        (cert_of-opened w id) (closed.at (signs_vote (core (opened id w)) sn) q)

  pub Keeps-create_prepare_msg : (sn : ℕ) → Keeps Q (create_prepare_msg e sn)
  unfolding create_prepare_msg
  Keeps-create_prepare_msg sn = everywhere λ w. KeepsAt-read_node _ (
      KeepsAt-get_cert e closed (record { sn = sn; view = w.node.curren_view }) _
        (KeepsAt-deref _ _ λ bytes. KeepsAt-deref _ _ λ sig.
          KeepsAt-deref _ _
            λ fast_sig. KeepsAt-emit (signs _) _ (signs-step w sn) (search keeps_rules)))

  pub Keeps-send_prepare_msg : (sn : ℕ) (err : ErrChan) → Keeps Q (send_prepare_msg e sn err)
  unfolding send_prepare_msg
  Keeps-send_prepare_msg sn err =
      search (keeps_rules, Keeps-create_prepare_msg, Keeps-send_to_leader, Keeps-report)

  pub Keeps-check_if_prepare_qc : (id : MsgId) (b : Bytes) → Keeps Q (check_if_prepare_qc e id b)
  unfolding check_if_prepare_qc
  Keeps-check_if_prepare_qc id b =
      search
        (
          keeps_rules,
          Keeps-get_cert_only e closed,
          prepare_stage-step,
          Keeps-create_prepare_qc,
          Keeps-broadcast,
        )
        depth 12

  Keeps-check_if_fast_prepare_qc :
      (id : MsgId) (b : Bytes) → Keeps Q (check_if_fast_prepare_qc e id b)
  unfolding check_if_fast_prepare_qc
  Keeps-check_if_fast_prepare_qc id b =
      search
        (
          keeps_rules,
          Keeps-get_cert_only e closed,
          prepare_stage-step,
          Keeps-create_fast_prepare_qc,
          Keeps-broadcast,
        )
        depth 12

  pub Keeps-handle_prepare_vote : (pm : PrepareMsg) → Keeps Q (handle_prepare_vote e pm)
  unfolding handle_prepare_vote
  Keeps-handle_prepare_vote pm = Keeps-bind _ _ (Keeps-get_cert_only e closed _) λ _.
      Keeps-bind _ _ (Keeps-modify _ (λ w h. h))
        λ _. search (keeps_rules, Keeps-check_if_prepare_qc, Keeps-check_if_fast_prepare_qc)

  store_vote-step :
      (id : MsgId) (pm : PrepareMsg)
      → Keeps Q (
          modify_cert id
            λ c. record c { pre_pare_store = insert pm.replica_id pm c.pre_pare_store })
  store_vote-step id pm = Keeps-modify_cert e closed id _ λ s c.
      votes (insert pm.replica_id pm c.pre_pare_store) c.commit_store c.prepare_qc_stage
        c.commit_qc_stage

  pub Keeps-handle_prepare_msg : (pm : PrepareMsg) → Keeps Q (handle_prepare_msg e pm)
  unfolding handle_prepare_msg
  Keeps-handle_prepare_msg pm =
      search (keeps_rules, Keeps-get_cert_only e closed, store_vote-step, Keeps-handle_prepare_vote)
        depth 12

  pub Keeps-fast_timer_fires : (id : MsgId) (b : Bytes) → Keeps Q (fast_timer_fires e id b)
  unfolding fast_timer_fires
  Keeps-fast_timer_fires id b =
      Keeps-bind _ _ (Keeps-modify _ (λ w h. h)) λ _. Keeps-check_if_prepare_qc id b

  Keeps-handle_commit_vote : (cm : CommitMsg) → Keeps Q (handle_commit_vote e cm)
  unfolding handle_commit_vote
  Keeps-handle_commit_vote cm = Keeps-bind _ _ (Keeps-get_cert_only e closed _) λ cert.
      Keeps-bind _ _ (Keeps-modify _ (λ w h. h)) λ _.
        search (keeps_rules, commit_stage-step, Keeps-create_commit_qc, Keeps-broadcast) depth 12

  store_commit-step :
      (id : MsgId) (cm : CommitMsg)
      → Keeps Q
          (modify_cert id λ c. record c { commit_store = insert cm.replica_id cm c.commit_store })
  store_commit-step id cm = Keeps-modify_cert e closed id _ λ s c.
      votes c.pre_pare_store (insert cm.replica_id cm c.commit_store) c.prepare_qc_stage
        c.commit_qc_stage

  pub Keeps-handle_commit_msg : (cm : CommitMsg) → Keeps Q (handle_commit_msg e cm)
  unfolding handle_commit_msg
  Keeps-handle_commit_msg cm =
      search
        (keeps_rules, Keeps-get_cert_only e closed, store_commit-step, Keeps-handle_commit_vote)
        depth 12
