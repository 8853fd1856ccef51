-- ===== src/Protocol/Proposals.antt =====
-- Proposals, checkpoints and the pool of requests are steps of the protocol.
use trebiz.Prelude.{
  ◌≡◌, refl, sym, subst, some, true, false, not, ==_iff, insert, nat_key, if◌then◌else◌,
}
use trebiz.Messages.{Bytes, MsgId, id_key, PrePrepareMsg, RequestBatch}
use trebiz.Node.Env.{Env}
use trebiz.Node.State.{Node, World, received, starts_fast_timer}
use trebiz.Node.Monad.{after, ErrChan, ◌>>=◌, modify, skip}
use trebiz.Node.Cert.{cert_of, primary, in_watermarks}
use trebiz.ViewChange.Send.{send_view_change}
use trebiz.Normal.PrePrepare.{
  create_pre_prepare_msg, start_fast_timer, broadcast_pre_prepare_msg, conflicts, take_pre_prepare,
  is_foreign, accept_pre_prepare, handle_pre_prepare_msg,
}
use trebiz.Normal.Prepare.{create_prepare_msg, handle_prepare_msg}
use trebiz.Protocol.Spec.{Core, core, IsClosed, takes_proposal, IsAcceptable}
use trebiz.Protocol.Keeps.{
  Keeps, Keeps-bind, Keeps-skip, Keeps-modify, Keeps-emit, Keeps-read_node, keeps_rules, KeepsAt,
  KeepsAt-if, KeepsAt-read_node, anywhere, everywhere,
}
use trebiz.Protocol.Quiet.{Keeps-report, Keeps-broadcast}
use trebiz.Protocol.Certs.{KeepsAt-get_cert, opened, cert_of-opened}
use trebiz.Protocol.Commits.{Keeps-check_if_prepared}
use trebiz.Protocol.Voting.{
  Keeps-create_prepare_msg, Keeps-send_prepare_msg, Keeps-handle_prepare_msg,
}
use trebiz.Protocol.Accepting.{or-false, not-false, Keeps-leave, then-step}

module _ (e : Env) {Q : Core → Type 0} where
  Keeps-create_pre_prepare_msg : (b : RequestBatch) → Keeps Q (create_pre_prepare_msg e b)
  unfolding create_pre_prepare_msg
  Keeps-create_pre_prepare_msg b =
      Keeps-bind _ _ Keeps-read_node
        λ n. Keeps-bind _ _ (Keeps-modify _ (λ w h. h)) λ _. search keeps_rules

  pub Keeps-start_fast_timer : (id : MsgId) (b : Bytes) → Keeps Q (start_fast_timer e id b)
  unfolding start_fast_timer
  Keeps-start_fast_timer id b =
      Keeps-bind _ _ (Keeps-modify _ (λ w h. h)) λ _. Keeps-emit (starts_fast_timer id b) (λ w h. h)

  pub Keeps-broadcast_pre_prepare_msg :
      (b : RequestBatch) (err : ErrChan) → Keeps Q (broadcast_pre_prepare_msg e b err)
  unfolding broadcast_pre_prepare_msg
  Keeps-broadcast_pre_prepare_msg b err =
      search
        (
          keeps_rules, Keeps-create_pre_prepare_msg, Keeps-start_fast_timer, Keeps-broadcast,
          Keeps-report,
        )
        depth 12

module _ (e : Env) {Q : Core → Type 0} (closed : IsClosed e Q) where
  vote_own-step :
      (ppm : PrePrepareMsg) (err : ErrChan)
      → Keeps Q (create_prepare_msg e ppm.sn >>= λ pm. handle_prepare_msg e pm)
  vote_own-step ppm err =
      Keeps-bind _ _ (Keeps-create_prepare_msg e closed ppm.sn)
        (λ pm. Keeps-handle_prepare_msg e closed pm)

  accept_pre_prepare-step :
      (id : MsgId) (m : PrePrepareMsg) (err : ErrChan) (w : World)
      → IsAcceptable e (core w) id (cert_of w.node id) m
      → Q (core w)
      → Q (core (after (accept_pre_prepare e id m err w)))
  unfolding accept_pre_prepare modify ◌>>=◌
  accept_pre_prepare-step id m err w a q =
      then-step e closed
        (record w { node = record w.node { req_batch = insert id m.req_batch w.node.req_batch } })
        id
        (λ c. record c {
          req_batch_stage = received;
          req_batch_digest = m.batch_hash;
          pre_prepare_store = some m;
        })
        _ (takes_proposal m a)
        (Keeps-bind _ _ (Keeps-check_if_prepared e closed id err)
          λ _. search (keeps_rules, Keeps-send_prepare_msg e closed, vote_own-step))
        q

  take_pre_prepare-at :
      (m : PrePrepareMsg) (err : ErrChan) (w : World)
      → w.node.active_view ≡ true
      → m.replica_id ≡ primary e w.node.curren_view
      → in_watermarks e w.node.h m.sn ≡ true
      → KeepsAt Q w (take_pre_prepare e (record { sn = m.sn; view = m.view }) m err)
  unfolding take_pre_prepare
  take_pre_prepare-at m err w on ours inside =
      let id : MsgId = record { sn = m.sn; view = m.view } in
      KeepsAt-get_cert e closed id _ (
        KeepsAt-if (conflicts (cert_of w.node id) m) _ _ (λ _. anywhere (Keeps-leave e closed err))
          λ agrees. record {
            holds = accept_pre_prepare-step id m err (opened id w) (record {
              same_sn = refl;
              same_view = refl;
              is_active = on;
              from_primary = ours;
              in_window = inside;
              agrees = subst (λ c. conflicts c m ≡ false) (sym (cert_of-opened w id)) agrees;
            });
          })

  foreign-false :
      (n : Node) (m : PrePrepareMsg)
      → is_foreign e n m ≡ false
      → m.replica_id ≡ primary e n.curren_view
  unfolding is_foreign
  foreign-false n m h = (==_iff _ _).0 (not-false _ (or-false _ _ h).1)

  pub Keeps-handle_pre_prepare_msg :
      (m : PrePrepareMsg) (err : ErrChan) → Keeps Q (handle_pre_prepare_msg e m err)
  unfolding handle_pre_prepare_msg
  Keeps-handle_pre_prepare_msg m err = everywhere λ w.
      let take = take_pre_prepare e (record { sn = m.sn; view = m.view }) m err in
      let guarded = if not (in_watermarks e w.node.h m.sn) then skip else take in
      KeepsAt-read_node _ (
        KeepsAt-if (not w.node.active_view) skip
          (if is_foreign e w.node m then send_view_change e err else guarded)
          (λ _. anywhere Keeps-skip)
          λ on.
            KeepsAt-if (is_foreign e w.node m) (send_view_change e err) guarded
              (λ _. anywhere (Keeps-leave e closed err))
              λ ours.
                KeepsAt-if (not (in_watermarks e w.node.h m.sn)) skip take
                  (λ _. anywhere Keeps-skip)
                  λ inside.
                    take_pre_prepare-at m err w (not-false _ on) (foreign-false w.node m ours)
                      (not-false _ inside))
