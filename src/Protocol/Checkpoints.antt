-- ===== src/Protocol/Checkpoints.antt =====
-- Checkpoints are steps of the protocol.
use trebiz.Normal.Stability.{stored_with}
use trebiz.Prelude.{
  ℕ, ◌+◌, ◌≤◌, ◌≡◌, sym, subst, [], ◌∷◌, true, false, not, ◌||◌, ltb, length, insert, get, nat_key,
  bytes_key, lookup-insert_self, arith,
}
use trebiz.Messages.{Bytes, CheckpointMsg, checkpoint_key, vcidx_key}
use trebiz.Node.Env.{Env}
use trebiz.Node.State.{World}
use trebiz.Node.Monad.{after, ErrChan, ◌>>=◌, modify, skip}
use trebiz.Node.Cert.{in_watermarks}
use trebiz.Normal.Checkpoint.{
  count_matching, diff_values, checkpoint_quorum, checkpoint, move_watermarks, recv_checkpoint,
}
use trebiz.Protocol.Spec.{Core, core, IsClosed, IsStableAt, moves_low, stores_checkpoint}
use trebiz.Protocol.Keeps.{Keeps, Keeps-modify, keeps_rules, if_at}
use trebiz.Protocol.Quiet.{Keeps-report, Keeps-broadcast}
use trebiz.Protocol.Accepting.{not-false}

module _ (e : Env) {Q : Core → Type 0} where
  note_chkpt :
      (sn : ℕ) (digest : Bytes)
      → Keeps Q (modify λ n. record n { chkpts = insert sn digest n.chkpts })
  note_chkpt sn digest = Keeps-modify _ (λ w h. h)

  pub Keeps-checkpoint :
      (sn : ℕ) (digest : Bytes) (err : ErrChan) → Keeps Q (checkpoint e sn digest err)
  unfolding checkpoint
  Keeps-checkpoint sn digest err =
      search (keeps_rules, note_chkpt, Keeps-broadcast, Keeps-report) depth 12

module _ (e : Env) {Q : Core → Type 0} (closed : IsClosed e Q) where
  Keeps-move_watermarks :
      (w : World) (c : CheckpointMsg)
      → IsStableAt e (core w) c
      → Q (core w)
      → Q (core (after (move_watermarks e c.seq_n w)))
  unfolding move_watermarks modify
  Keeps-move_watermarks w c stable q = closed.at (moves_low (core w) c stable) q

  -- The world after a checkpoint was stored.
  abbrev noted : World → CheckpointMsg → World
  noted w c = record w {
    node = record w.node {
      checkpoint_store =
          insert c.seq_n (insert c true (get c.seq_n [] w.node.checkpoint_store))
            w.node.checkpoint_store;
    };
  }

  noted-stored :
      (w : World) (c : CheckpointMsg)
      → get c.seq_n [] (noted w c).node.checkpoint_store ≡ stored_with w c
  noted-stored w c =
      ground (arith, lookup-insert_self c.seq_n (stored_with w c) w.node.checkpoint_store)

  noted-IsStableAt :
      (w : World) (c : CheckpointMsg)
      → in_watermarks e w.node.h c.seq_n ≡ true
      → (ltb (e.f + 1) (length (diff_values (stored_with w c) ((c.state_digest, true) ∷ [])))
          || ltb (count_matching c.state_digest (stored_with w c)) (checkpoint_quorum e))
        ≡ false
      → IsStableAt e (core (noted w c)) c
  noted-IsStableAt w c inside passed = record {
    in_window = inside;
    enough =
        subst (λ m. checkpoint_quorum e ≤ count_matching c.state_digest m) (sym (noted-stored w c))
          (ground arith);
    few_digests =
        subst (λ m. length (diff_values m ((c.state_digest, true) ∷ [])) ≤ e.f + 1)
          (sym (noted-stored w c)) (ground arith);
  }

  pub Keeps-recv_checkpoint : (c : CheckpointMsg) → Keeps Q (recv_checkpoint e c)
  unfolding recv_checkpoint modify ◌>>=◌
  Keeps-recv_checkpoint c = record {
    at = λ w q.
        if_at Q (not (in_watermarks e w.node.h c.seq_n)) skip _ w (λ _. q)
          λ outside.
            let inside = not-false _ outside in
            let q' = closed.at (stores_checkpoint (core w) c inside) q in
            if_at Q _ skip (move_watermarks e c.seq_n) (noted w c) (λ _. q')
              λ passed. Keeps-move_watermarks (noted w c) c (noted-IsStableAt w c inside passed) q';
  }
