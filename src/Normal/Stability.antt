-- ===== src/Normal/Stability.antt =====
-- When a node moves its watermarks.
use trebiz.Prelude.{nat_key, ◌≤◌, ◌+◌, ◌≡◌, [], ◌∷◌, Bool, true, Map, insert, get, length}
use trebiz.Messages.{CheckpointMsg, checkpoint_key}
use trebiz.Node.Env.{Env}
use trebiz.Node.State.{World}
use trebiz.Node.Cert.{in_watermarks}
use trebiz.Normal.Checkpoint.{count_matching, diff_values, checkpoint_quorum}

-- The checkpoints for the number of `c` that a node holds when it has stored `c`.
abbrev pub stored_with : World → CheckpointMsg → Map CheckpointMsg Bool
stored_with w c = insert c true (get c.seq_n [] w.node.checkpoint_store)

-- When a node moves its low watermark.
pub record IsStable (e : Env) (w : World) (c : CheckpointMsg) : Type 0 where
  pub in_window : in_watermarks e w.node.h c.seq_n ≡ true
  pub enough : checkpoint_quorum e ≤ count_matching c.state_digest (stored_with w c)
  pub few_digests : length (diff_values (stored_with w c) ((c.state_digest, true) ∷ [])) ≤ e.f + 1
