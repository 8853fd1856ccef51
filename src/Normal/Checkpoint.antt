-- ===== src/Normal/Checkpoint.antt =====
-- core/core.go: checkpoints and the watermarks.
use trebiz.Prelude.{
  ℕ, nat_key, bytes_key, ◌+◌, ◌*◌, ◌/◌, ◌%◌, [], ◌∷◌, Bool, true, Map, insert, get, length, ltb,
  ◌==◌, ◌||◌, not, if◌then◌else◌, same_bytes,
}
use trebiz.Messages.{Bytes, CheckpointMsg, checkpoint_key, check_point, check_point_type}
use trebiz.Node.Env.{Env}
use trebiz.Node.Monad.{M, Stop, ◌>>=◌, ◌>>◌, skip, halt, read_node, modify, ErrChan}
use trebiz.Node.Cert.{in_watermarks}
use trebiz.Node.Send.{broadcast, report}

-- The checkpoints with the digest of the received one.
unfoldable pub count_matching : Bytes → Map CheckpointMsg Bool → ℕ
count_matching digest [] = 0
count_matching digest ((c, _) ∷ rest) =
    let others = count_matching digest rest in
    if same_bytes c.state_digest digest then others + 1 else others

-- The set of digests that were seen, beginning with the received one.
unfoldable pub diff_values : Map CheckpointMsg Bool → Map Bytes Bool → Map Bytes Bool
diff_values [] seen = seen
diff_values ((c, _) ∷ rest) seen = diff_values rest (insert c.state_digest true seen)

module _ (e : Env) where
  unfoldable pub checkpoint : ℕ → Bytes → ErrChan → M (Unit {0})
  checkpoint seq_no digest err =
      if e.checkpoint_t == 0
      then halt Stop.panicked
      else if not (seq_no % e.checkpoint_t == 0)
      then skip
      else (do
        modify λ n. record n { chkpts = insert seq_no digest n.chkpts }
        failed ←
            broadcast e check_point_type
              (check_point
                (record { seq_n = seq_no; state_digest = digest; replica_id = e.replica_id }))
              []
        report failed err)

  unfoldable pub move_watermarks : ℕ → M (Unit {0})
  move_watermarks seq_no = modify λ n. record n { h = seq_no }

  -- `int(math.Ceil(float64(2*(len)/3.0)))+1`: the constant 3.0 is an integer there, so the division
  -- is of integers, and rounds down.
  unfoldable pub checkpoint_quorum : ℕ
  checkpoint_quorum = 2 * length e.cluster_addr / 3 + 1

  unfoldable pub recv_checkpoint : CheckpointMsg → M (Unit {0})
  unfolding move_watermarks count_matching diff_values checkpoint_quorum
  recv_checkpoint chkpt = do
    n ← read_node
    if not (in_watermarks e n.h chkpt.seq_n) then skip else do
      let store = insert chkpt true (get chkpt.seq_n [] n.checkpoint_store)
      modify λ m. record m { checkpoint_store = insert chkpt.seq_n store m.checkpoint_store }
      if ltb (e.f + 1) (length (diff_values store ((chkpt.state_digest, true) ∷ [])))
            || ltb (count_matching chkpt.state_digest store) checkpoint_quorum
          then skip
          else move_watermarks chkpt.seq_n
