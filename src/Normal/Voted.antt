-- ===== src/Normal/Voted.antt =====
-- The certificates that the primary makes from votes to prepare.
use trebiz.Prelude.{ℕ, ◌≡◌, List, some, true}
use trebiz.Messages.{Bytes, MsgId, id_key, VoteForPrepare}
use trebiz.Text.{encode_to_string}
use trebiz.Sign.{assemble_intact_ts_partial, verify_ts}
use trebiz.Node.Env.{Env, PubPoly}
use trebiz.Node.State.{PartialSigs}
use trebiz.Normal.Commit.{sigs_for, signatures}

-- A signature that is recovered from partial ones verifies.
abbrev pub RecoversVerifying : Env → Type 0
RecoversVerifying e =
    (key : PubPoly) (msg : Bytes) (sigs : List Bytes) (t n : ℕ) (sig : Bytes)
    → assemble_intact_ts_partial e sigs key msg t n ≡ some sig
    → verify_ts e key msg sig ≡ true

-- The vote for a batch hash.
abbrev pub vote_for : MsgId → Bytes → VoteForPrepare
vote_for id hash = record { sn = id.sn; batch_hash = some hash; view = id.view }

-- The stored partial signatures of that vote make up a threshold signature.
abbrev pub Recovers : Env → MsgId → Bytes → PartialSigs → PubPoly → ℕ → Bytes → Bytes → Type 0
Recovers e id hash sigs key quorum bytes sig =
    assemble_intact_ts_partial e (signatures (sigs_for id (encode_to_string hash) sigs)) key bytes
      quorum e.replica_count
    ≡ some sig
