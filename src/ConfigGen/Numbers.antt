-- ===== src/ConfigGen/Numbers.antt =====
-- The thresholds that the generator gives a cluster.
use trebiz.Prelude.{ℕ, ◌+◌, ◌/◌, ◌%◌, ◌≤◌, ◌<◌, ◌≢◌, min, arith}
use trebiz.ConfigGen.Files.{num_t, fast_num}

-- The thresholds of both kinds of keys are large enough for certificates that agree: twice the smaller one is more
-- than the number of nodes and of faulty nodes together. The number of nodes is no multiple of 3, and there are no
-- more faulty nodes of the three kinds than the generator allows.
pub thresholds-large :
    (n bg abm pbm : ℕ)
    → n % 3 ≢ 0
    → bg + abm + pbm ≤ n / 3
    → n + (bg + abm + pbm) < min (num_t n) (fast_num n abm pbm) + min (num_t n) (fast_num n abm pbm)
thresholds-large n bg abm pbm h few = ground arith
