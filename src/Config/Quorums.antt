-- ===== src/Config/Quorums.antt =====
-- The bound on faults that `NewNode` computes, and the quorums of core/core.go.
use trebiz.Prelude.{ℕ, ◌+◌, ◌*◌, ◌/◌, ◌%◌, ◌≤◌, ◌<◌, ◌≡◌, ◌↔◌, arith, length}
use trebiz.Config.{Config, fault_bound, new_settings}
use trebiz.Node.Env.{Crypto, Outside}
use trebiz.Normal.Checkpoint.{checkpoint_quorum}

quorums_iff :
    (n : ℕ) → ((n + n / 3 < 2 * (2 * (n / 3) + 1)) × (2 * (n / 3) + 1 + n / 3 ≤ n)) ↔ (n % 3 ≡ 1)
quorums_iff n = (λ h. omega arith, λ h. (omega arith, omega arith))

two_thirds :
    (n : ℕ) → (2 * n < 3 * (2 * n / 3 + 1)) × ((2 * n / 3 + 1 ≡ 2 * (n / 3) + 1) ↔ (n % 3 < 2))
two_thirds n = (omega arith, (λ h. omega arith, λ h. omega arith))

-- With the fault bound f that a node computes from its n replicas, any two quorums of 2f + 1 replicas
-- have more than f replicas in common and n - f replicas still are a quorum, exactly if n leaves the
-- remainder 1 when it is divided by 3.
pub quorums_meet_iff :
    (conf : Config)
    → let n = length conf.cluster_addr in
      let f = (new_settings conf).f in
      ((n + f < 2 * (2 * f + 1)) × (2 * f + 1 + f ≤ n)) ↔ (n % 3 ≡ 1)
unfolding new_settings fault_bound
quorums_meet_iff conf = quorums_iff (length conf.cluster_addr)

-- The number of equal checkpoints that moves the watermarks is more than two thirds of the replicas, and it is
-- 2f + 1 exactly if the number of replicas leaves the remainder 0 or 1 when it is divided by 3.
pub checkpoint_quorum_iff :
    (conf : Config) (crypto : Crypto) (outside : Outside)
    → let n = length conf.cluster_addr in
      let q =
        checkpoint_quorum
          (record { settings = new_settings conf; crypto = crypto; outside = outside }) in
      (2 * n < 3 * q) × ((q ≡ 2 * (new_settings conf).f + 1) ↔ (n % 3 < 2))
unfolding new_settings fault_bound checkpoint_quorum
checkpoint_quorum_iff conf crypto outside = two_thirds (length conf.cluster_addr)
