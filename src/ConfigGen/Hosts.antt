-- ===== src/ConfigGen/Hosts.antt =====
-- The loops over the hosts of a template, whose names are "node" with a number.
use trebiz.Prelude.{
  ℕ, ◌+◌, ◌*◌, ◌<◌, ◌≤◌, ◌≡◌, ◌∙◌, inl, inr, refl, ap, sym, subst, [], ◌∷◌, some, Map, bytes_key,
  lookup, insert, lookup-insert, lookup-insert_self, All, ◌^◌, Bool-cases, arith,
}
use trebiz.Messages.{Bytes}
use trebiz.Text.{itoa}
use trebiz.Text.Decimal.{some_digits-itoa}
use trebiz.Config.Load.{Value, text, number, Loading, loaded}
use trebiz.ConfigGen.Files.{node, ip_index, cluster_ips, p2p_ports}
use trebiz.ConfigGen.Peers.{replica_of_first, node-injective, long_enough}

pub ip_index-node : (i : ℕ) → ip_index (node i) ≡ loaded (some i)
unfolding ip_index node
ip_index-node i = rw (long_enough (itoa i)) (ap loaded (some_digits-itoa i))

abbrev pub Hosts : Type 0
Hosts = Map Bytes Value

-- The entry of a host, by its number.
abbrev pub IsHost : ℕ → (ℕ → Bytes) → Bytes → Value → Type 0
IsHost n addrs name x = (i : ℕ) × (i < n) × (name ≡ node i) × (x ≡ text (addrs i))

module _ (n : ℕ) (few : n ≤ 2 ^ 32) (addrs : ℕ → Bytes) where
  injective : (i j : ℕ) → i < n → j < n → node i ≡ node j → i ≡ j
  injective i j hi hj = node-injective i j (omega (arith, few, hi)) (omega (arith, few, hj))

  module _ (value : ℕ → Value) where
    abbrev HasValue : Hosts → ℕ → Type 0
    HasValue m i = lookup (node i) m ≡ some (value i)

    insert-HasValue :
        (i j : ℕ) (m : Hosts)
        → i < n
        → j < n
        → HasValue m j
        → HasValue (insert (node i) (value i) m) j
    insert-HasValue i j m hi hj h = elim (Bool-cases (bytes_key.same (node i) (node j))) [
      | inl at ↦
          let same = injective i j hi hj ((bytes_key.same_iff (node i) (node j)).0 at) in
          subst (HasValue (insert (node i) (value i) m)) same
            (lookup-insert_self (node i) (value i) m)
      | inr off ↦ rw (lookup-insert (node i) (node j) (value i) m, off) h
    ]

    -- A loop that puts the value of each host into a map.
    pub loop-fills :
        (f : Hosts → Hosts → Loading Hosts)
        → ((acc : Hosts) → f [] acc ≡ loaded acc)
        → ((i : ℕ) (rest acc : Hosts)
            → i < n
            → f ((node i, text (addrs i)) ∷ rest) acc ≡ f rest (insert (node i) (value i) acc))
        → (hosts acc : Hosts) → All (λ p. IsHost n addrs p.0 p.1) hosts
        → (m : Hosts) × (f hosts acc ≡ loaded m)
          × ((j : ℕ) → j < n → HasValue acc j → HasValue m j)
          × ((j : ℕ) (x : Value) → j < n → lookup (node j) hosts ≡ some x → HasValue m j)
    unfolding lookup
    loop-fills f ends turns [] acc h =
        (acc, ends acc, λ j small old. old, λ j x small found. absurd cc)
    loop-fills f ends turns ((name, x) ∷ rest) acc h =
        let i : ℕ = h.0.0 in
        let r = loop-fills f ends turns rest (insert (node i) (value i) acc) h.1 in
        (
          r.0,
          ap (λ n. f ((n, x) ∷ rest) acc) h.0.2
              ∙ ap (λ y. f ((node i, y) ∷ rest) acc) h.0.3
              ∙ turns i rest acc h.0.1
              ∙ r.1,
          λ j small old. r.2 j small (insert-HasValue i j acc h.0.1 small old),
          λ j y small found. elim (Bool-cases (bytes_key.same name (node j))) [
            | inl at ↦
                subst (HasValue r.0)
                  (injective i j h.0.1 small (sym h.0.2 ∙ (bytes_key.same_iff name (node j)).0 at))
                  (r.2 i h.0.1 (lookup-insert_self (node i) (value i) acc))
            | inr off ↦ r.3 j y small (sym (rw off refl) ∙ found)
          ],
        )

cluster_ips-turn :
    (i : ℕ) (addr : Bytes) (rest acc : Hosts)
    → cluster_ips ((node i, text addr) ∷ rest) acc
      ≡ cluster_ips rest (insert (node i) (text addr) acc)
unfolding cluster_ips
cluster_ips-turn i addr rest acc =
    rw (ip_index-node i)
      (ap (λ n. cluster_ips rest (insert (node n) (text addr) acc)) (replica_of_first i))

same_port : (port : ℕ) → port + 0 * 10 ≡ port
same_port port = omega arith

p2p_ports-turn :
    (i port : ℕ) (addr : Value) (ports rest acc : Hosts)
    → lookup (node i) ports ≡ some (number port)
    → p2p_ports ports ((node i, addr) ∷ rest) acc
      ≡ p2p_ports ports rest (insert (node i) (number port) acc)
unfolding p2p_ports
p2p_ports-turn i port addr ports rest acc h =
    rw (h, ip_index-node i)
      (ap (λ n. p2p_ports ports rest (insert (node n) (number (port + 0 * 10)) acc))
          (replica_of_first i)
        ∙ ap (λ p. p2p_ports ports rest (insert (node i) (number p) acc)) (same_port port))

module _ (n : ℕ) (few : n ≤ 2 ^ 32) (addrs : ℕ → Bytes) (hosts : Hosts)
    (named : All (λ p. IsHost n addrs p.0 p.1) hosts) where
  pub cluster_ips-fills :
      (m : Hosts) × (cluster_ips hosts [] ≡ loaded m)
      × ((j : ℕ) (x : Value)
          → j < n
          → lookup (node j) hosts ≡ some x
          → lookup (node j) m ≡ some (text (addrs j)))
  unfolding cluster_ips
  cluster_ips-fills =
      let r =
        loop-fills n few addrs (λ i. text (addrs i)) cluster_ips (λ acc. refl)
          (λ i rest acc small. cluster_ips-turn i (addrs i) rest acc) hosts [] named in
      (r.0, r.1, r.3)

  pub p2p_ports-fills :
      (given : Hosts) (ports : ℕ → ℕ)
      → ((i : ℕ) → i < n → lookup (node i) given ≡ some (number (ports i)))
      → (m : Hosts) × (p2p_ports given hosts [] ≡ loaded m)
        × ((j : ℕ) (x : Value)
            → j < n
            → lookup (node j) hosts ≡ some x
            → lookup (node j) m ≡ some (number (ports j)))
  unfolding p2p_ports
  p2p_ports-fills given ports has =
      let r =
        loop-fills n few addrs (λ i. number (ports i)) (p2p_ports given) (λ acc. refl)
          (λ i rest acc small.
            p2p_ports-turn i (ports i) (text (addrs i)) given rest acc (has i small))
          hosts [] named in
      (r.0, r.1, r.3)
