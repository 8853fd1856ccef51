-- ===== src/ConfigGen/Peers.antt =====
-- The peers that a node loads from a generated file.
use trebiz.Prelude.{
  ℕ, List, zero, suc, ◌<◌, ◌≤◌, ◌≡◌, ◌∙◌, inl, inr, refl, ap, sym, subst, [], ◌∷◌, Option, none,
  some, false, Map, nat_key, bytes_key, lookup, insert, lookup-insert, lookup-insert_self,
  lookup-insert-some, All-insert, All-lookup, All, length, ltb, ◌==◌, ◌^◌, Bool-cases, arith,
}
use trebiz.Messages.{Bytes}
use trebiz.Text.{IsByte, encode_to_string, itoa}
use trebiz.Text.Decimal.{atoi_uint32-itoa, decode_hex-encode_to_string}
use trebiz.Config.Load.{
  Setting, text, number, Viper, Loading, loaded, ◌>>=◌, id_of_name, Peers, no_peers, load_peer,
  load_peers,
}
use trebiz.ConfigGen.Texts.{own_key}
use trebiz.ConfigGen.Files.{node, replica_of, ed_keys, public_keys}

pub replica_of_first : (i : ℕ) → replica_of i 0 ≡ i
replica_of_first i = ground arith

pub long_enough : (rest : Bytes) → ltb (suc (suc (suc (suc (length rest))))) 4 ≡ false
long_enough rest = ground arith

pub id_of_name-node : (i : ℕ) → i < 2 ^ 32 → id_of_name (node i) ≡ loaded i
unfolding id_of_name node
id_of_name-node i small = rw (long_enough (itoa i)) (ap loaded (atoi_uint32-itoa i small))

abbrev number_in : Loading ℕ → ℕ
number_in (loaded i) = i
number_in _ = 0

pub node-injective : (i j : ℕ) → i < 2 ^ 32 → j < 2 ^ 32 → node i ≡ node j → i ≡ j
node-injective i j hi hj same =
    ap number_in (sym (id_of_name-node i hi) ∙ ap id_of_name same ∙ id_of_name-node j hj)

lookup-insert_same {ℓ} :
    {V : Type ℓ} (i j : ℕ) (f : ℕ → V) (m : Map ℕ V)
    → lookup j m ≡ some (f j)
    → lookup j (insert i (f i) m) ≡ some (f j)
lookup-insert_same i j f m h = ground (arith, lookup-insert i j (f i) m)

-- The numbers of the replicas of a cluster.
abbrev pub below : ℕ → List ℕ
below zero = []
below (suc n) = n ∷ below n

below-All {ℓ} : (P : ℕ → Type ℓ) (n : ℕ) → ((i : ℕ) → i < n → P i) → All P (below n)
below-All P zero h = tt
below-All P (suc n) h = (h n (omega arith), below-All P n (λ i small. h i (omega (arith, small))))

module _ (ports : ℕ → ℕ) (addrs : ℕ → Bytes) (keys : ℕ → Bytes × Bytes) where
  -- A replica has its port, its address and its public key among the peers.
  abbrev pub HasPeer : Peers → ℕ → Type 0
  HasPeer peers i =
      (lookup i peers.cluster_port ≡ some (ports i))
      × (lookup i peers.cluster_addr ≡ some (addrs i))
      × (lookup i peers.public_key_map ≡ some (keys i).1)

module _ (v : Viper) (ports : ℕ → ℕ) (addrs : ℕ → Bytes) (keys : ℕ → Bytes × Bytes) where
  -- The file has the port and the address of a replica.
  abbrev pub IsListed : ℕ → Type 0
  IsListed i =
      (lookup (node i) (v.get_string_map Setting.peers_p2p_port) ≡ some (number (ports i)))
      × (lookup (node i) (v.get_string_map Setting.cluster_ips) ≡ some (text (addrs i)))
      × All IsByte (keys i).1

  -- The entry of a replica that the file lists.
  abbrev IsEntry : Bytes → Bytes × Bytes → Type 0
  IsEntry name pair = (i : ℕ) × (i < 2 ^ 32) × (name ≡ node i) × (pair ≡ keys i) × IsListed i

  abbrev added : ℕ → Peers → Peers
  added i peers = record {
    cluster_port = insert i (ports i) peers.cluster_port;
    cluster_addr = insert i (addrs i) peers.cluster_addr;
    public_key_map = insert i (keys i).1 peers.public_key_map;
  }

  load_peer-listed :
      (i : ℕ) (peers : Peers)
      → i < 2 ^ 32
      → IsListed i
      → load_peer v (node i) (text (encode_to_string (keys i).1)) peers ≡ loaded (added i peers)
  unfolding load_peer
  load_peer-listed i peers small l =
      rw (id_of_name-node i small, l.0, l.1, decode_hex-encode_to_string (keys i).1 l.2)

  added-HasPeer : (i : ℕ) (peers : Peers) → HasPeer ports addrs keys (added i peers) i
  added-HasPeer i peers = (
    lookup-insert_self i (ports i) peers.cluster_port,
    lookup-insert_self i (addrs i) peers.cluster_addr,
    lookup-insert_self i (keys i).1 peers.public_key_map,
  )

  added-keeps :
      (i j : ℕ) (peers : Peers)
      → HasPeer ports addrs keys peers j
      → HasPeer ports addrs keys (added i peers) j
  added-keeps i j peers h = (
    lookup-insert_same i j ports peers.cluster_port h.0,
    lookup-insert_same i j addrs peers.cluster_addr h.1,
    lookup-insert_same i j (λ n. (keys n).1) peers.public_key_map h.2,
  )

  -- One round of the loop, for any entry of a replica that the file lists.
  load_peer-entry :
      (name : Bytes) (pair : Bytes × Bytes) (peers : Peers) (h : IsEntry name pair)
      → load_peer v name (text (encode_to_string pair.1)) peers ≡ loaded (added h.0 peers)
  load_peer-entry name pair peers (i, small, named, same, listed) =
      ap (λ n. load_peer v n (text (encode_to_string pair.1)) peers) named
      ∙ ap (λ (q : Bytes × Bytes). load_peer v (node i) (text (encode_to_string q.1)) peers) same
      ∙ load_peer-listed i peers small listed

  -- All peers are loaded: those that were there, and those of the entries.
  load_peers-entries :
      (entries : Map Bytes (Bytes × Bytes)) (acc : Peers)
      → All (λ p. IsEntry p.0 p.1) entries
      → (peers : Peers) × (load_peers v (public_keys entries) acc ≡ loaded peers)
        × ((j : ℕ) → HasPeer ports addrs keys acc j → HasPeer ports addrs keys peers j)
        × ((j : ℕ) (pair : Bytes × Bytes)
            → j < 2 ^ 32
            → lookup (node j) entries ≡ some pair
            → HasPeer ports addrs keys peers j)
  unfolding load_peers lookup
  load_peers-entries [] acc known = (acc, refl, λ j h. h, λ j pair small h. absurd cc)
  load_peers-entries ((name, pair) ∷ rest) acc known =
      let i : ℕ = known.0.0 in
      let r = load_peers-entries rest (added i acc) known.1 in
      (
        r.0,
        ap (λ m. m >>= λ more. load_peers v (public_keys rest) more)
              (load_peer-entry name pair acc known.0)
            ∙ r.1,
        λ j h. r.2 j (added-keeps i j acc h),
        λ j other small_j h. elim (Bool-cases (bytes_key.same name (node j))) [
          | inl at ↦
              subst (HasPeer ports addrs keys r.0)
                (node-injective i j known.0.1 small_j
                  (sym known.0.2 ∙ (bytes_key.same_iff name (node j)).0 at))
                (r.2 i (added-HasPeer i acc))
          | inr off ↦ r.3 j other small_j (sym (rw off refl) ∙ h)
        ],
      )

  ed_keys-IsEntry :
      (n : ℕ)
      → n ≤ 2 ^ 32
      → ((i : ℕ) → i < n → IsListed i)
      → All (λ p. IsEntry p.0 p.1) (ed_keys keys n)
  unfolding ed_keys
  ed_keys-IsEntry zero small listed = tt
  ed_keys-IsEntry (suc n) small listed =
      All-insert IsEntry (node (replica_of n 0)) (keys n) (ed_keys keys n)
        (n, omega (arith, small), ap node (replica_of_first n), refl, listed n (omega arith))
        (ed_keys-IsEntry n (omega (arith, small)) (λ i h. listed i (omega (arith, h))))

  -- The generator makes a pair of keys for each number.
  ed_keys-has :
      (n j : ℕ) → j < n → (pair : Bytes × Bytes) × (lookup (node j) (ed_keys keys n) ≡ some pair)
  unfolding ed_keys
  ed_keys-has zero j h = absurd (omega (arith, h))
  ed_keys-has (suc n) j h = elim (Bool-cases (j == n)) [
    | inl last ↦ (
      keys n,
      subst
          (λ i.
            lookup (node i) (insert (node (replica_of n 0)) (keys n) (ed_keys keys n))
            ≡ some (keys n))
          (replica_of_first n ∙ ground (arith, last))
          (lookup-insert_self (node (replica_of n 0)) (keys n) (ed_keys keys n)),
    )
    | inr other ↦
        let r = ed_keys-has n j (ground (arith, h, other)) in
        lookup-insert-some (node (replica_of n 0)) (node j) (keys n) r.0 (ed_keys keys n) r.1
  ]

  -- A node that reads the public keys of a generated file gets the port, the address and the key of each replica
  -- that the file lists.
  pub load_peers-generated :
      (n : ℕ)
      → n ≤ 2 ^ 32
      → ((i : ℕ) → i < n → IsListed i)
      → (peers : Peers) × (load_peers v (public_keys (ed_keys keys n)) no_peers ≡ loaded peers)
        × All (HasPeer ports addrs keys peers) (below n)
  load_peers-generated n small listed =
      let r = load_peers-entries (ed_keys keys n) no_peers (ed_keys-IsEntry n small listed) in
      (
        r.0,
        r.1,
        below-All (HasPeer ports addrs keys r.0) n (λ i h.
            let found = ed_keys-has n i h in r.3 i found.0 (omega (arith, small, h)) found.1),
      )

module _ (keys : ℕ → Bytes × Bytes) where
  private_bytes :
      (n : ℕ)
      → ((i : ℕ) → i < n → All IsByte (keys i).0)
      → All (λ p. All IsByte p.1.0) (ed_keys keys n)
  unfolding ed_keys
  private_bytes zero h = tt
  private_bytes (suc n) h =
      All-insert (λ name pair. All IsByte pair.0) (node (replica_of n 0)) (keys n) (ed_keys keys n)
        (h n (omega arith)) (private_bytes n (λ i small. h i (omega (arith, small))))

  found_bytes :
      (o : Option (Bytes × Bytes))
      → ((pair : Bytes × Bytes) → o ≡ some pair → All IsByte pair.0)
      → All IsByte (elim o as (λ _. Bytes) [ none ↦ [] | some pair ↦ pair.0 ])
  found_bytes none h = tt
  found_bytes (some pair) h = h pair refl

  pub own_key-bytes :
      (n : ℕ) (name : Bytes)
      → ((i : ℕ) → i < n → All IsByte (keys i).0)
      → All IsByte (own_key (ed_keys keys n) name)
  own_key-bytes n name h = found_bytes (lookup name (ed_keys keys n)) λ pair found.
      All-lookup (λ _ p. All IsByte p.0) name pair (ed_keys keys n) found (private_bytes n h)
