-- ===== src/ConfigGen/Files.antt =====
-- `main` of config_gen/main.go, up to the writing of the files. The template is what viper reads from
-- config_template.yml: its numbers are not negative, and the names of its nodes are ASCII and have no sign after
-- the fourth character. Key generation is a parameter. `ProcessCount` is 1, so the inner loops have the round 0.
use trebiz.Prelude.{
  ℕ, zero, suc, ◌+◌, ◌-◌, ◌*◌, ◌/◌, List, [], ◌∷◌, Option, none, some, Map, bytes_key, lookup,
  insert, length, drop, map, ltb, ◌==◌, if◌then◌else◌,
}
use trebiz.Messages.{Bytes}
use trebiz.Text.{itoa, encode_to_string}
use trebiz.Text.Decimal.{some_digits}
use trebiz.Node.Env.{PriShare, PubPoly}
use trebiz.Sign.Keys.{KeyCodec, encode_ts_partial_key, encode_ts_public_key}
use trebiz.Config.Load.{Setting, Value, text, number, Loading, loaded, panicked, ◌>>=◌}
use trebiz.ConfigGen.Draws.{judge_node_type}

pub record Template : Type 0 where
  pub ips : Map Bytes Value
  pub peers_p2p_port : Map Bytes Value
  pub rpc_listen_port : ℕ
  pub bg : ℕ
  pub abm : ℕ
  pub pbm : ℕ
  pub batch_timeout : ℕ
  pub view_change_timeout : ℕ
  pub batch_size : ℕ
  pub checkpoint_t : ℕ
  pub log_k : ℕ
  pub max_pool : ℕ
  pub auto_view_change : ℕ
  pub fast_path_timeout : ℕ
  pub evil_pr : ℕ

abbrev pub process_count : ℕ
process_count = 1

-- The replica of a process on a host.
abbrev pub replica_of : ℕ → ℕ → ℕ
replica_of ip_index j = if ip_index == 0 then 0 else (ip_index - 1) * process_count + j + 1

-- "node" with a number.
unfoldable pub node : ℕ → Bytes
node id = b'n' ∷ b'o' ∷ b'd' ∷ b'e' ∷ itoa id

-- The number in the name of a host, `none` where `Atoi` has an error. A name that is too short panics.
unfoldable pub ip_index : Bytes → Loading (Option ℕ)
ip_index host = if ltb (length host) 4 then panicked else loaded (some_digits (drop 4 host))

abbrev pub or_zero : Option ℕ → ℕ
or_zero none = 0
or_zero (some n) = n

abbrev pub or_panic {ℓ} : {A : Type ℓ} → Option A → Loading A
or_panic none = panicked
or_panic (some a) = loaded a

abbrev a_string : Value → Loading Bytes
a_string (text b) = loaded b
a_string _ = panicked

abbrev an_int : Value → Loading ℕ
an_int (number n) = loaded n
an_int _ = panicked

-- The addresses by the name of the replica.
unfoldable pub cluster_ips : Map Bytes Value → Map Bytes Value → Loading (Map Bytes Value)
unfolding ip_index node
cluster_ips [] acc = loaded acc
cluster_ips ((host, addr) ∷ rest) acc = do
  ip ← ip_index host
  addr_as_string ← a_string addr
  cluster_ips rest (insert (node (replica_of (or_zero ip) 0)) (text addr_as_string) acc)

-- The ports by the name of the replica.
unfoldable pub p2p_ports :
    Map Bytes Value → Map Bytes Value → Map Bytes Value → Loading (Map Bytes Value)
unfolding ip_index node
p2p_ports ports [] acc = loaded acc
p2p_ports ports ((host, addr) ∷ rest) acc = do
  port ← or_panic (lookup host ports)
  port_as_int ← an_int port
  ip ← ip_index host
  p2p_ports ports rest
      (insert (node (replica_of (or_zero ip) 0)) (number (port_as_int + 0 * 10)) acc)

-- One pair of keys for each host: the private one and the public one.
unfoldable pub ed_keys : (ℕ → Bytes × Bytes) → ℕ → Map Bytes (Bytes × Bytes)
unfolding node
ed_keys gen_keys zero = []
ed_keys gen_keys (suc i) = insert (node (replica_of i 0)) (gen_keys i) (ed_keys gen_keys i)

-- The numbers of a cluster.
abbrev pub total_node_num : ℕ → ℕ
total_node_num node_number = node_number * process_count + 1 - process_count

abbrev pub num_t : ℕ → ℕ
num_t total = total - total / 3

abbrev pub fast_num : ℕ → ℕ → ℕ → ℕ
fast_num total abm pbm = total - abm - pbm / 2

abbrev pub view_change_quorum : ℕ → ℕ → ℕ → ℕ
view_change_quorum total abm pbm = 2 * (total / 3) + 1 + abm + pbm

abbrev pub pre_prepare_subset_count : ℕ → ℕ → ℕ
pre_prepare_subset_count total pbm = total / 3 + 1 + (pbm + 1) / 2

-- What is generated once for all files.
pub record Generated : Type 0 where
  pub addresses : Map Bytes Value
  pub ports : Map Bytes Value
  pub keys : Map Bytes (Bytes × Bytes)
  pub total : ℕ
  pub shares : List PriShare
  pub pub_poly : PubPoly
  pub fast_shares : List PriShare
  pub fast_pub_poly : PubPoly
  pub bgnodes : List ℕ
  pub abmnodes : List ℕ
  pub pbmodes : List ℕ

-- What `Set` is given.
pub data Entry : Type 0 where
  string_entry : Bytes → Entry
  int_entry : ℕ → Entry
  map_entry : Map Bytes Value → Entry

abbrev pub nth {ℓ} : {A : Type ℓ} → ℕ → List A → Option A
nth i [] = none
nth zero (x ∷ xs) = some x
nth (suc i) (x ∷ xs) = nth i xs

unfoldable pub node_type_of : Generated → ℕ → ℕ
node_type_of g id =
    if judge_node_type id g.bgnodes
    then 1
    else if judge_node_type id g.abmnodes
    then 2
    else if judge_node_type id g.pbmodes
    then 3
    else 0

abbrev pub private_keys : Map Bytes (Bytes × Bytes) → Bytes → Bytes
private_keys keys host = elim (lookup host keys) [ none ↦ [] | some pair ↦ encode_to_string pair.0 ]

abbrev pub public_keys : Map Bytes (Bytes × Bytes) → Map Bytes Value
public_keys keys = map (λ p. (p.0, text (encode_to_string p.1.1))) keys

abbrev pub address_of : Template → Bytes → Bytes
address_of t host = elim (lookup host t.ips) [ some (text b) ↦ b | _ ↦ [] ]

abbrev pub port_of : Template → Bytes → ℕ
port_of t host = elim (lookup host t.peers_p2p_port) [ some (number n) ↦ n | _ ↦ 0 ]

-- What is set for a replica, in the order of the calls, with the texts of its keys.
abbrev pub settings_of :
    Template → Generated → Bytes → ℕ → Bytes → Bytes → Bytes → Bytes → List (Setting × Entry)
settings_of t g host id share_as_bytes ts_pub_key_as_bytes fast_share_as_bytes
      fast_ts_pub_key_as_bytes =
    (Setting.name, string_entry (node id))
    ∷ (Setting.replica_id, int_entry id)
    ∷ (Setting.address, string_entry (address_of t host))
    ∷ (Setting.p2p_listen_port, int_entry (port_of t host + 0 * 10))
    ∷ (Setting.peers_p2p_port, map_entry g.ports)
    ∷ (Setting.rpc_listen_port, int_entry (t.rpc_listen_port + 0))
    ∷ (Setting.cluster_ips, map_entry g.addresses)
    ∷ (Setting.ed_prikey, string_entry (private_keys g.keys (node id)))
    ∷ (Setting.cluster_ed_pubkey, map_entry (public_keys g.keys))
    ∷ (Setting.ts_share, string_entry (encode_to_string share_as_bytes))
    ∷ (Setting.ts_pub_key, string_entry (encode_to_string ts_pub_key_as_bytes))
    ∷ (Setting.fast_ts_share, string_entry (encode_to_string fast_share_as_bytes))
    ∷ (Setting.fast_ts_pub_key, string_entry (encode_to_string fast_ts_pub_key_as_bytes))
    ∷ (Setting.batch_timeout, int_entry t.batch_timeout)
    ∷ (Setting.view_change_timeout, int_entry t.view_change_timeout)
    ∷ (Setting.batch_size, int_entry t.batch_size)
    ∷ (Setting.checkpoint_t, int_entry t.checkpoint_t)
    ∷ (Setting.log_k, int_entry t.log_k)
    ∷ (Setting.max_pool, int_entry t.max_pool)
    ∷ (Setting.auto_view_change, int_entry t.auto_view_change)
    ∷ (Setting.fast_path_timeout, int_entry t.fast_path_timeout)
    ∷ (Setting.evil_pr, int_entry t.evil_pr)
    ∷ (Setting.fast_qc_quorum, int_entry (fast_num g.total t.abm t.pbm))
    ∷ (Setting.view_change_quorum, int_entry (view_change_quorum g.total t.abm t.pbm))
    ∷ (Setting.pre_prepare_subset_count, int_entry (pre_prepare_subset_count g.total t.pbm))
    ∷ (Setting.node_type, int_entry (node_type_of g id))
    ∷ []

-- The file of a host. A share that is not there, or a key that cannot be encoded, panics.
unfoldable pub node_file :
    KeyCodec → Template → Generated → Bytes → Loading (List (Setting × Entry))
unfolding ip_index
node_file k t g host = do
  ip ← ip_index host
  index ← or_panic ip
  let id : ℕ = replica_of index 0
  share ← or_panic (nth id g.shares)
  share_as_bytes ← or_panic (encode_ts_partial_key k share)
  ts_pub_key_as_bytes ← or_panic (encode_ts_public_key k g.pub_poly)
  fast_share ← or_panic (nth id g.fast_shares)
  fast_share_as_bytes ← or_panic (encode_ts_partial_key k fast_share)
  fast_ts_pub_key_as_bytes ← or_panic (encode_ts_public_key k g.fast_pub_poly)
  loaded (
      settings_of t g host id share_as_bytes ts_pub_key_as_bytes fast_share_as_bytes
        fast_ts_pub_key_as_bytes)
