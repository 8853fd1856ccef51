-- ===== src/Config/Load.antt =====
-- `LoadConfig` of config/config.go. The file is read through spf13/viper, a parameter: what its getters give for
-- a setting. Viper does not tell upper case from lower case in the names of settings, so a setting has one name
-- here. The numbers of a file are not negative. Names of nodes are ASCII, where a rune is a byte.
use trebiz.Prelude.{
  ℕ, ◌%◌, not, [], ◌∷◌, Option, none, some, Bool, Map, nat_key, bytes_key, lookup, insert, length,
  drop, ltb, if◌then◌else◌,
}
use trebiz.Messages.{Bytes}
use trebiz.Text.Decimal.{atoi_uint32, decode_hex}
use trebiz.Node.Env.{PriShare, PubPoly}
use trebiz.Sign.Keys.{KeyCodec, decode_ts_partial_key, decode_ts_public_key}
use trebiz.Config.{Config}

pub data Setting : Type 0 where
  name address ed_prikey ts_pub_key ts_share fast_ts_pub_key fast_ts_share : Setting
  replica_id rpc_listen_port p2p_listen_port batch_timeout batch_size checkpoint_t log_k max_pool :
      Setting
  node_type evil_pr fast_path_timeout fast_qc_quorum pre_prepare_subset_count : Setting
  view_change_quorum same_ip_timeout view_change_timeout last_new_vew_timeout auto_view_change :
      Setting
  peers_p2p_port cluster_ips cluster_ed_pubkey : Setting

-- What stands behind an `interface{}` of a map of the file.
pub data Value : Type 0 where
  text : Bytes → Value
  number : ℕ → Value
  other : Value

-- `is_read` says that the file was found and read.
pub record Viper : Type 0 where
  pub is_read : Bool
  pub get_string : Setting → Bytes
  pub get_int : Setting → ℕ
  pub get_string_map : Setting → Map Bytes Value

-- A loader returns a value or an error, or panics.
pub data Loading {ℓ} (A : Type ℓ) : Type ℓ where
  loaded : A → Loading A
  refused : Loading A
  panicked : Loading A

infixl 5 ◌>>=◌
abbrev pub ◌>>=◌ {ℓ κ} : {A : Type ℓ} {B : Type κ} → Loading A → (A → Loading B) → Loading B
loaded a >>= f = f a
refused >>= f = refused
panicked >>= f = panicked

abbrev pub or_refused {ℓ} : {A : Type ℓ} → Option A → Loading A
or_refused none = refused
or_refused (some a) = loaded a

-- `uint32(i)`.
abbrev pub uint32 : ℕ → ℕ
uint32 i = i % 4294967296

-- The number in the name of a node, from the fifth character on. A shorter name than four characters panics.
unfoldable pub id_of_name : Bytes → Loading ℕ
id_of_name host = if ltb (length host) 4 then panicked else loaded (atoi_uint32 (drop 4 host))

-- Assertions of the type behind an interface: they panic, on a missing host too.
abbrev pub as_int : Option Value → Loading ℕ
as_int (some (number n)) = loaded n
as_int _ = panicked

abbrev pub as_string : Option Value → Loading Bytes
as_string (some (text b)) = loaded b
as_string _ = panicked

abbrev pub public_key : Value → Loading Bytes
public_key (text b) = or_refused (decode_hex b)
public_key _ = refused

-- The maps of `LoadConfig`, by the number of a replica.
pub record Peers : Type 0 where
  pub cluster_port : Map ℕ ℕ
  pub cluster_addr : Map ℕ Bytes
  pub public_key_map : Map ℕ Bytes

module _ (v : Viper) where
  -- One round of the loop over the public keys.
  unfoldable pub load_peer : Bytes → Value → Peers → Loading Peers
  unfolding id_of_name
  load_peer host pk peers = do
    id ← id_of_name host
    port ← as_int (lookup host (v.get_string_map Setting.peers_p2p_port))
    addr ← as_string (lookup host (v.get_string_map Setting.cluster_ips))
    key ← public_key pk
    loaded (record {
      cluster_port = insert id port peers.cluster_port;
      cluster_addr = insert id addr peers.cluster_addr;
      public_key_map = insert id key peers.public_key_map;
    })

  unfoldable pub load_peers : Map Bytes Value → Peers → Loading Peers
  unfolding load_peer
  load_peers [] peers = loaded peers
  load_peers ((host, pk) ∷ rest) peers = do more ← load_peer host pk peers; load_peers rest more

abbrev pub no_peers : Peers
no_peers = record { cluster_port = []; cluster_addr = []; public_key_map = [] }

-- The settings that are read as they are, with the keys and the peers.
abbrev pub config_from : Viper → Bytes → PubPoly → PriShare → PubPoly → PriShare → Peers → Config
config_from v my_key slow_poly slow_share fast_poly fast_share peers = record {
  addr_str = v.get_string Setting.address;
  cluster_addr = peers.cluster_addr;
  cluster_port = peers.cluster_port;
  replica_id = uint32 (v.get_int Setting.replica_id);
  my_private_key = my_key;
  public_key_map = peers.public_key_map;
  ts_pri_key = slow_share;
  ts_pub_key = slow_poly;
  fast_pri_key = fast_share;
  fast_pub_key = fast_poly;
  p2p_listen_port = v.get_int Setting.p2p_listen_port;
  rpc_listen_port = v.get_int Setting.rpc_listen_port;
  batch_timeout = v.get_int Setting.batch_timeout;
  batch_size = v.get_int Setting.batch_size;
  checkpoint_t = uint32 (v.get_int Setting.checkpoint_t);
  log_k = uint32 (v.get_int Setting.log_k);
  max_pool = v.get_int Setting.max_pool;
  node_type = v.get_int Setting.node_type;
  evil_pr = v.get_int Setting.evil_pr;
  fast_timeout = v.get_int Setting.fast_path_timeout;
  fast_qc_quorum = v.get_int Setting.fast_qc_quorum;
  view_change_quorum = v.get_int Setting.view_change_quorum;
  pre_prepare_subset_count = v.get_int Setting.pre_prepare_subset_count;
  same_ip_timeout = v.get_int Setting.same_ip_timeout;
  view_change_timeout = v.get_int Setting.view_change_timeout;
  last_new_vew_timeout = v.get_int Setting.last_new_vew_timeout;
  auto_view_change = v.get_int Setting.auto_view_change;
}

module _ (k : KeyCodec) (v : Viper) where
  abbrev pub load_hex : Setting → Loading Bytes
  load_hex s = or_refused (decode_hex (v.get_string s))

  abbrev pub load_share : Setting → Loading PriShare
  load_share s = load_hex s >>= λ b. or_refused (decode_ts_partial_key k b)

  abbrev pub load_poly : Setting → Loading PubPoly
  load_poly s = load_hex s >>= λ b. or_refused (decode_ts_public_key k b)

  unfoldable pub load_config : Loading Config
  unfolding load_peers
  load_config = if not v.is_read then refused else do
    my_key ← load_hex Setting.ed_prikey
    slow_poly ← load_poly Setting.ts_pub_key
    slow_share ← load_share Setting.ts_share
    fast_poly ← load_poly Setting.fast_ts_pub_key
    fast_share ← load_share Setting.fast_ts_share
    peers ← load_peers v (v.get_string_map Setting.cluster_ed_pubkey) no_peers
    loaded (config_from v my_key slow_poly slow_share fast_poly fast_share peers)
