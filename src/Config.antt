-- ===== src/Config.antt =====
-- config/config.go, the record and its constructor, and `NewNode` of core/node.go, which splits it
-- into the settings and the first state of a node.
pub mod Quorums
pub mod Load
use trebiz.Prelude.{
  ℕ, ◌+◌, ◌*◌, ◌/◌, ◌%◌, ◌^◌, List, [], ◌∷◌, ◌++◌, Bool, true, false, Map, nat_key, get, length,
  add32,
}
use trebiz.Messages.{Bytes}
use trebiz.Text.{itoa}
use trebiz.Node.Env.{PriShare, PubPoly, Settings}
use trebiz.Node.State.{Node, World}

pub record Config : Type 0 where
  pub addr_str : Bytes
  pub cluster_addr : Map ℕ Bytes
  pub cluster_port : Map ℕ ℕ
  pub replica_id : ℕ
  pub my_private_key : Bytes
  pub public_key_map : Map ℕ Bytes
  pub ts_pri_key : PriShare
  pub ts_pub_key : PubPoly
  pub fast_pri_key : PriShare
  pub fast_pub_key : PubPoly
  pub p2p_listen_port : ℕ
  pub rpc_listen_port : ℕ
  pub batch_timeout : ℕ
  pub batch_size : ℕ
  pub checkpoint_t : ℕ
  pub log_k : ℕ
  pub max_pool : ℕ
  pub node_type : ℕ
  pub evil_pr : ℕ
  pub fast_timeout : ℕ
  pub fast_qc_quorum : ℕ
  pub view_change_quorum : ℕ
  pub pre_prepare_subset_count : ℕ
  pub same_ip_timeout : ℕ
  pub view_change_timeout : ℕ
  pub last_new_vew_timeout : ℕ
  pub auto_view_change : ℕ

-- `int(math.Ceil(float64(n)) / 3.0)`: a whole number is divided by 3 and the fraction is dropped.
unfoldable pub fault_bound : ℕ → ℕ
fault_bound replica_count = replica_count / 3

-- "Node" with the number of the replica.
unfoldable pub node_name : ℕ → Bytes
unfolding itoa
node_name id = b'N' ∷ b'o' ∷ b'd' ∷ b'e' ∷ itoa id

unfoldable pub new_settings : Config → Settings
unfolding fault_bound node_name
new_settings conf = record {
  addr_str = conf.addr_str;
  replica_id = conf.replica_id;
  cluster_addr = conf.cluster_addr;
  cluster_port = conf.cluster_port;
  node_type = conf.node_type;
  evil_pr = conf.evil_pr;
  my_private_key = conf.my_private_key;
  public_key = conf.public_key_map;
  ts_pri_key = conf.ts_pri_key;
  ts_pub_key = conf.ts_pub_key;
  fast_pri_key = conf.fast_pri_key;
  fast_pub_key = conf.fast_pub_key;
  f = fault_bound (length conf.cluster_addr);
  checkpoint_t = conf.checkpoint_t;
  log_k = conf.log_k;
  replica_count = length conf.cluster_addr;
  fast_qc_quorum = conf.fast_qc_quorum;
  view_change_quorum = conf.view_change_quorum;
  pre_prepare_subset_count = conf.pre_prepare_subset_count;
  view_change_period = 1;
  auto_view_change = conf.auto_view_change;
  batch_size = conf.batch_size;
  node_name = node_name conf.replica_id;
}

unfoldable pub new_node : Config → Node
new_node conf = record {
  next_sn = 1;
  last_exec = 0;
  view_change_seq_number = add32 conf.checkpoint_t (conf.checkpoint_t / 2);
  curren_view = 0;
  active_view = true;
  view_change_store = [];
  view_change_stage = [];
  new_view_store = [];
  new_view_stage = [];
  last_new_vew_timeout = conf.view_change_timeout * 1000000 % 2 ^ 64;
  timer_active = false;
  req_batch = [];
  partial_sig_in_prepare = [];
  fast_partial_sig_in_prepare = [];
  partial_sig_in_commit = [];
  req_cert_store = [];
  h = 0;
  chkpts = [];
  checkpoint_store = [];
  exec_req_buffer = [];
  exec_req_id_buffer = [];
  prepare_timer = [];
  batch_store = [];
  leader = get 0 [] conf.cluster_addr;
}

-- A node that has done nothing yet.
unfoldable pub new_world : Config → World
unfolding new_node
new_world conf = record { node = new_node conf; questions = 0; errs = 0; out = [] }
