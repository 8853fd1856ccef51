-- ===== src/Examples/Setting.antt =====
-- A cluster of four replicas with a toy cryptography, and what its replica 1 receives.
use trebiz.Prelude.{ℕ, List, [], ◌∷◌, some, true, same_bytes}
use trebiz.Messages.{
  Bytes, MsgId, RequestBatch, PrePrepareMsg, FastPrepareQc, pre_prepare, fast_prepare_qc,
}
use trebiz.Config.{Config, new_settings}
use trebiz.Node.Env.{Env, Crypto, Outside, PriShare, PubPoly}
use trebiz.Node.State.{check_prepared_task}
use trebiz.Main.{Event, rpc, task}

abbrev no_share : PriShare
no_share = record { i = 0; v = [] }

abbrev no_poly : PubPoly
no_poly = record { base_bytes = []; commit_bytes = [] }

abbrev pub conf : Config
conf = record {
  addr_str = 49 ∷ [];
  cluster_addr = (0, 48 ∷ []) ∷ (1, 49 ∷ []) ∷ (2, 50 ∷ []) ∷ (3, 51 ∷ []) ∷ [];
  cluster_port = (0, 8) ∷ (1, 8) ∷ (2, 8) ∷ (3, 8) ∷ [];
  replica_id = 1;
  my_private_key = 7 ∷ [];
  public_key_map = (0, 7 ∷ []) ∷ (1, 7 ∷ []) ∷ (2, 7 ∷ []) ∷ (3, 7 ∷ []) ∷ [];
  ts_pri_key = no_share;
  ts_pub_key = no_poly;
  fast_pri_key = no_share;
  fast_pub_key = no_poly;
  p2p_listen_port = 8;
  rpc_listen_port = 9;
  batch_timeout = 10;
  batch_size = 2;
  checkpoint_t = 2;
  log_k = 4;
  max_pool = 3;
  node_type = 0;
  evil_pr = 0;
  fast_timeout = 10;
  fast_qc_quorum = 4;
  view_change_quorum = 3;
  pre_prepare_subset_count = 2;
  same_ip_timeout = 1;
  view_change_timeout = 10;
  last_new_vew_timeout = 10;
  auto_view_change = 0;
}

-- A signature is good if it is the key.
abbrev pub crypto : Crypto
crypto = record {
  encode = λ p. some (1 ∷ []);
  sha256 = λ b. b;
  ed_sign = λ key b. key;
  ed_verify = λ key b sig. same_bytes key sig;
  tbls_sign = λ share b. some (7 ∷ []);
  tbls_recover = λ poly b sigs t n. some (7 ∷ []);
  bls_verify = λ poly b sig. same_bytes (7 ∷ []) sig;
}

abbrev pub outside : Outside
outside = record {
  now = λ n. n;
  random_num = λ n. n;
  connects = λ n. true;
  transmits = λ n. true;
  releases = λ n. true;
}

unfoldable pub env : Env
unfolding new_settings
env = record { settings = new_settings conf; crypto = crypto; outside = outside }

abbrev pub good : Bytes
good = 7 ∷ []

abbrev pub batch : RequestBatch
batch = record { batch = record { cmd = 5 ∷ [] } ∷ [] }

abbrev pub proposal : ℕ → PrePrepareMsg
proposal sn = record {
  sn = sn;
  batch_hash = some (1 ∷ []);
  req_batch = batch;
  view = 0;
  replica_id = 0;
  time_stamp = 0;
}

abbrev pub fast_qc : ℕ → FastPrepareQc
fast_qc sn = record {
  sn = sn;
  batch_hash = some (1 ∷ []);
  view = 0;
  replica_id = 0;
  threshold_sig = good;
  time_stamp = 0;
}

abbrev pub id_of : ℕ → MsgId
id_of sn = record { sn = sn; view = 0 }

-- Two requests come, the second one first, and are executed in order.
abbrev pub two_requests : List Event
two_requests =
    rpc (pre_prepare (proposal 2)) good
    ∷ rpc (fast_prepare_qc (fast_qc 2)) good
    ∷ task (check_prepared_task (id_of 2))
    ∷ rpc (pre_prepare (proposal 1)) good
    ∷ rpc (fast_prepare_qc (fast_qc 1)) good
    ∷ task (check_prepared_task (id_of 1))
    ∷ []

-- A proposal at the high watermark.
abbrev pub at_high_mark : List Event
at_high_mark = rpc (pre_prepare (proposal 4)) good ∷ []
