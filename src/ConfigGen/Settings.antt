-- ===== src/ConfigGen/Settings.antt =====
-- What viper finds in a file that was written, by the names of its settings.
use trebiz.Prelude.{ℕ, ◌≡◌, List, [], ◌∷◌, Option, none, some, Map, true, ◌==◌, if◌then◌else◌}
use trebiz.Messages.{Bytes}
use trebiz.Config.Load.{
  Setting, name, address, ed_prikey, ts_pub_key, ts_share, fast_ts_pub_key, fast_ts_share,
  replica_id, rpc_listen_port, p2p_listen_port, batch_timeout, batch_size, checkpoint_t, log_k,
  max_pool, node_type, evil_pr, fast_path_timeout, fast_qc_quorum, pre_prepare_subset_count,
  view_change_quorum, same_ip_timeout, view_change_timeout, last_new_vew_timeout, auto_view_change,
  peers_p2p_port, cluster_ips, cluster_ed_pubkey, Value, Viper,
}
use trebiz.ConfigGen.Files.{Entry, string_entry, int_entry, map_entry}

-- A number for each setting.
abbrev pub code : Setting → ℕ
code name = 0
code address = 1
code ed_prikey = 2
code ts_pub_key = 3
code ts_share = 4
code fast_ts_pub_key = 5
code fast_ts_share = 6
code replica_id = 7
code rpc_listen_port = 8
code p2p_listen_port = 9
code batch_timeout = 10
code batch_size = 11
code checkpoint_t = 12
code log_k = 13
code max_pool = 14
code node_type = 15
code evil_pr = 16
code fast_path_timeout = 17
code fast_qc_quorum = 18
code pre_prepare_subset_count = 19
code view_change_quorum = 20
code same_ip_timeout = 21
code view_change_timeout = 22
code last_new_vew_timeout = 23
code auto_view_change = 24
code peers_p2p_port = 25
code cluster_ips = 26
code cluster_ed_pubkey = 27

abbrev pub entry : Setting → List (Setting × Entry) → Option Entry
entry s [] = none
entry s ((other, e) ∷ rest) = if code other == code s then some e else entry s rest

-- A file that is read gives back what was set, and 0 for a number that was not set.
pub record IsViperOf (v : Viper) (file : List (Setting × Entry)) : Type 0 where
  pub read_ok : v.is_read ≡ true
  pub strings :
      (s : Setting) (b : Bytes) → entry s file ≡ some (string_entry b) → v.get_string s ≡ b
  pub ints : (s : Setting) (n : ℕ) → entry s file ≡ some (int_entry n) → v.get_int s ≡ n
  pub unset : (s : Setting) → entry s file ≡ none → v.get_int s ≡ 0
  pub maps :
      (s : Setting) (m : Map Bytes Value)
      → entry s file ≡ some (map_entry m)
      → v.get_string_map s ≡ m
