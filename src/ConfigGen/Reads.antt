-- ===== src/ConfigGen/Reads.antt =====
-- The configuration that a node loads from its generated file.
use trebiz.Prelude.{
  ℕ, ◌≡◌, ◌∙◌, refl, ap, sym, subst, List, some, bytes_key, lookup, true, All, ◌+◌, ◌*◌,
}
use trebiz.Messages.{Bytes}
use trebiz.Text.{IsByte}
use trebiz.Text.Decimal.{decode_hex}
use trebiz.Node.Env.{PriShare, PubPoly}
use trebiz.Sign.Keys.{KeyCodec}
use trebiz.Sign.KeysBack.{IsKeyCodec}
use trebiz.Config.{Config}
use trebiz.Config.Load.{
  Setting, Viper, loaded, or_refused, uint32, Peers, no_peers, load_peers, load_config, config_from,
  load_hex, load_share, load_poly,
}
use trebiz.ConfigGen.Files.{
  Template, Generated, Entry, replica_of, ip_index, node, nth, settings_of, node_file, node_type_of,
  public_keys, address_of, port_of, fast_num, view_change_quorum, pre_prepare_subset_count,
}
use trebiz.ConfigGen.Settings.{IsViperOf}
use trebiz.ConfigGen.Texts.{IsByteCodec, own_key, load_share-text, load_poly-text, own_text}
use trebiz.ConfigGen.Made.{HasFile, node_file-HasFile}

-- The configuration of a replica by the template and what was generated.
abbrev pub config_for : Template → Generated → Peers → Bytes → ℕ → PriShare → PriShare → Config
config_for t g peers host id share fast_share = record {
  addr_str = address_of t host;
  cluster_addr = peers.cluster_addr;
  cluster_port = peers.cluster_port;
  replica_id = uint32 id;
  my_private_key = own_key g.keys (node id);
  public_key_map = peers.public_key_map;
  ts_pri_key = share;
  ts_pub_key = g.pub_poly;
  fast_pri_key = fast_share;
  fast_pub_key = g.fast_pub_poly;
  p2p_listen_port = port_of t host + 0 * 10;
  rpc_listen_port = t.rpc_listen_port + 0;
  batch_timeout = t.batch_timeout;
  batch_size = t.batch_size;
  checkpoint_t = uint32 t.checkpoint_t;
  log_k = uint32 t.log_k;
  max_pool = t.max_pool;
  node_type = node_type_of g id;
  evil_pr = t.evil_pr;
  fast_timeout = t.fast_path_timeout;
  fast_qc_quorum = fast_num g.total t.abm t.pbm;
  view_change_quorum = view_change_quorum g.total t.abm t.pbm;
  pre_prepare_subset_count = pre_prepare_subset_count g.total t.pbm;
  same_ip_timeout = 0;
  view_change_timeout = t.view_change_timeout;
  last_new_vew_timeout = 0;
  auto_view_change = t.auto_view_change;
}

module _ (v : Viper) (t : Template) (g : Generated) (peers : Peers) (host : Bytes) (id : ℕ)
    (share fast_share : PriShare) (a b c d : Bytes)
    (h : IsViperOf v (settings_of t g host id a b c d)) where
  fields :
      config_from v (own_key g.keys (node id)) g.pub_poly share g.fast_pub_poly fast_share peers
      ≡ config_for t g peers host id share fast_share
  fields = rw (
    h.strings Setting.address _ refl,
    h.ints Setting.replica_id _ refl,
    h.ints Setting.p2p_listen_port _ refl,
    h.ints Setting.rpc_listen_port _ refl,
    h.ints Setting.batch_timeout _ refl,
    h.ints Setting.batch_size _ refl,
    h.ints Setting.checkpoint_t _ refl,
    h.ints Setting.log_k _ refl,
    h.ints Setting.max_pool _ refl,
    h.ints Setting.node_type _ refl,
    h.ints Setting.evil_pr _ refl,
    h.ints Setting.fast_path_timeout _ refl,
    h.ints Setting.fast_qc_quorum _ refl,
    h.ints Setting.view_change_quorum _ refl,
    h.ints Setting.pre_prepare_subset_count _ refl,
    h.unset Setting.same_ip_timeout refl,
    h.ints Setting.view_change_timeout _ refl,
    h.unset Setting.last_new_vew_timeout refl,
    h.ints Setting.auto_view_change _ refl,
  )

module _ (k : KeyCodec) (v : Viper) where
  loaded_from :
      (key : Bytes) (poly fast_poly : PubPoly) (share fast_share : PriShare) (peers : Peers)
      → v.is_read ≡ true
      → load_hex k v Setting.ed_prikey ≡ loaded key
      → load_poly k v Setting.ts_pub_key ≡ loaded poly
      → load_share k v Setting.ts_share ≡ loaded share
      → load_poly k v Setting.fast_ts_pub_key ≡ loaded fast_poly
      → load_share k v Setting.fast_ts_share ≡ loaded fast_share
      → load_peers v (v.get_string_map Setting.cluster_ed_pubkey) no_peers ≡ loaded peers
      → load_config k v ≡ loaded (config_from v key poly share fast_poly fast_share peers)
  unfolding load_config
  loaded_from key poly fast_poly share fast_share peers r a b c d f p = rw (r, a, b, c, d, f, p)

module _ (k : KeyCodec) (ok : IsKeyCodec k) (bytes : IsByteCodec k) (v : Viper) (t : Template)
    (g : Generated) (host : Bytes) (peers : Peers) where
  file-loaded :
      {file : List (Setting × Entry)} (f : HasFile k t g host file)
      → IsViperOf v file
      → All IsByte (own_key g.keys (node (replica_of f.index 0)))
      → load_peers v (public_keys g.keys) no_peers ≡ loaded peers
      → load_config k v
        ≡ loaded (config_for t g peers host (replica_of f.index 0) f.share f.fast_share)
  file-loaded f h' key_bytes known =
      let id : ℕ = replica_of f.index 0 in
      let h : IsViperOf v
          (settings_of t g host id f.share_text f.poly_text f.fast_share_text f.fast_poly_text) =
        subst (IsViperOf v) (sym f.file_is) h' in
      loaded_from k v (own_key g.keys (node id)) g.pub_poly g.fast_pub_poly f.share f.fast_share
        peers h.read_ok
        (ap (λ x. or_refused (decode_hex x)) (h.strings Setting.ed_prikey _ refl)
          ∙ ap or_refused (own_text (lookup (node id) g.keys) key_bytes))
        (load_poly-text k v ok Setting.ts_pub_key g.pub_poly f.poly_text
          (h.strings Setting.ts_pub_key _ refl) (bytes.public_bytes _ _ f.poly_encoded)
          f.poly_encoded)
        (load_share-text k v ok Setting.ts_share f.share f.share_text
          (h.strings Setting.ts_share _ refl) (bytes.partial_bytes _ _ f.share_encoded)
          f.share_encoded)
        (load_poly-text k v ok Setting.fast_ts_pub_key g.fast_pub_poly f.fast_poly_text
          (h.strings Setting.fast_ts_pub_key _ refl) (bytes.public_bytes _ _ f.fast_poly_encoded)
          f.fast_poly_encoded)
        (load_share-text k v ok Setting.fast_ts_share f.fast_share f.fast_share_text
          (h.strings Setting.fast_ts_share _ refl) (bytes.partial_bytes _ _ f.fast_share_encoded)
          f.fast_share_encoded)
        (ap (λ m. load_peers v m no_peers) (h.maps Setting.cluster_ed_pubkey _ refl) ∙ known)
      ∙ ap loaded (fields v t g peers host id f.share f.fast_share _ _ _ _ h)

-- A node that loads the file that was generated for its host gets the configuration that was meant for it: its
-- number, its own private key, the shares of that number and both public polynomials, the quorums, and the
-- settings of the template. The two timeouts that the generator does not set are 0. Viper gives back what was set,
-- keys come back from their encodings, which are bytes, and the peers are known.
pub generated-loaded :
    (k : KeyCodec) (ok : IsKeyCodec k) (bytes : IsByteCodec k) (v : Viper) (t : Template)
    (g : Generated) (host : Bytes) (peers : Peers) (file : List (Setting × Entry))
    → node_file k t g host ≡ loaded file
    → IsViperOf v file
    → ((name : Bytes) → All IsByte (own_key g.keys name))
    → load_peers v (public_keys g.keys) no_peers ≡ loaded peers
    → (index : ℕ) × (share : PriShare) × (fast_share : PriShare) × (ip_index host
        ≡ loaded (some index))
      × (nth (replica_of index 0) g.shares ≡ some share)
      × (nth (replica_of index 0) g.fast_shares ≡ some fast_share)
      × (load_config k v ≡ loaded (config_for t g peers host (replica_of index 0) share fast_share))
generated-loaded k ok bytes v t g host peers file made h key_bytes known =
    let f = node_file-HasFile k t g host file made in
    (
      f.index,
      f.share,
      f.fast_share,
      f.index_at,
      f.share_at,
      f.fast_share_at,
      file-loaded k ok bytes v t g host peers f h (key_bytes _) known,
    )
