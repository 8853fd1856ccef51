-- ===== src/Start/Generated.antt =====
-- A node that starts on a generated file.
use trebiz.Prelude.{
  ℕ, ◌<◌, ◌≤◌, ◌≡◌, ◌∙◌, refl, ap, sym, subst, List, some, true, Bool, map, filter, bytes_key,
  lookup, All, ◌^◌,
}
use trebiz.Messages.{Bytes}
use trebiz.Text.{IsByte}
use trebiz.Node.Env.{PriShare, Crypto, Outside}
use trebiz.Sign.Keys.{KeyCodec}
use trebiz.Sign.KeysBack.{IsKeyCodec}
use trebiz.Config.{Config, new_world, new_settings}
use trebiz.Config.Load.{
  Setting, Viper, text, number, loaded, load_config, load_peers, no_peers, Peers,
}
use trebiz.ConfigGen.Files.{
  Template, Generated, Entry, replica_of, ip_index, node, nth, node_file, ed_keys, public_keys,
}
use trebiz.ConfigGen.Settings.{IsViperOf}
use trebiz.ConfigGen.Texts.{IsByteCodec, own_key}
use trebiz.ConfigGen.Peers.{HasPeer, below, load_peers-generated, own_key-bytes}
use trebiz.ConfigGen.Made.{HasFile, node_file-HasFile}
use trebiz.ConfigGen.Reads.{config_for, generated-loaded}
use trebiz.Node.Send.{address}
use trebiz.Start.Reach.{answers, start_connect-reaches}
use trebiz.Timer.{new_timer_impl}
use trebiz.Start.{Started, running, start_with, main, Host, env_of, start_listen, start_rpc_listen}

-- A host that gives both listeners.
abbrev pub up : (Bytes → Bool) → Host
up fails = record { fails = fails; listens = true; registers = true; rpc_listens = true }

-- A node that runs on a configuration, from its first state and with an idle timer. It reached the other replicas
-- that answer.
abbrev pub runs : Crypto → Outside → (Bytes → Bool) → Config → Started
runs c o fails conf =
    let e = env_of c o conf in
    running (new_world conf) new_timer_impl
      (map (λ p. address e p.0 p.1) (filter (answers e fails) conf.cluster_addr))

main-loaded :
    (k : KeyCodec) (v : Viper) (c : Crypto) (o : Outside) (fails : Bytes → Bool) (conf : Config)
    → load_config k v ≡ loaded conf
    → main k v c o (up fails) ≡ runs c o fails conf
unfolding main start_listen start_rpc_listen start_with new_settings
main-loaded k v c o fails conf h =
    ap (start_with c o (up fails)) h
    ∙ ap (running (new_world conf) new_timer_impl) (start_connect-reaches (env_of c o conf) fails)

-- What is generated has the port and the address of each of the replicas, and keys that are bytes.
pub record IsCluster (g : Generated) (n : ℕ) (ports : ℕ → ℕ) (addrs : ℕ → Bytes)
    (keys : ℕ → Bytes × Bytes) : Type 0 where
  pub keys_are : g.keys ≡ ed_keys keys n
  pub few : n ≤ 2 ^ 32
  pub private_bytes : (i : ℕ) → i < n → All IsByte (keys i).0
  pub public_bytes : (i : ℕ) → i < n → All IsByte (keys i).1
  pub port_of_node : (i : ℕ) → i < n → lookup (node i) g.ports ≡ some (number (ports i))
  pub address_of_node : (i : ℕ) → i < n → lookup (node i) g.addresses ≡ some (text (addrs i))

-- The maps that viper gives for a file.
file_maps :
    (k : KeyCodec) (v : Viper) (t : Template) (g : Generated) (host : Bytes)
    {file : List (Setting × Entry)}
    → HasFile k t g host file
    → IsViperOf v file
    → (v.get_string_map Setting.peers_p2p_port ≡ g.ports)
      × (v.get_string_map Setting.cluster_ips ≡ g.addresses)
file_maps k v t g host f h' =
    let h = subst (IsViperOf v) (sym f.file_is) h' in
    (h.maps Setting.peers_p2p_port g.ports refl, h.maps Setting.cluster_ips g.addresses refl)

module _ (k : KeyCodec) (ok : IsKeyCodec k) (bytes : IsByteCodec k) (v : Viper) (t : Template)
    (g : Generated) (host : Bytes) (file : List (Setting × Entry)) (n : ℕ) (ports : ℕ → ℕ)
    (addrs : ℕ → Bytes) (keys : ℕ → Bytes × Bytes) (crypto : Crypto) (outside : Outside)
    (fails : Bytes → Bool) where
  pub file-starts :
      IsCluster g n ports addrs keys
      → node_file k t g host ≡ loaded file
      → IsViperOf v file
      → (peers : Peers) × (index : ℕ) × (share : PriShare) × (fast_share : PriShare) × (ip_index
            host
          ≡ loaded (some index))
        × (nth (replica_of index 0) g.shares ≡ some share)
        × (nth (replica_of index 0) g.fast_shares ≡ some fast_share)
        × (main k v crypto outside (up fails)
            ≡ runs crypto outside fails
                (config_for t g peers host (replica_of index 0) share fast_share))
        × All (HasPeer ports addrs keys peers) (below n)
  file-starts c made h =
      let maps = file_maps k v t g host (node_file-HasFile k t g host file made) h in
      let known = load_peers-generated v ports addrs keys n c.few (λ i small. (
        ap (λ m. lookup (node i) m) maps.0 ∙ c.port_of_node i small,
        ap (λ m. lookup (node i) m) maps.1 ∙ c.address_of_node i small,
        c.public_bytes i small,
      )) in
      let r =
        generated-loaded k ok bytes v t g host known.0 file made h
          (λ name.
            subst (λ m. All IsByte (own_key m name)) (sym c.keys_are)
              (own_key-bytes keys n name c.private_bytes))
          (ap (λ m. load_peers v (public_keys m) no_peers) c.keys_are ∙ known.1) in
      (known.0, r.0, r.1, r.2, r.3, r.4, r.5, main-loaded k v crypto outside fails _ r.6, known.2)
