-- ===== src/Examples/Starting.antt =====
-- A cluster of two replicas, from its template to the start of a node.
use trebiz.Prelude.{
  ℕ, zero, suc, ◌+◌, ◌<◌, ◌≡◌, refl, List, [], ◌∷◌, some, false, Map, bytes_key, lookup, insert,
  All, arith,
}
use mathlib.Core.List.Memᴰ.{head, tail}
use trebiz.Messages.{Bytes}
use trebiz.Text.{itoa, itoa_loop}
use trebiz.Node.Env.{PriShare}
use trebiz.Sign.Keys.{
  encode_ts_partial_key, encode_ts_public_key, marshall_ts_partial_key, marshall_ts_public_key,
  marshall_commits,
}
use trebiz.Config.Load.{Setting, Value, text, number, loaded, Peers}
use trebiz.ConfigGen.Draws.{generate_random_number, random_loop}
use trebiz.ConfigGen.Files.{
  Template, Entry, Generated, node, node_file, ip_index, nth, replica_of, settings_of, cluster_ips,
  p2p_ports, ed_keys,
}
use trebiz.ConfigGen.Main.{KeyGen, generated, prepare, write_files, generate}
use trebiz.ConfigGen.Peers.{HasPeer, below}
use trebiz.ConfigGen.Hosts.{IsHost}
use trebiz.ConfigGen.Reads.{config_for}
use trebiz.ConfigGen.Written.{NamedFile, IsTemplate}
use trebiz.Start.{main}
use trebiz.Start.Generated.{up, runs}
use trebiz.Start.Cluster.{generated-runs}
use trebiz.Examples.Setting.{crypto, outside}
use trebiz.Examples.ToyKeys.{toy_keys, toy-IsKeyCodec, toy-IsByteCodec}
use trebiz.Examples.Clusters.{viper_of, viper_of-IsViperOf, template, host, one_poly, one_share}

abbrev second_host : Bytes
second_host = b'n' ∷ b'o' ∷ b'd' ∷ b'e' ∷ b'1' ∷ []

abbrev addr_of : ℕ → Bytes
addr_of i = b'h' ∷ i ∷ []

abbrev hosts : Map Bytes Value
hosts = (host, text (addr_of 0)) ∷ (second_host, text (addr_of 1)) ∷ []

abbrev host_ports : Map Bytes Value
host_ports = (host, number 9000) ∷ (second_host, number 9001) ∷ []

abbrev two_hosts : Template
two_hosts = record template { ips = hosts; peers_p2p_port = host_ports }

abbrev second_share : PriShare
second_share = record { i = 1; v = 7 ∷ [] }

abbrev toy_gen : KeyGen
toy_gen = record {
  gen_keys = λ i. (3 ∷ [], 4 ∷ []);
  gen_ts_keys = λ t n. (one_share ∷ second_share ∷ [], one_poly);
  gen_fast_keys = λ t n. (one_share ∷ second_share ∷ [], one_poly);
}

abbrev made_keys : Generated
made_keys = generated toy_gen two_hosts hosts host_ports []

abbrev first_file : List (Setting × Entry)
first_file = settings_of two_hosts made_keys host 0 (0 ∷ 6 ∷ []) (5 ∷ []) (0 ∷ 6 ∷ []) (5 ∷ [])

abbrev second_file : List (Setting × Entry)
second_file =
    settings_of two_hosts made_keys second_host 1 (1 ∷ 7 ∷ []) (5 ∷ []) (1 ∷ 7 ∷ []) (5 ∷ [])

abbrev two_files : List NamedFile
two_files = (host, first_file) ∷ (second_host, second_file) ∷ []

two_files_made : generate toy_keys toy_gen two_hosts [] ≡ some (loaded two_files)
unfolding generate prepare cluster_ips p2p_ports write_files node_file ip_index node itoa itoa_loop
    generate_random_number random_loop ed_keys lookup insert encode_ts_partial_key
    encode_ts_public_key marshall_ts_partial_key marshall_ts_public_key marshall_commits
two_files_made = refl

abbrev port_at : ℕ → ℕ
port_at i = 9000 + i

two_named : All (λ p. IsHost 2 addr_of p.0 p.1) hosts
unfolding node itoa itoa_loop
two_named = ((0, omega arith, refl, refl), ((1, omega arith, refl, refl), tt))

two_complete : (i : ℕ) → i < 2 → (x : Value) × (lookup (node i) hosts ≡ some x)
unfolding node itoa itoa_loop lookup
two_complete zero h = (text (addr_of 0), refl)
two_complete (suc zero) h = (text (addr_of 1), refl)
two_complete (suc (suc i)) h = absurd (omega (arith, h))

two_ported : (i : ℕ) → i < 2 → lookup (node i) host_ports ≡ some (number (port_at i))
unfolding node itoa itoa_loop lookup
two_ported zero h = refl
two_ported (suc zero) h = refl
two_ported (suc (suc i)) h = absurd (omega (arith, h))

two_hosts-IsTemplate : IsTemplate two_hosts port_at addr_of
two_hosts-IsTemplate = record {
  few = omega arith;
  named = two_named;
  complete = two_complete;
  ported = two_ported;
}

-- The second node starts, where all addresses answer.
generated-runs_example :
    (addresses by_name : Map Bytes Value) × (evil : List ℕ) × (peers : Peers) × (index : ℕ)
    × (share : PriShare) × (fast_share : PriShare) × (ip_index second_host ≡ loaded (some index))
    × (nth (replica_of index 0) (generated toy_gen two_hosts addresses by_name evil).shares
        ≡ some share)
    × (nth (replica_of index 0) (generated toy_gen two_hosts addresses by_name evil).fast_shares
        ≡ some fast_share)
    × (main toy_keys (viper_of second_file) crypto outside (up (λ a. false))
        ≡ runs crypto outside
            (λ a. false)
            (config_for two_hosts
              (generated toy_gen two_hosts addresses by_name evil)
              peers
              second_host
              (replica_of index 0)
              share
              fast_share))
    × All (HasPeer port_at addr_of toy_gen.gen_keys peers) (below 2)
generated-runs_example =
    generated-runs toy_keys toy-IsKeyCodec toy-IsByteCodec toy_gen two_hosts port_at addr_of []
      two_files second_host second_file (viper_of second_file) crypto outside (λ a. false)
      two_hosts-IsTemplate (λ i h. ((omega arith, tt), (omega arith, tt))) two_files_made
      (tail (head refl)) (viper_of-IsViperOf second_file)
