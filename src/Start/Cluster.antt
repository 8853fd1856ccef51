-- ===== src/Start/Cluster.antt =====
-- From the template of a cluster to its nodes: config_gen/main.go, `LoadConfig` and main.go together.
use trebiz.Prelude.{ℕ, ◌<◌, ◌≡◌, refl, List, some, Bool, Map, All, All-Memᴰ, Memᴰ, length}
use trebiz.Messages.{Bytes}
use trebiz.Text.{IsByte}
use trebiz.Node.Env.{PriShare, Crypto, Outside}
use trebiz.Sign.Keys.{KeyCodec}
use trebiz.Sign.KeysBack.{IsKeyCodec}
use trebiz.Config.Load.{Setting, Viper, Value, loaded, Peers}
use trebiz.ConfigGen.Files.{Template, Entry, replica_of, ip_index, nth, node_file}
use trebiz.ConfigGen.Main.{KeyGen, generated, generate}
use trebiz.ConfigGen.Settings.{IsViperOf}
use trebiz.ConfigGen.Texts.{IsByteCodec}
use trebiz.ConfigGen.Peers.{HasPeer, below}
use trebiz.ConfigGen.Written.{NamedFile, IsTemplate, generate-each}
use trebiz.ConfigGen.Reads.{config_for}
use trebiz.Start.{main}
use trebiz.Start.Generated.{up, runs, IsCluster, file-starts}

-- The keys that are generated for the hosts are bytes.
abbrev pub HasByteKeys : KeyGen → ℕ → Type 0
HasByteKeys gen n = (i : ℕ) → i < n → All IsByte (gen.gen_keys i).0 × All IsByte (gen.gen_keys i).1

-- When the generator has written the files of a cluster, a node that starts on one of them runs, on a host
-- where it can listen. It has the number of its host, the shares of that number, and the settings of the
-- template; the two timeouts that the generator does not set are 0. It knows the port, the address and the
-- public key of every replica. It reached those that answer. The template names its hosts by the numbers below
-- how many there are, viper gives back what was set, and keys are bytes and come back from their encodings.
pub generated-runs :
    (k : KeyCodec) (ok : IsKeyCodec k) (bytes : IsByteCodec k) (gen : KeyGen) (t : Template)
    (ports : ℕ → ℕ) (addrs : ℕ → Bytes) (draws : List ℕ) (files : List NamedFile) (host : Bytes)
    (file : List (Setting × Entry)) (v : Viper) (crypto : Crypto) (outside : Outside)
    (fails : Bytes → Bool)
    → IsTemplate t ports addrs
    → HasByteKeys gen (length t.ips)
    → generate k gen t draws ≡ some (loaded files)
    → Memᴰ (host, file) files
    → IsViperOf v file
    → (addresses by_name : Map Bytes Value) × (evil : List ℕ) × (peers : Peers) × (index : ℕ)
      × (share : PriShare) × (fast_share : PriShare) × (ip_index host ≡ loaded (some index))
      × (nth (replica_of index 0) (generated gen t addresses by_name evil).shares ≡ some share)
      × (nth (replica_of index 0) (generated gen t addresses by_name evil).fast_shares
          ≡ some fast_share)
      × (main k v crypto outside (up fails)
          ≡ runs crypto outside fails (
              config_for t
                (generated gen t addresses by_name evil)
                peers
                host
                (replica_of index 0)
                share
                fast_share))
      × All (HasPeer ports addrs gen.gen_keys peers) (below (length t.ips))
generated-runs k ok bytes gen t ports addrs draws files host file v crypto outside fails template
      byte_keys made written viper =
    let e = generate-each k gen t ports addrs draws files template made in
    let g = generated gen t e.0 e.1 e.2 in
    let c : IsCluster g (length t.ips) ports addrs gen.gen_keys = record {
      keys_are = refl;
      few = template.few;
      private_bytes = λ i h. (byte_keys i h).0;
      public_bytes = λ i h. (byte_keys i h).1;
      port_of_node = e.4;
      address_of_node = e.5;
    } in
    let one = All-Memᴰ (λ (p : NamedFile). node_file k t g p.0 ≡ loaded p.1) written e.3 in
    let r =
      file-starts k ok bytes v t g host file (length t.ips) ports addrs gen.gen_keys crypto outside
        fails c one viper in
    (e.0, e.1, e.2, r.0, r.1, r.2, r.3, r.4, r.5, r.6, r.7, r.8)
