-- ===== src/ConfigGen/Main.antt =====
-- The order of `main` in config_gen/main.go: what it checks, generates and writes.
use trebiz.Prelude.{
  ℕ, ◌+◌, ◌/◌, List, [], ◌∷◌, Option, none, some, Map, length, take, drop, ltb, ◌==◌, not,
  if◌then◌else◌,
}
use trebiz.Messages.{Bytes}
use trebiz.Node.Env.{PriShare, PubPoly}
use trebiz.Sign.Keys.{KeyCodec}
use trebiz.Config.Load.{Setting, Value, Loading, loaded, refused, panicked, ◌>>=◌}
use trebiz.ConfigGen.Draws.{generate_random_number}
use trebiz.ConfigGen.Files.{
  Template, Generated, Entry, total_node_num, num_t, fast_num, cluster_ips, p2p_ports, ed_keys,
  node_file,
}

-- `sign.GenKeys` at each host, and `sign.GenTSKeys` for a threshold and a number of shares: once for the keys of
-- the slow path, and once for those of the fast path.
pub record KeyGen : Type 0 where
  pub gen_keys : ℕ → Bytes × Bytes
  pub gen_ts_keys : ℕ → ℕ → List PriShare × PubPoly
  pub gen_fast_keys : ℕ → ℕ → List PriShare × PubPoly

abbrev pub faulty_num : Template → ℕ
faulty_num t = t.bg + t.abm + t.pbm

-- What is generated, once the faulty nodes are drawn.
abbrev pub generated : KeyGen → Template → Map Bytes Value → Map Bytes Value → List ℕ → Generated
generated gen t addresses ports evil =
    let total = total_node_num (length t.ips) in
    let slow = gen.gen_ts_keys (num_t total) total in
    let fast = gen.gen_fast_keys (fast_num total t.abm t.pbm) total in
    record {
      addresses = addresses;
      ports = ports;
      keys = ed_keys gen.gen_keys (length t.ips);
      total = total;
      shares = slow.0;
      pub_poly = slow.1;
      fast_shares = fast.0;
      fast_pub_poly = fast.1;
      bgnodes = take t.bg evil;
      abmnodes = take t.abm (drop t.bg evil);
      pbmodes = drop (t.bg + t.abm) evil;
    }

-- The checks, up to where the faulty nodes are drawn.
unfoldable pub prepare : KeyGen → Template → Loading (List ℕ → Generated)
unfolding cluster_ips p2p_ports
prepare gen t = do
  addresses ← cluster_ips t.ips []
  if not (length t.ips == length t.peers_p2p_port) then panicked else do
    ports ← p2p_ports t.peers_p2p_port t.ips []
    if ltb (total_node_num (length t.ips) / 3) (faulty_num t)
        then panicked
        else loaded (generated gen t addresses ports)

-- A panic at a later host leaves the earlier files written.
unfoldable pub write_files :
    KeyCodec
    → Template
    → Generated
    → Map Bytes Value
    → Loading (List (Bytes × List (Setting × Entry)))
unfolding node_file
write_files k t g [] = loaded []
write_files k t g ((host, addr) ∷ rest) = do
  file ← node_file k t g host
  files ← write_files k t g rest
  loaded ((host, file) ∷ files)

-- Slicing fewer numbers than there are faulty nodes panics.
abbrev pub files_for :
    KeyCodec
    → Template
    → (List ℕ → Generated)
    → List ℕ
    → Loading (List (Bytes × List (Setting × Entry)))
files_for k t g evil =
    if ltb (length evil) (faulty_num t) then panicked else write_files k t (g evil) t.ips

-- The files by the name of the host; `none` says that more numbers have to be drawn.
unfoldable pub generate :
    KeyCodec → KeyGen → Template → List ℕ → Option (Loading (List (Bytes × List (Setting × Entry))))
unfolding prepare write_files
generate k gen t draws = elim (prepare gen t) [
  | refused ↦ some refused
  | panicked ↦ some panicked
  | loaded g ↦
      elim (generate_random_number 1 (total_node_num (length t.ips)) (faulty_num t) draws) [
        | none ↦ none
        | some evil ↦ some (files_for k t g evil)
      ]
]
