-- ===== src/ConfigGen/Written.antt =====
-- What the generator went through when it has written the files of a cluster.
use trebiz.Prelude.{
  ℕ, ◌<◌, ◌≤◌, ◌≡◌, ◌∙◌, refl, ap, sym, subst, List, [], ◌∷◌, Option, none, some, true, false, Bool,
  bytes_key, lookup, All, length, ltb, ◌==◌, not, ◌^◌, ◌/◌, if◌then◌else◌,
}
use trebiz.Messages.{Bytes}
use trebiz.Sign.Keys.{KeyCodec}
use trebiz.Config.Load.{Setting, Value, text, number, Loading, loaded, refused, panicked}
use trebiz.ConfigGen.Draws.{generate_random_number}
use trebiz.ConfigGen.Files.{
  Template, Generated, Entry, total_node_num, cluster_ips, p2p_ports, node, node_file,
}
use trebiz.ConfigGen.Main.{KeyGen, faulty_num, generated, prepare, write_files, files_for, generate}
use trebiz.ConfigGen.Hosts.{Hosts, IsHost, cluster_ips-fills, p2p_ports-fills}
use trebiz.ConfigGen.Made.{bind-loaded, loaded-eq}

abbrev pub NamedFile : Type 0
NamedFile = Bytes × List (Setting × Entry)

module _ (k : KeyCodec) (t : Template) (g : Generated) where
  -- Each file that is written was made for its host.
  write_files-each :
      (hosts : Hosts) (files : List NamedFile)
      → write_files k t g hosts ≡ loaded files
      → All (λ p. node_file k t g p.0 ≡ loaded p.1) files
  unfolding write_files
  write_files-each [] files h =
      subst (All (λ p. node_file k t g p.0 ≡ loaded p.1)) (loaded-eq [] files h) tt
  write_files-each ((host, addr) ∷ rest) files h =
      let one = bind-loaded (node_file k t g host) _ files h in
      let more = bind-loaded (write_files k t g rest) _ files one.2 in
      subst (All (λ p. node_file k t g p.0 ≡ loaded p.1))
        (loaded-eq ((host, one.0) ∷ more.0) files more.2)
        (one.1, write_files-each rest more.0 more.1)

if_loaded {ℓ} :
    {A : Type ℓ} (b : Bool) (m : Loading A) (a : A)
    → (if b then panicked else m) ≡ loaded a
    → m ≡ loaded a
if_loaded true m a h = absurd cc
if_loaded false m a h = h

module _ (gen : KeyGen) (t : Template) where
  -- What is generated depends on the two maps and on the draw.
  prepare-generated :
      (addresses ports : Hosts) (g : List ℕ → Generated)
      → cluster_ips t.ips [] ≡ loaded addresses
      → p2p_ports t.peers_p2p_port t.ips [] ≡ loaded ports
      → prepare gen t ≡ loaded g
      → generated gen t addresses ports ≡ g
  unfolding prepare
  prepare-generated addresses ports g a p h =
      let one = bind-loaded (cluster_ips t.ips []) _ g h in
      let two = if_loaded (not (length t.ips == length t.peers_p2p_port)) _ g one.2 in
      let three = bind-loaded (p2p_ports t.peers_p2p_port t.ips []) _ g two in
      let last = if_loaded (ltb (total_node_num (length t.ips) / 3) (faulty_num t)) _ g three.2 in
      let same_addresses = loaded-eq addresses one.0 (sym a ∙ one.1) in
      let same_ports = loaded-eq ports three.0 (sym p ∙ three.1) in
      ap (λ m. generated gen t m ports) same_addresses
      ∙ ap (generated gen t one.0) same_ports
      ∙ loaded-eq _ g last

module _ (k : KeyCodec) (gen : KeyGen) (t : Template) (files : List NamedFile) where
  abbrev Writes : (List ℕ → Generated) → Type 0
  Writes g = (evil : List ℕ) × (write_files k t (g evil) t.ips ≡ loaded files)

  drawn-Writes :
      (g : List ℕ → Generated) (r : Option (List ℕ))
      → (elim r as (λ _. Option (Loading (List NamedFile))) [
        | none ↦ none
        | some evil ↦ some (files_for k t g evil)
      ])
        ≡ some (loaded files)
      → Writes g
  drawn-Writes g none h = absurd cc
  drawn-Writes g (some evil) h =
      let made : files_for k t g evil ≡ loaded files = cc in
      (evil, if_loaded (ltb (length evil) (faulty_num t)) _ files made)

  prepared-Writes :
      (p : Loading (List ℕ → Generated)) (r : Option (List ℕ))
      → (elim p as (λ _. Option (Loading (List NamedFile))) [
        | refused ↦ some refused
        | panicked ↦ some panicked
        | loaded g ↦ elim r as (λ _. Option (Loading (List NamedFile))) [
          | none ↦ none
          | some evil ↦ some (files_for k t g evil)
        ]
      ])
        ≡ some (loaded files)
      → (g : List ℕ → Generated) × (p ≡ loaded g) × Writes g
  prepared-Writes refused r h = absurd cc
  prepared-Writes panicked r h = absurd cc
  prepared-Writes (loaded g) r h = (g, refl, drawn-Writes g r h)

  generate-Writes :
      (draws : List ℕ)
      → generate k gen t draws ≡ some (loaded files)
      → (g : List ℕ → Generated) × (prepare gen t ≡ loaded g) × Writes g
  unfolding generate
  generate-Writes draws h =
      prepared-Writes (prepare gen t)
        (generate_random_number 1 (total_node_num (length t.ips)) (faulty_num t) draws) h

-- A template whose hosts are named by all the numbers below how many there are, each with an address and a port.
pub record IsTemplate (t : Template) (ports : ℕ → ℕ) (addrs : ℕ → Bytes) : Type 0 where
  pub few : length t.ips ≤ 2 ^ 32
  pub named : All (λ p. IsHost (length t.ips) addrs p.0 p.1) t.ips
  pub complete : (i : ℕ) → i < length t.ips → (x : Value) × (lookup (node i) t.ips ≡ some x)
  pub ported :
      (i : ℕ) → i < length t.ips → lookup (node i) t.peers_p2p_port ≡ some (number (ports i))

-- A written file was made for its host, from what was generated with the ports and the addresses of all hosts.
pub generate-each :
    (k : KeyCodec) (gen : KeyGen) (t : Template) (ports : ℕ → ℕ) (addrs : ℕ → Bytes)
    (draws : List ℕ) (files : List NamedFile)
    → IsTemplate t ports addrs
    → generate k gen t draws ≡ some (loaded files)
    → (addresses by_name : Hosts) × (evil : List ℕ) × All
        (λ p. node_file k t (generated gen t addresses by_name evil) p.0 ≡ loaded p.1)
        files
      × ((i : ℕ) → i < length t.ips → lookup (node i) by_name ≡ some (number (ports i)))
      × ((i : ℕ) → i < length t.ips → lookup (node i) addresses ≡ some (text (addrs i)))
generate-each k gen t ports addrs draws files ok h =
    let n = length t.ips in
    let a = cluster_ips-fills n ok.few addrs t.ips ok.named in
    let p = p2p_ports-fills n ok.few addrs t.ips ok.named t.peers_p2p_port ports ok.ported in
    let w = generate-Writes k gen t files draws h in
    let same = prepare-generated gen t a.0 p.0 w.0 a.1 p.1 w.1 in
    let evil : List ℕ = w.2.0 in
    let wrote : write_files k t (generated gen t a.0 p.0 evil) t.ips ≡ loaded files =
      ap (λ g. write_files k t (g evil) t.ips) same ∙ w.2.1 in
    (
      a.0,
      p.0,
      evil,
      write_files-each k t (generated gen t a.0 p.0 evil) t.ips files wrote,
      λ i small. let x = ok.complete i small in p.2 i x.0 small x.1,
      λ i small. let x = ok.complete i small in a.2 i x.0 small x.1,
    )
