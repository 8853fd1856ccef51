-- ===== src/Examples/Clusters.antt =====
-- The configuration generator and the loader at concrete inputs.
use trebiz.Prelude.{
  ℕ, ◌+◌, ◌<◌, ◌≡◌, refl, ap, List, [], ◌∷◌, Option, some, Map, bytes_key, nat_key, true, length,
  min, arith,
}
use trebiz.Messages.{Bytes}
use trebiz.Node.Env.{PriShare, PubPoly}
use trebiz.Config.Load.{Setting, Value, text, number, Viper}
use trebiz.ConfigGen.Draws.{generate_random_number}
use trebiz.ConfigGen.Distinct.{IsDistinct, IsBetween, generate_random_number-IsDistinct}
use trebiz.ConfigGen.Numbers.{thresholds-large}
use trebiz.ConfigGen.Files.{Template, Entry, string_entry, int_entry, map_entry, num_t, fast_num}
use trebiz.ConfigGen.Settings.{entry, IsViperOf}

-- Three faulty nodes among ten: the fourth draw repeats the first one.
generate_random_number-IsDistinct_example :
    (nums : List ℕ) × (generate_random_number 1 10 3 (4 ∷ 0 ∷ 4 ∷ 8 ∷ []) ≡ some nums)
    × IsDistinct nums
    × IsBetween 1 10 nums
    × (length nums ≡ 3)
generate_random_number-IsDistinct_example =
    generate_random_number-IsDistinct 1 10 3 (4 ∷ 0 ∷ 4 ∷ 8 ∷ []) (omega arith) (omega arith)
      (omega arith, (omega arith, (omega arith, (omega arith, tt)))) (omega arith)

thresholds-large_example : 7 + 2 < min (num_t 7) (fast_num 7 1 1) + min (num_t 7) (fast_num 7 1 1)
thresholds-large_example = thresholds-large 7 0 1 1 (λ h. omega arith) (omega arith)

abbrev read_string : Option Entry → Bytes
read_string (some (string_entry b)) = b
read_string _ = []

abbrev read_int : Option Entry → ℕ
read_int (some (int_entry n)) = n
read_int _ = 0

abbrev read_map : Option Entry → Map Bytes Value
read_map (some (map_entry m)) = m
read_map _ = []

abbrev pub viper_of : List (Setting × Entry) → Viper
viper_of file = record {
  is_read = true;
  get_string = λ s. read_string (entry s file);
  get_int = λ s. read_int (entry s file);
  get_string_map = λ s. read_map (entry s file);
}

pub viper_of-IsViperOf : (file : List (Setting × Entry)) → IsViperOf (viper_of file) file
viper_of-IsViperOf file = record {
  read_ok = refl;
  strings = λ s b h. ap read_string h;
  ints = λ s n h. ap read_int h;
  unset = λ s h. ap read_int h;
  maps = λ s m h. ap read_map h;
}

abbrev pub host : Bytes
host = b'n' ∷ b'o' ∷ b'd' ∷ b'e' ∷ b'0' ∷ []

abbrev pub template : Template
template = record {
  ips = (host, text (b'h' ∷ [])) ∷ [];
  peers_p2p_port = (host, number 9000) ∷ [];
  rpc_listen_port = 9500;
  bg = 0;
  abm = 0;
  pbm = 0;
  batch_timeout = 2000;
  view_change_timeout = 5000;
  batch_size = 1000;
  checkpoint_t = 10;
  log_k = 20;
  max_pool = 3;
  auto_view_change = 0;
  fast_path_timeout = 700;
  evil_pr = 8;
}

abbrev pub one_poly : PubPoly
one_poly = record { base_bytes = 5 ∷ []; commit_bytes = [] }

abbrev pub one_share : PriShare
one_share = record { i = 0; v = 6 ∷ [] }
