-- ===== src/Start/Reach.antt =====
-- Which nodes a starting node reaches, and when it runs.
use trebiz.Prelude.{
  ℕ, ◌≡◌, refl, ap, sym, ◌∙◌, List, [], ◌∷◌, Bool, true, false, Map, ◌==◌, ◌&&◌, not, map, filter,
  if◌then◌else◌,
}
use trebiz.Messages.{Bytes}
use trebiz.Node.Env.{Env}
use trebiz.Node.Send.{address}
use trebiz.Transport.Send.{get_conn, dial_conn}
use trebiz.Start.{established, connect_each, start_connect, establish_conns}

-- The other replicas whose addresses answer.
abbrev pub answers : (e : Env) → (Bytes → Bool) → ℕ × Bytes → Bool
answers e fails p = not (p.0 == e.replica_id) && not (fails (address e p.0 p.1))

one_host :
    (e : Env) (fails : Bytes → Bool) (self fail : Bool) (addr : Bytes) (later : List Bytes)
    → (if self then later else established e fails addr (get_conn fail addr) later)
      ≡ (if not self && not fail then addr ∷ later else later)
unfolding get_conn dial_conn
one_host e fails true fail addr later = refl
one_host e fails false true addr later = refl
one_host e fails false false addr later = refl

map-if {ℓ κ} :
    {A : Type ℓ} {B : Type κ} (f : A → B) (b : Bool) (x : A) (xs : List A)
    → map f (if b then x ∷ xs else xs) ≡ (if b then f x ∷ map f xs else map f xs)
map-if f true x xs = refl
map-if f false x xs = refl

connect_each-reaches :
    (e : Env) (fails : Bytes → Bool) (hosts : Map ℕ Bytes)
    → connect_each e fails hosts ≡ map (λ p. address e p.0 p.1) (filter (answers e fails) hosts)
unfolding connect_each
connect_each-reaches e fails [] = refl
connect_each-reaches e fails ((i, addr) ∷ rest) =
    one_host e fails (i == e.replica_id) (fails (address e i addr)) (address e i addr)
      (connect_each e fails rest)
    ∙ ap (λ later. if answers e fails (i, addr) then address e i addr ∷ later else later)
        (connect_each-reaches e fails rest)
    ∙ sym (
        map-if (λ p. address e p.0 p.1) (answers e fails (i, addr)) (i, addr)
          (filter (answers e fails) rest))

-- A node that starts reaches all the other nodes of the cluster that answer, and no others, whichever of them do
-- not answer.
pub start_connect-reaches :
    (e : Env) (fails : Bytes → Bool)
    → start_connect e fails true
      ≡ map (λ p. address e p.0 p.1) (filter (answers e fails) e.cluster_addr)
unfolding start_connect establish_conns
start_connect-reaches e fails = connect_each-reaches e fails e.cluster_addr
