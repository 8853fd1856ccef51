-- ===== src/Start.antt =====
-- main.go, and how core/node.go starts a node: `StartListen`, `StartConnect`, `StartRPCListen`. Whether the
-- operating system gives a listener, and which addresses do not answer, is given from outside.
pub mod Reach
pub mod Generated
pub mod Cluster
use trebiz.Prelude.{
  ℕ, List, [], ◌∷◌, Option, none, some, Bool, true, false, Map, ◌==◌, if◌then◌else◌,
}
use trebiz.Messages.{Bytes}
use trebiz.Node.Env.{Env, Crypto, Outside}
use trebiz.Node.State.{World}
use trebiz.Node.Send.{address}
use trebiz.Sign.Keys.{KeyCodec}
use trebiz.Config.{Config, new_world, new_settings}
use trebiz.Config.Load.{Viper, Loading, loaded, refused, panicked, load_config}
use trebiz.Transport.Send.{NetConn, get_conn, return_conn}
use trebiz.Timer.{TimerImpl, new_timer_impl}

module _ (e : Env) (fails : Bytes → Bool) where
  abbrev pub established : Bytes → Option NetConn → List Bytes → List Bytes
  established addr none later = later
  established addr (some conn) later = addr ∷ later

  -- The addresses that were reached. A connection is closed at once, and a failure is passed over.
  unfoldable pub connect_each : Map ℕ Bytes → List Bytes
  connect_each [] = []
  connect_each ((i, addr) ∷ rest) =
      let later = connect_each rest in
      if i == e.replica_id
      then later
      else established (address e i addr) (get_conn (fails (address e i addr)) (address e i addr))
          later

  -- `none` is the error for a node without a transport.
  unfoldable pub establish_conns : Bool → Option (List Bytes)
  unfolding connect_each
  establish_conns has_trans = if has_trans then some (connect_each e.cluster_addr) else none

  abbrev reached : Option (List Bytes) → List Bytes
  reached none = []
  reached (some addrs) = addrs

  -- The error is dropped.
  unfoldable pub start_connect : Bool → List Bytes
  unfolding establish_conns
  start_connect has_trans = reached (establish_conns has_trans)

-- The timer that is made for a transport; `none` where there is no listener.
unfoldable pub start_listen : Bool → Option TimerImpl
start_listen listens = if listens then some new_timer_impl else none

-- An error of registering is returned, and without a listener the program ends.
unfoldable pub start_rpc_listen : Bool → Bool → Bool
start_rpc_listen registers listens = if registers then listens else false

-- What the operating system gives: the addresses that do not answer, and whether there are listeners.
pub record Host : Type 0 where
  pub fails : Bytes → Bool
  pub listens : Bool
  pub registers : Bool
  pub rpc_listens : Bool

-- A node that runs, with its timer and the addresses that it reached, or a program that has ended.
pub data Started : Type 0 where
  running : World → TimerImpl → List Bytes → Started
  ended : Started

abbrev then_rpc : Bool → World → TimerImpl → List Bytes → Started
then_rpc true w timer addrs = running w timer addrs
then_rpc false w timer addrs = ended

abbrev then_listen : Option TimerImpl → List Bytes → Bool → World → Started
then_listen none addrs rpc w = ended
then_listen (some timer) addrs rpc w = then_rpc rpc w timer addrs

abbrev pub env_of : Crypto → Outside → Config → Env
env_of c o conf = record { settings = new_settings conf; crypto = c; outside = o }

-- What is done with the configuration; an error of loading it panics.
unfoldable pub start_with : Crypto → Outside → Host → Loading Config → Started
unfolding start_connect start_listen start_rpc_listen
start_with c o h (loaded conf) =
    then_listen (start_listen h.listens) (start_connect (env_of c o conf) h.fails true)
      (start_rpc_listen h.registers h.rpc_listens) (new_world conf)
start_with c o h refused = ended
start_with c o h panicked = ended

-- The start up to where the request loop and the main loop begin.
unfoldable pub main : KeyCodec → Viper → Crypto → Outside → Host → Started
unfolding start_with
main k v c o h = start_with c o h (load_config k v)
