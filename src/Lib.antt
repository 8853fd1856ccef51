-- ===== src/Lib.antt =====
-- Trebiz, a byzantine fault tolerant replication protocol in Go: PBFT with threshold signatures, a
-- fast path that needs one round of votes, checkpoints and view changes.
--
-- The parts and where they are modelled:
--   core/msg_type.go, core/rpchandler.go    the messages                       Messages
--   sign/tools.go                           signatures, and keys as bytes      Sign
--   config/config.go, `NewNode`             settings and the first state       Config
--   config_gen/main.go                      the configurations of a cluster    ConfigGen
--   core/node.go, core/utils.go             the state, sending, verifying      Node
--   core/core.go                            the handlers of the normal case    Normal
--   core/viewchange.go, `GetMapkey`         the view change                    ViewChange
--   core/node.go, core/rpchandler.go        the pool of requests               Requests
--   `StartPBFT` and the other goroutines    one event at a time                Main
--   core/net_transport.go and neighbours    what goes over a connection        Transport
--   core/timer_control.go                   the timer of the view change       Timer
--   client/main.go                          the client                         Client
--   main.go, the listeners of core/node.go  the start of a node                Start
-- Prelude has the Boolean tests, lists, maps and machine words that all parts share, Text the parts of
-- `encoding/hex` and `strconv` that the code uses. A function of the source has the same name here in
-- lower case with underscores: `handlePrePrepareMsg` is `handle_pre_prepare_msg`. A large function is
-- cut into several definitions at its early returns.
--
-- How it is modelled. A handler is a function in the monad `M` of Node/Monad: it takes a world, which is
-- the state of the node, the effects so far (the newest first), the errors waiting in the error channel
-- and a count of the questions asked of the outside, and it ends with a value or stops: by a panic, by
-- waiting for ever at a channel, or without fuel. `MsgCert` is read by `get_cert` and assigned through
-- `modify_cert`, as through the pointer that `getCert` returns. The fields of `Node` that only `NewNode`
-- assigns are in `Settings`. The JSON encoder, SHA-256, ed25519 and the threshold signatures are the
-- parameters of `Crypto`; clock, random numbers and network are those of `Outside`, each asked at a number
-- that grows. `uint32` values are natural numbers with the wrap-around written out, a `Duration` is its
-- 64-bit pattern. A Go map is an association list whose order stands for the order in which `range`
-- takes the entries: theorems are over all lists, so they cover every order.
--
-- Concurrency. What a handler starts with `go`, a timer that fires, a round of the request loop and a
-- client's call are events of `run` like the commands of `StartPBFT`; each event is one step, and the
-- theorems are over all lists of events. Interleavings inside a handler, which the source does not lock
-- against, are not modelled. After a stop other events may follow: a goroutine that waits for ever leaves
-- the others running, and what holds after all events also holds where a panic ends the program.
--
-- The protocol as a specification. Protocol/Spec says in a step relation on an abstract state what may
-- happen: the certificates, the execution buffers, the stored checkpoints, the messages for later views, the low
-- watermark, the view and the log of executed
-- requests and of signed votes. Protocol/Keeps has the rules by which the handlers are shown to make only such steps, Protocol/Refines
-- puts them together, and Safety, Order, Loyalty, Votes, Filed and HighMark read off what follows for
-- every run.
--
-- A cluster. Protocol/Agreement has several nodes, each with its own environment, configuration and events, and
-- a set of faulty ones of which nothing is said. The nodes have in common what is known of threshold signatures: a
-- signature that verifies over a vote was made from the partial signatures of enough replicas over that vote.
-- The effect `signs` of a run says which votes a node has signed; it stands where the code signs a vote.
--
-- How the parts meet. A message that `send_rpc` puts on the wire of one node is what `handle_conn` of the other
-- hands to `run` as an event. What `start_timer`, `soft_start_timer` and `stop_timer` ask for are the starts
-- and stops of the loop in Timer, and its event is the message `view_change_timer`. A configuration goes from
-- `node_file` through viper to `load_config`, and from there to `new_settings` and `new_world`: Start/Cluster
-- follows it from the template of a cluster to a node that runs. The client reads the answer of
-- `receive_new_request`.
--
-- Bounds. `execute_loop` runs on fuel, one more than the entries of the execution buffer: each round takes
-- the next number, and a number has one entry. The loop of `assign_sequence_numbers` runs on fuel, one more than the
-- window; `none` is the loop of the source that does not end. `itoa_loop` has one more than the number.
--
-- The handler of a connection takes a number of turns, one more than its stream has bytes at most; draws of random
-- numbers are a list, and a list that is too short gives `none`.
--
-- Parameters. The msgpack codec is a pair of functions each way with the law that what was written is read back; kyber's
-- marshalling and the JSON of keys likewise; viper is what its getters give for a setting, whose name it reads without
-- regard to case. Failures of the network, of dialling, of each write and of each flush are given from outside.
--
-- Not modelled: sockets, the construction of transports and loggers, and `decodeResponse`, which nothing calls;
-- `New` of config/config.go, which only a test calls; the sleeps of main.go; the command line of the client and
-- its endless loop; printing and measuring time; the generation of keys. Names of nodes are ASCII and have no
-- sign before their number, and numbers in configurations are not negative. A map of pointers holds no nil
-- pointer, and there is at least one replica where `primary` divides.
pub mod Prelude
pub mod Messages
pub mod Text
pub mod Sign
pub mod Node
pub mod ViewChange
pub mod Normal
pub mod Config
pub mod Requests
pub mod Main
pub mod Timer
pub mod Client
pub mod Start
pub mod Transport
pub mod ConfigGen
pub mod Protocol
pub mod Examples
