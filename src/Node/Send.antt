-- ===== src/Node/Send.antt =====
-- Sending and verifying (core/node.go): `broadcast`, `sendToLeader` and the signature helpers, with
-- `dataHashByte` of core/utils.go.
use trebiz.Prelude.{
  ℕ, nat_key, List, [], ◌∷◌, ◌++◌, Option, none, some, Bool, true, false, Map, lookup, get, has,
  leb, ◌==◌, not, if◌then◌else◌,
}
use trebiz.Messages.{Bytes, Payload, Message, MsgType}
use trebiz.Text.{itoa}
use trebiz.Sign.{
  data_hash_byte as hash_of, sign_with_prikey, verify_sign_ed, assemble_intact_ts_partial,
  verify_ts,
}
use trebiz.Node.Env.{Env, PubPoly}
use trebiz.Node.State.{spawns, posts, send_task}
use trebiz.Node.Monad.{M, ◌>>=◌, ◌>>◌, pure, skip, emit, ask, deref, ErrChan, send_err}

-- `if errBC := …; errBC != nil { err <- errBC }`.
abbrev pub report : Bool → ErrChan → M (Unit {0})
report true err = send_err err
report false err = skip

module _ (e : Env) where
  -- A host with its port.
  unfoldable pub address : ℕ → Bytes → Bytes
  unfolding itoa
  address index addr = addr ++ b':' ∷ itoa (get index 0 e.cluster_port)

  unfoldable pub send_each : Map ℕ Bytes → Map ℕ Bool → MsgType → Message → Bytes → M (Unit {0})
  unfolding address
  send_each [] exc_addrs ty msg sig = skip
  send_each ((i, addr) ∷ rest) exc_addrs ty msg sig =
      (if has i exc_addrs then skip else emit (spawns (send_task i (address i addr) ty msg sig)))
      >> send_each rest exc_addrs ty msg sig

  -- A node that is not correct lets a draw decide whether it sends.
  unfoldable pub keeps_silent : M Bool
  keeps_silent =
      if e.node_type == 0 then pure false else do r ← ask e.random_num; pure (leb e.evil_pr r)

  unfoldable pub broadcast_encoded : Option Bytes → Map ℕ Bool → MsgType → Message → M Bool
  unfolding send_each
  broadcast_encoded none exc_addrs ty msg = pure true
  broadcast_encoded (some bytes) exc_addrs ty msg = do
    send_each e.cluster_addr exc_addrs ty msg (sign_with_prikey e bytes e.my_private_key)
    pure false

  -- Returns whether there was an error. One goroutine is started for each address.
  unfoldable pub broadcast : MsgType → Message → Map ℕ Bool → M Bool
  unfolding keeps_silent broadcast_encoded
  broadcast ty msg exc_addrs = do
    silent ← keeps_silent
    if silent
        then pure false
        else broadcast_encoded (e.encode (Payload.message msg)) exc_addrs ty msg

  -- The connection, the transmission and the release are each asked of the network.
  unfoldable pub post_encoded : Option Bytes → MsgType → Message → Bytes → M Bool
  post_encoded none ty msg addr = pure true
  post_encoded (some bytes) ty msg addr = do
    connected ← ask e.connects
    if not connected then pure true else do
      sent ← ask e.transmits
      if not sent then pure true else do
        emit (posts addr ty msg (sign_with_prikey e bytes e.my_private_key))
        released ← ask e.releases
        pure (not released)

  unfoldable pub send_to_leader : MsgType → Message → Bytes → M Bool
  unfolding keeps_silent post_encoded
  send_to_leader ty msg lead_addr = do
    silent ← keeps_silent
    if silent then pure false else post_encoded (e.encode (Payload.message msg)) ty msg lead_addr

  -- The message's payload, signed under the key of the sender that it names.
  unfoldable pub verify_rsa_signature : Message → ℕ → Bytes → Bool
  verify_rsa_signature msg send_id sig = elim (e.encode (Payload.message msg)) [
    | none ↦ false
    | some bytes ↦ elim (lookup send_id e.public_key) [
      | none ↦ false
      | some key ↦ verify_sign_ed e bytes key sig
    ]
  ]

  -- `none` is the error of the encoder. A failing recovery panics.
  unfoldable pub create_threshold_sig : Payload → List Bytes → PubPoly → ℕ → ℕ → M (Option Bytes)
  create_threshold_sig msg partial_sigs pub_poly quorum_num node_num = elim (e.encode msg) [
    | none ↦ pure none
    | some bytes ↦ do
      sig ← deref (assemble_intact_ts_partial e partial_sigs pub_poly bytes quorum_num node_num)
      pure (some sig)
  ]

  unfoldable pub verify_threshold_sig : Payload → PubPoly → Bytes → Bool
  verify_threshold_sig msg pub_poly th_sig = elim (e.encode msg) [
    | none ↦ false
    | some bytes ↦ verify_ts e pub_poly bytes th_sig
  ]

  -- The encoder's error is dropped: then nothing is hashed.
  unfoldable pub data_hash_byte : Payload → Bytes
  data_hash_byte msg = elim (e.encode msg) [ none ↦ hash_of e [] | some bytes ↦ hash_of e bytes ]
