-- ===== src/Node/Cert.antt =====
-- The certificate store: `getCert`, and what every handler computes of a node.
use trebiz.Prelude.{
  ℕ, ◌%◌, Option, none, some, Bool, Map, lookup, insert, get, sub32, u32, ltb, leb, ◌&&◌,
}
use trebiz.Messages.{MsgId, id_key}
use trebiz.Node.Env.{Env}
use trebiz.Node.State.{Node, MsgCert, empty_cert}
use trebiz.Node.Monad.{M, ◌>>=◌, ◌>>◌, pure, modify, read_node}

abbrev pub put_cert : MsgId → Option MsgCert → Map MsgId MsgCert → Map MsgId MsgCert
put_cert idx none certs = insert idx empty_cert certs
put_cert idx (some cert) certs = certs

-- `getCert` makes an empty certificate if there is none. Handlers assign through the pointer that
-- it returns: that is `modify_cert` at the same identifier.
unfoldable pub get_cert : MsgId → M MsgCert
get_cert idx = do
  n ← read_node
  modify
      λ m. record m { req_cert_store = put_cert idx (lookup idx m.req_cert_store) m.req_cert_store }
  pure (get idx empty_cert n.req_cert_store)

unfoldable pub modify_cert : MsgId → (MsgCert → MsgCert) → M (Unit {0})
modify_cert idx f = modify λ n. record n {
  req_cert_store = insert idx (f (get idx empty_cert n.req_cert_store)) n.req_cert_store;
}

-- The certificate that a node has for an identifier, whether or not it is stored.
abbrev pub cert_of : Node → MsgId → MsgCert
cert_of n idx = get idx empty_cert n.req_cert_store

module _ (e : Env) where
  unfoldable pub primary : ℕ → ℕ
  primary view = view % u32 e.replica_count

  -- Whether `sn` lies above the low watermark `h` and not above the high one. Both subtractions are
  -- of `uint32`, and wrap.
  unfoldable pub in_watermarks : ℕ → ℕ → Bool
  in_watermarks h sn = ltb 0 (sub32 sn h) && leb (sub32 sn h) e.log_k
