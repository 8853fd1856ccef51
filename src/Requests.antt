-- ===== src/Requests.antt =====
-- core/rpchandler.go and the request loop of core/node.go: the pool of client requests.
pub mod Pipeline
pub mod Round
use trebiz.Prelude.{
  ℕ, ◌-◌, List, [], ◌∷◌, ◌++◌, Bool, true, false, zero, suc, nat_key, get, length, take, drop, ltb,
  leb, ◌==◌, ◌&&◌, if◌then◌else◌,
}
use trebiz.Messages.{Bytes, Request, RequestBatch}
use trebiz.Node.Env.{Env}
use trebiz.Node.State.{Node, spawns, propose_task}
use trebiz.Node.Monad.{M, ◌>>=◌, ◌>>◌, pure, skip, read_node, modify, emit}
use trebiz.Node.Cert.{primary}

-- "response from "
abbrev pub response_from : Bytes
response_from = 114 ∷ 101 ∷ 115 ∷ 112 ∷ 111 ∷ 110 ∷ 115 ∷ 101 ∷ 32 ∷ 102 ∷ 114 ∷ 111 ∷ 109 ∷ 32 ∷ []

-- " and current leaderIp is "
abbrev pub and_leader : Bytes
and_leader =
    32 ∷ 97 ∷ 110 ∷ 100 ∷ 32 ∷ 99 ∷ 117 ∷ 114 ∷ 114 ∷ 101 ∷ 110 ∷ 116 ∷ 32 ∷ 108 ∷ 101 ∷ 97 ∷ 100
    ∷ 101 ∷ 114 ∷ 73 ∷ 112 ∷ 32 ∷ 105 ∷ 115 ∷ 32 ∷ []

-- The command with "cmd" in front.
abbrev pub make_request : Bytes → Request
make_request cmd = record { cmd = b'c' ∷ b'm' ∷ b'd' ∷ cmd }

module _ (e : Env) where
  -- Appends the request and answers with the node's name and the leader's address.
  unfoldable pub receive_new_request : Bytes → M Bytes
  receive_new_request cmd = do
    modify λ n. record n { batch_store = n.batch_store ++ make_request cmd ∷ [] }
    n ← read_node
    pure (response_from ++ (e.node_name ++ (and_leader ++ n.leader)))

  unfoldable pub receive_new_request_for_test : ℕ → M (Unit {0})
  unfolding receive_new_request
  receive_new_request_for_test zero = skip
  receive_new_request_for_test (suc n) =
      (receive_new_request [] >>= λ _. skip) >> receive_new_request_for_test n

  -- The first requests leave the pool, whoever the primary is.
  unfoldable pub send_batch : M (Unit {0})
  send_batch = do
    n ← read_node
    let end_num =
        if ltb (length n.batch_store) e.batch_size then length n.batch_store else e.batch_size
    modify λ m. record m { batch_store = drop end_num m.batch_store }
    if n.active_view && primary e n.curren_view == e.replica_id
        then emit (spawns (propose_task (record { batch = take end_num n.batch_store })))
        else skip

  -- One round of the loop; `expired` says whether the batch timer has run out.
  unfoldable pub handle_req_batch : Bool → M (Unit {0})
  unfolding send_batch receive_new_request_for_test
  handle_req_batch expired = do
    modify λ n. record n { leader = get (primary e n.curren_view) [] e.cluster_addr }
    n ← read_node
    if leb e.batch_size (length n.batch_store) then send_batch else skip
    m ← read_node
    if expired
        then (if length m.batch_store == 0
            then (if m.active_view && primary e m.curren_view == e.replica_id
                then receive_new_request_for_test e.batch_size
                else skip)
            else send_batch)
        else skip

  -- One round of the loop that the tests run: an empty pool is left empty.
  unfoldable pub handle_req_batch_for_test : Bool → M (Unit {0})
  unfolding send_batch
  handle_req_batch_for_test expired = do
    modify λ n. record n { leader = get (primary e n.curren_view) [] e.cluster_addr }
    n ← read_node
    if leb e.batch_size (length n.batch_store) then send_batch else skip
    m ← read_node
    if expired then (if length m.batch_store == 0 then skip else send_batch) else skip
