-- ===== src/ViewChange/NewView.antt =====
-- core/viewchange.go: `sendNewView`, `recvNewView`, `processNewView`, and
-- `updateViewChangeSeqNo` of core/core.go.
use trebiz.Prelude.{
  ℕ, nat_key, ◌/◌, List, [], ◌∷◌, Option, none, some, Bool, true, false, lookup, insert, get, has,
  Map, ltb, leb, ◌==◌, ◌&&◌, ◌||◌, not, add32, sub32, mul32, if◌then◌else◌,
}
use trebiz.Messages.{RequestBatch, NewViewMsg, ViewChangeMsg, Payload, new_view, new_view_type}
use trebiz.Text.{encode_to_string}
use trebiz.Node.Env.{Env}
use trebiz.Node.Monad.{M, Stop, ◌>>=◌, ◌>>◌, skip, halt, read_node, modify, ask, ErrChan, nil_chan}
use trebiz.Node.Cert.{primary}
use trebiz.Node.Send.{broadcast, report, data_hash_byte}
use trebiz.Node.Timers.{stop_timer}
use trebiz.Normal.PrePrepare.{start_fast_timer, handle_pre_prepare_msg}
use trebiz.ViewChange.Select.{
  get_view_change_msgs, select_initial_sequence, assign_sequence_numbers, get_map_key,
}

module _ (e : Env) where
  -- nextSN - 1 + period * K + T / 2, in `uint32`.
  unfoldable pub next_view_change : ℕ → ℕ
  next_view_change next_sn =
      add32 (add32 (sub32 next_sn 1) (mul32 e.view_change_period e.log_k)) (e.checkpoint_t / 2)

  unfoldable pub update_view_change_seq_no : M (Unit {0})
  unfolding next_view_change
  update_view_change_seq_no =
      if e.view_change_period == 0
      then skip
      else modify λ n. record n { view_change_seq_number = next_view_change n.next_sn }

  -- One round of the loop: the batch is proposed again in the current view.
  unfoldable pub process_one : NewViewMsg → ℕ → M (Unit {0})
  process_one nv sn = do
    n ← read_node
    if leb sn n.h then skip else do
      let req_batch = get sn (record { batch = [] }) nv.oset
      let hash = data_hash_byte e (Payload.batch req_batch)
      if e.replica_id == primary e n.curren_view
          then start_fast_timer e (record { sn = sn; view = n.curren_view }) (encode_to_string hash)
          else skip
      stamp ← ask e.now
      handle_pre_prepare_msg e
          (record {
            sn = sn;
            batch_hash = some hash;
            req_batch = req_batch;
            view = n.curren_view;
            replica_id = nv.replica_id;
            time_stamp = stamp;
          })
          nil_chan

  unfoldable pub process_all : NewViewMsg → List ℕ → M (Unit {0})
  unfolding process_one
  process_all nv [] = skip
  process_all nv (sn ∷ rest) = process_one nv sn >> process_all nv rest

  -- The new view begins, and the next proposal gets the number above the high watermark.
  unfoldable pub enter_new_view : Option NewViewMsg → M (Unit {0})
  unfolding process_all update_view_change_seq_no
  enter_new_view none = skip
  enter_new_view (some nv) = do
    n ← read_node
    if n.active_view then skip else do
      stop_timer
      modify λ m. record m { active_view = true; next_sn = add32 (add32 m.h e.log_k) 1 }
      update_view_change_seq_no
      process_all nv (get_map_key nv.oset)

  unfoldable pub process_new_view : M (Unit {0})
  unfolding enter_new_view
  process_new_view = do n ← read_node; enter_new_view (lookup n.curren_view n.new_view_store)

  unfoldable pub announce :
      List ViewChangeMsg → Option (Map ℕ RequestBatch × Bool) → ErrChan → M (Unit {0})
  unfolding process_new_view
  announce vset none err = halt Stop.starved
  announce vset (some (msg_list, ok)) err = do
    n ← read_node
    let nv : NewViewMsg = record {
      view = n.curren_view;
      vset = vset;
      oset = msg_list;
      replica_id = e.replica_id;
    }
    if not ok || get n.curren_view false n.new_view_stage then skip else do
      failed ← broadcast e new_view_type (new_view nv) ((e.replica_id, true) ∷ [])
      report failed err
      modify λ m. record m {
        new_view_store = insert m.curren_view nv m.new_view_store;
        new_view_stage = insert m.curren_view true m.new_view_stage;
      }
      process_new_view

  unfoldable pub send_new_view : ErrChan → M (Unit {0})
  unfolding announce
  send_new_view err = do
    n ← read_node
    if has n.curren_view n.new_view_store then skip else do
      let vset = get_view_change_msgs n.curren_view n.view_change_store
      let (initial_s, ok) = select_initial_sequence vset
      if initial_s == 0 || not ok
          then skip
          else announce vset (assign_sequence_numbers e vset initial_s) err

  unfoldable pub recv_new_view : NewViewMsg → ErrChan → M (Unit {0})
  unfolding process_new_view
  recv_new_view nv err = do
    n ← read_node
    if ltb 0 nv.view
          && leb n.curren_view nv.view
          && primary e nv.view == nv.replica_id
          && not (has nv.view n.new_view_store)
        then (do
          modify λ m. record m { new_view_store = insert nv.view nv m.new_view_store }
          process_new_view)
        else skip
