-- ===== src/ViewChange/Select.antt =====
-- core/viewchange.go: what the new primary computes from the view-change messages, and
-- `GetMapkey` of core/utils.go.
use trebiz.Prelude.{
  ℕ, zero, suc, nat_key, bytes_key, ◌+◌, List, [], ◌∷◌, map, Option, none, some, Bool, true, false,
  Map, lookup, insert, get, has, ltb, leb, ◌==◌, ◌&&◌, add32, if◌then◌else◌,
}
use trebiz.Messages.{
  Bytes, RequestBatch, PrePrepareMsg, PrepareQc, CheckpointMsg, ViewChangeMsg, Vcidx, Payload,
  contents,
}
use trebiz.Node.Env.{Env}
use trebiz.Node.Send.{verify_threshold_sig}
use trebiz.Normal.Prepare.{vote_of}

-- The stored messages for the current view, in the order of the store.
unfoldable pub get_view_change_msgs : ℕ → Map Vcidx ViewChangeMsg → List ViewChangeMsg
get_view_change_msgs view [] = []
get_view_change_msgs view ((_, vc) ∷ rest) =
    if vc.view == view then vc ∷ get_view_change_msgs view rest else get_view_change_msgs view rest

unfoldable pub initial_loop : ℕ → Bool → List ViewChangeMsg → ℕ × Bool
initial_loop sn ok [] = (sn, ok)
initial_loop sn ok (vc ∷ rest) =
    initial_loop (if leb sn vc.last_stable_ck then vc.last_stable_ck else sn)
      (if leb sn vc.last_stable_ck then true else ok) rest

-- The latest stable checkpoint, and whether a message was seen.
unfoldable pub select_initial_sequence : List ViewChangeMsg → ℕ × Bool
unfolding initial_loop
select_initial_sequence = initial_loop 0 false

-- What the scan of the messages for one sequence number finds: the batch of a message with a
-- prepare certificate, or how often each digest was seen, with its batch.
pub data Scan : Type 0 where
  certified : RequestBatch → Scan
  votes : Map Bytes ℕ → Map Bytes RequestBatch → Scan

unfoldable pub scan_vset : ℕ → List ViewChangeMsg → Map Bytes ℕ → Map Bytes RequestBatch → Scan
scan_vset s [] diff batches = votes diff batches
scan_vset s (vc ∷ rest) diff batches =
    let skipped = scan_vset s rest diff batches in
    elim (lookup s vc.pset) [
      | none ↦ skipped
      | some p ↦
          let hash = contents p.batch_hash in
          let counted =
            scan_vset s rest (insert hash (get hash 0 diff + 1) diff)
              (insert hash p.req_batch batches) in
          if has s vc.qset then certified p.req_batch else counted
    ]

-- `DiffSubset`: the digests that were seen often enough.
unfoldable pub diff_subset : ℕ → Map Bytes ℕ → ℕ
diff_subset quorum [] = 0
diff_subset quorum ((_, value) ∷ rest) =
    let others = diff_subset quorum rest in if leb quorum value then others + 1 else others

unfoldable pub assign_frequent :
    ℕ → ℕ → Map Bytes ℕ → Map Bytes RequestBatch → Map ℕ RequestBatch → Map ℕ RequestBatch
assign_frequent quorum s [] batches msg_list = msg_list
assign_frequent quorum s ((key, value) ∷ rest) batches msg_list =
    assign_frequent quorum s rest batches (
      if leb quorum value
      then insert s (get key (record { batch = [] }) batches) msg_list
      else msg_list)

-- One round of the loop. Three digests and more leave the list and the flag as they are.
unfoldable pub assign_one : ℕ → ℕ → Scan → Map ℕ RequestBatch → Bool → Map ℕ RequestBatch × Bool
unfolding diff_subset assign_frequent
assign_one quorum s (certified b) msg_list ok = (insert s b msg_list, ok)
assign_one quorum s (votes diff batches) msg_list ok =
    let k = diff_subset quorum diff in
    (
      if k == 0
          then insert s (record { batch = [] }) msg_list
          else if k == 1
          then assign_frequent quorum s diff batches msg_list
          else msg_list,
      if k == 2 then false else ok,
    )

unfoldable pub assign_loop :
    ℕ
    → ℕ
    → ℕ
    → ℕ
    → List ViewChangeMsg
    → Map ℕ RequestBatch
    → Bool
    → Option (Map ℕ RequestBatch × Bool)
unfolding scan_vset
assign_loop zero quorum s max_s vset msg_list ok = none
assign_loop (suc fuel) quorum s max_s vset msg_list ok =
    let rest =
      let (list, fine) = assign_one quorum s (scan_vset s vset [] []) msg_list ok in
      assign_loop fuel quorum (add32 s 1) max_s vset list fine in
    if leb s max_s then rest else some (msg_list, ok)

unfoldable pub insert_key : ℕ → List ℕ → List ℕ
insert_key k [] = k ∷ []
insert_key k (j ∷ rest) = if leb k j then k ∷ j ∷ rest else j ∷ insert_key k rest

unfoldable pub sort_keys : List ℕ → List ℕ
unfolding insert_key
sort_keys [] = []
sort_keys (k ∷ rest) = insert_key k (sort_keys rest)

-- The keys in rising order.
unfoldable pub get_map_key : Map ℕ RequestBatch → List ℕ
unfolding sort_keys
get_map_key result = sort_keys (map (λ p. p.0) result)

module _ (e : Env) where
  -- `none` is the loop that does not end: `s <= max_s` always holds when `max_s` is the largest
  -- `uint32`. Otherwise there are as many rounds as the log has entries, or none.
  unfoldable pub assign_sequence_numbers :
      List ViewChangeMsg → ℕ → Option (Map ℕ RequestBatch × Bool)
  unfolding assign_loop
  assign_sequence_numbers vset sn =
      assign_loop (suc e.log_k) e.pre_prepare_subset_count (add32 sn 1) (add32 sn e.log_k) vset []
        true

  unfoldable pub correct_pset : ViewChangeMsg → Map ℕ PrePrepareMsg → Bool
  correct_pset vc [] = true
  correct_pset vc ((_, p) ∷ rest) =
      ltb p.view vc.view
      && ltb vc.last_stable_ck p.sn
      && ltb p.sn (add32 vc.last_stable_ck e.log_k)
      && correct_pset vc rest

  unfoldable pub correct_qset : Map ℕ PrepareQc → Bool
  correct_qset [] = true
  correct_qset ((_, q) ∷ rest) =
      verify_threshold_sig e (Payload.vote (vote_of q)) e.ts_pub_key q.threshold_sig
      && correct_qset rest

  unfoldable pub correct_cset : ViewChangeMsg → List CheckpointMsg → Bool
  correct_cset vc [] = true
  correct_cset vc (c ∷ rest) = c.seq_n == vc.last_stable_ck && correct_cset vc rest

  unfoldable pub correct_view_change : ViewChangeMsg → Bool
  unfolding correct_pset correct_qset correct_cset
  correct_view_change vc =
      correct_pset vc vc.pset && correct_qset vc.qset && correct_cset vc vc.cset
