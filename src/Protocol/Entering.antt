-- ===== src/Protocol/Entering.antt =====
-- A new view is entered by steps of the protocol.
use trebiz.Prelude.{
  ℕ, ◌≡◌, refl, lookup, has, not, ltb, leb, ◌&&◌, ◌==◌, arith, List, [], ◌∷◌, Option, none, some,
  Bool, true, Map, insert, nat_key, bytes_key,
}
use trebiz.Messages.{checkpoint_key, RequestBatch, vcidx_key, ViewChangeMsg, NewViewMsg}
use trebiz.Node.Env.{Env}
use trebiz.Node.State.{World}
use trebiz.Node.Cert.{primary}
use trebiz.Node.Monad.{after, ErrChan, ◌>>=◌, modify, skip}
use trebiz.ViewChange.NewView.{
  next_view_change, update_view_change_seq_no, process_one, process_all, enter_new_view,
  process_new_view, announce, send_new_view, recv_new_view,
}
use trebiz.ViewChange.Select.{get_map_key}
use trebiz.Node.Timers.{stop_timer}
use trebiz.Protocol.Spec.{
  Core, core, IsClosed, IsAnnounced, enters_view, notes_new_view, makes_new_view,
}
use trebiz.Protocol.Keeps.{
  Keeps, Keeps-bind, Keeps-skip, Keeps-modify, Keeps-halt, keeps_rules, if_at,
}
use trebiz.Protocol.Quiet.{Keeps-report, Keeps-broadcast}
use trebiz.Protocol.Proposals.{Keeps-start_fast_timer, Keeps-handle_pre_prepare_msg}

module _ (e : Env) {Q : Core → Type 0} where
  note_view_change :
      Keeps Q (modify λ n. record n { view_change_seq_number = next_view_change e n.next_sn })
  note_view_change = Keeps-modify _ (λ w h. h)

  Keeps-update_view_change_seq_no : Keeps Q (update_view_change_seq_no e)
  unfolding update_view_change_seq_no
  Keeps-update_view_change_seq_no = search (keeps_rules, note_view_change)

module _ (e : Env) {Q : Core → Type 0} (closed : IsClosed e Q) where
  Keeps-process_one : (nv : NewViewMsg) (sn : ℕ) → Keeps Q (process_one e nv sn)
  unfolding process_one
  Keeps-process_one nv sn =
      search (keeps_rules, Keeps-start_fast_timer, Keeps-handle_pre_prepare_msg e closed) depth 12

  Keeps-process_all : (nv : NewViewMsg) (sns : List ℕ) → Keeps Q (process_all e nv sns)
  unfolding process_all
  Keeps-process_all nv [] = Keeps-skip
  Keeps-process_all nv (sn ∷ rest) =
      Keeps-bind _ _ (Keeps-process_one nv sn) (λ _. Keeps-process_all nv rest)

  enter_new_view-step :
      (o : Option NewViewMsg) (w : World)
      → lookup w.node.curren_view w.node.new_view_store ≡ o
      → Q (core w)
      → Q (core (after (enter_new_view e o w)))
  unfolding enter_new_view stop_timer modify ◌>>=◌ skip
  enter_new_view-step none w there q = q
  enter_new_view-step (some nv) w there q =
      if_at Q w.node.active_view skip _ w (λ _. q)
        λ idle.
          (Keeps-bind _ _ (Keeps-update_view_change_seq_no e)
              (λ _. Keeps-process_all nv (get_map_key nv.oset))).at
            _
            (closed.at
              (enters_view (core w) (record { idle = idle; message = nv; announced = there })) q)

  Keeps-process_new_view : Keeps Q (process_new_view e)
  unfolding process_new_view ◌>>=◌
  Keeps-process_new_view = record {
    at = λ w q. enter_new_view-step (lookup w.node.curren_view w.node.new_view_store) w refl q;
  }

  note_new_view :
      (v : ℕ) (vset : List ViewChangeMsg) (oset : Map ℕ RequestBatch)
      → Keeps Q (
          modify λ m. record m {
            new_view_store =
                insert m.curren_view
                  (record { view = v; vset = vset; oset = oset; replica_id = e.replica_id })
                  m.new_view_store;
            new_view_stage = insert m.curren_view true m.new_view_stage;
          })
  note_new_view v vset oset = Keeps-modify _ (λ w h. closed.at (makes_new_view (core w) _ refl) h)

  Keeps-announce :
      (vset : List ViewChangeMsg) (o : Option (Map ℕ RequestBatch × Bool)) (err : ErrChan)
      → Keeps Q (announce e vset o err)
  unfolding announce
  Keeps-announce vset none err = Keeps-halt _
  Keeps-announce vset (some (list, ok)) err =
      search (keeps_rules, Keeps-broadcast, Keeps-report, note_new_view, Keeps-process_new_view)
        depth 12

  pub Keeps-send_new_view : (err : ErrChan) → Keeps Q (send_new_view e err)
  unfolding send_new_view
  Keeps-send_new_view err = search (keeps_rules, Keeps-announce) depth 12

  may_note :
      (w : World) (nv : NewViewMsg)
      → (ltb 0 nv.view
          && leb w.node.curren_view nv.view
          && primary e nv.view == nv.replica_id
          && not (has nv.view w.node.new_view_store))
        ≡ true
      → IsAnnounced e (core w) nv
  may_note w nv ok = record {
    from_primary = ground arith;
    not_old = ground arith;
    first = ground arith;
  }

  pub Keeps-recv_new_view : (nv : NewViewMsg) (err : ErrChan) → Keeps Q (recv_new_view e nv err)
  unfolding recv_new_view modify ◌>>=◌
  Keeps-recv_new_view nv err = record {
    at = λ w q.
        if_at Q _ _ skip w
          (λ ok.
            Keeps-process_new_view.at _
              (closed.at (notes_new_view (core w) nv (may_note w nv ok)) q))
          (λ _. q);
  }
