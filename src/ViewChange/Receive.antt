-- ===== src/ViewChange/Receive.antt =====
-- core/viewchange.go: `recvViewChange`.
use trebiz.Prelude.{
  ℕ, nat_key, ◌+◌, [], ◌∷◌, Bool, true, insert, has, Map, length, ltb, leb, ◌==◌, ◌&&◌, ◌||◌, not,
  sub32, if◌then◌else◌,
}
use trebiz.Messages.{Vcidx, vcidx_key, ViewChangeMsg}
use trebiz.Node.Env.{Env}
use trebiz.Node.Monad.{M, ◌>>=◌, ◌>>◌, skip, read_node, modify, ErrChan}
use trebiz.Node.Cert.{primary}
use trebiz.ViewChange.Send.{send_view_change}
use trebiz.ViewChange.Select.{correct_view_change}
use trebiz.ViewChange.NewView.{send_new_view}

-- The replicas that ask for a view after `view`.
unfoldable pub later_replicas : ℕ → Map Vcidx ViewChangeMsg → Map ℕ Bool → Map ℕ Bool
later_replicas view [] replicas = replicas
later_replicas view ((idx, _) ∷ rest) replicas =
    later_replicas view rest
      (if leb idx.view view then replicas else insert idx.replica_id true replicas)

-- The smallest view after `view` that is asked for; 0 stands for none.
unfoldable pub min_view : ℕ → Map Vcidx ViewChangeMsg → ℕ → ℕ
min_view view [] least = least
min_view view ((idx, _) ∷ rest) least = min_view view rest (
    if leb idx.view view
    then least
    else if least == 0 || ltb idx.view least
    then idx.view
    else least)

unfoldable pub view_quorum : ℕ → Map Vcidx ViewChangeMsg → ℕ
view_quorum view [] = 0
view_quorum view ((idx, _) ∷ rest) =
    let others = view_quorum view rest in if idx.view == view then others + 1 else others

module _ (e : Env) where
  -- f + 1 replicas in later views: the node joins the first of those views.
  unfoldable pub join_later_view : ErrChan → M (Unit {0})
  unfolding later_replicas min_view
  join_later_view err = do
    n ← read_node
    if leb (e.f + 1) (length (later_replicas n.curren_view n.view_change_store []))
        then (do
          modify
              λ m. record m { curren_view = sub32 (min_view m.curren_view m.view_change_store 0) 1 }
          send_view_change e err)
        else skip

  unfoldable pub check_view_quorum : ViewChangeMsg → ErrChan → M (Unit {0})
  unfolding view_quorum
  check_view_quorum vc err = do
    n ← read_node
    if not n.active_view
          && vc.view == n.curren_view
          && leb e.view_change_quorum (view_quorum n.curren_view n.view_change_store)
          && primary e vc.view == e.replica_id
          && e.replica_id == primary e n.curren_view
        then send_new_view e err
        else skip

  unfoldable pub recv_view_change : ViewChangeMsg → ErrChan → M (Unit {0})
  unfolding join_later_view check_view_quorum
  recv_view_change vc err = do
    n ← read_node
    let idx : Vcidx = record { view = vc.view; replica_id = vc.replica_id }
    if ltb vc.view n.curren_view || not (correct_view_change e vc) || has idx n.view_change_store
        then skip
        else do
          modify λ m. record m { view_change_store = insert idx vc m.view_change_store }
          join_later_view err
          check_view_quorum vc err
