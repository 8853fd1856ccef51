-- ===== src/ViewChange/Stuck.antt =====
-- A view change before the first stable checkpoint.
use trebiz.Prelude.{nat_key, ◌≡◌, refl, List, [], ◌∷◌, false, has, All, map, arith}
use trebiz.Messages.{ViewChangeMsg}
use trebiz.Node.Env.{Env}
use trebiz.Node.State.{World}
use trebiz.Node.Monad.{done, ErrChan, ◌>>=◌}
use trebiz.ViewChange.Select.{get_view_change_msgs}
use trebiz.ViewChange.NewView.{send_new_view}
use trebiz.ViewChange.Initial.{largest, select_initial_sequence-largest}

largest_zero :
    (vset : List ViewChangeMsg)
    → All (λ vc. vc.last_stable_ck ≡ 0) vset
    → largest (map (λ vc. vc.last_stable_ck) vset) ≡ 0
largest_zero [] h = refl
largest_zero (vc ∷ rest) h = omega (arith, h.0, largest_zero rest h.1)

-- A new primary that has not made its new view yet, and whose view-change messages for the view all have the
-- stable checkpoint 0, as they have before the first checkpoint is stable, sends no new view and changes
-- nothing, however many messages there are.
pub send_new_view-stuck :
    (e : Env) (err : ErrChan) (w : World)
    → has w.node.curren_view w.node.new_view_store ≡ false
    → All
        (λ vc. vc.last_stable_ck ≡ 0)
        (get_view_change_msgs w.node.curren_view w.node.view_change_store)
    → send_new_view e err w ≡ done tt w
unfolding send_new_view ◌>>=◌
send_new_view-stuck e err w fresh zeros =
    let msgs = get_view_change_msgs w.node.curren_view w.node.view_change_store in
    rw (fresh, select_initial_sequence-largest msgs, largest_zero msgs zeros)
