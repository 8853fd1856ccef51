-- ===== src/Examples/Views.antt =====
-- What core/viewchange.go computes, at concrete messages.
use trebiz.Prelude.{
  ℕ, nat_key, ◌≡◌, ◌⊎◌, ap, refl, arith, List, [], ◌∷◌, none, some, Bool, true, false, Map, lookup,
}
use mathlib.Core.List.{Memᴰ}
use trebiz.Messages.{MsgId, id_key, RequestBatch, PrepareQc, ViewChangeMsg}
use trebiz.Config.{new_world, new_settings}
use trebiz.Node.State.{Node, World, MsgCert, empty_cert, prepared}
use trebiz.Node.Cert.{cert_of}
use trebiz.Node.Monad.{done, err_chan}
use trebiz.ViewChange.Send.{view_change_msg}
use trebiz.ViewChange.Select.{
  get_view_change_msgs, select_initial_sequence, assign_sequence_numbers,
}
use trebiz.ViewChange.NewView.{send_new_view}
use trebiz.ViewChange.Initial.{select_initial_sequence-largest}
use trebiz.ViewChange.Assignment.{assign_sequence_numbers-lookup}
use trebiz.ViewChange.Certified.{AnyShows, Shows, certified-lookup}
use mathlib.Core.List.Memᴰ.{head, tail}
use trebiz.ViewChange.Taking.{Takes, after_taking, recv_view_change-Takes}
use trebiz.ViewChange.Collect.{view_change_msg-carries}
use trebiz.ViewChange.Receive.{min_view, recv_view_change}
use trebiz.ViewChange.Smallest.{min_view-smallest}
use trebiz.ViewChange.Stuck.{send_new_view-stuck}
use trebiz.Examples.Setting.{env, conf, batch, proposal, id_of, good}

-- Replica 2 has prepared the request 3, above the checkpoint 2.
abbrev qc : ℕ → PrepareQc
qc sn = record {
  sn = sn;
  batch_hash = some (1 ∷ []);
  view = 0;
  replica_id = 0;
  threshold_sig = good;
  time_stamp = 0;
}

abbrev prepared_vc : ViewChangeMsg
prepared_vc = record {
  view = 1;
  last_stable_ck = 2;
  cset = record { seq_n = 2; state_digest = []; replica_id = 2 } ∷ [];
  pset = (3, proposal 3) ∷ (4, proposal 4) ∷ [];
  qset = (3, qc 3) ∷ [];
  replica_id = 2;
}

abbrev idle_vc : ViewChangeMsg
idle_vc = record { view = 1; last_stable_ck = 0; cset = []; pset = []; qset = []; replica_id = 3 }

abbrev vset : List ViewChangeMsg
vset = idle_vc ∷ prepared_vc ∷ []

select_initial_sequence-largest_example : select_initial_sequence vset ≡ (2, true)
select_initial_sequence-largest_example = select_initial_sequence-largest vset

prepared-AnyShows : AnyShows 3 vset
unfolding lookup
prepared-AnyShows = (
  prepared_vc,
  batch,
  tail (head refl),
  record {
    proposal = proposal 3;
    proposed = refl;
    batch_is = refl;
    certificate = qc 3;
    prepared = refl;
  },
)

certified-lookup_example :
    (list : Map ℕ RequestBatch) × (ok : Bool) × (vc : ViewChangeMsg) × (b : RequestBatch)
    × (assign_sequence_numbers env vset 2 ≡ some (list, ok))
    × (lookup 3 list ≡ some b)
    × Memᴰ vc vset
    × Shows 3 vc b
unfolding env new_settings
certified-lookup_example =
    certified-lookup env vset 2 3 (omega arith) (omega arith) (omega arith) prepared-AnyShows

assign_sequence_numbers-lookup_example :
    (list : Map ℕ RequestBatch) × (ok : Bool) × (assign_sequence_numbers env vset 2
      ≡ some (list, ok))
    × (lookup 9 list ≡ none)
unfolding env new_settings
assign_sequence_numbers-lookup_example = assign_sequence_numbers-lookup env vset 2 9 (omega arith)

recv_view_change-Takes_example :
    (Takes env (new_world conf) prepared_vc
      × (recv_view_change env prepared_vc err_chan (new_world conf)
          ≡ after_taking env prepared_vc err_chan (new_world conf)))
    ⊎ ((¬ Takes env (new_world conf) prepared_vc)
        × (recv_view_change env prepared_vc err_chan (new_world conf) ≡ done tt (new_world conf)))
recv_view_change-Takes_example = recv_view_change-Takes env prepared_vc err_chan (new_world conf)

-- A node with a prepared request.
abbrev prepared_cert : MsgCert
prepared_cert = record empty_cert {
  req_batch_stage = prepared;
  pre_prepare_store = some (proposal 3);
  prepare_qc = some (qc 3);
}

abbrev prepared_node : Node
unfolding new_world
prepared_node = record (new_world conf).node { req_cert_store = (id_of 3, prepared_cert) ∷ [] }

only_prepared :
    (x : MsgId × MsgCert)
    → Memᴰ x prepared_node.req_cert_store
    → x.0.sn ≡ 3
    → x.1 ≡ cert_of prepared_node (id_of 3)
unfolding lookup new_world
only_prepared x (head same) at = ap (λ y. y.1) same
only_prepared x (tail later) at = elim later [ ]

view_change_msg-carries_example :
    (lookup 3 (view_change_msg env prepared_node).pset ≡ some (proposal 3))
    × (lookup 3 (view_change_msg env prepared_node).qset ≡ some (qc 3))
unfolding lookup new_world
view_change_msg-carries_example =
    view_change_msg-carries env prepared_node (id_of 3) (proposal 3) (qc 3) refl refl (omega arith)
      only_prepared

abbrev waiting : World
unfolding new_world
waiting = record (new_world conf) {
  node = record (new_world conf).node {
    curren_view = 1;
    active_view = false;
    view_change_store = (record { view = 1; replica_id = 3 }, idle_vc) ∷ [];
  };
}

send_new_view-stuck_example : send_new_view env err_chan waiting ≡ done tt waiting
unfolding lookup new_world get_view_change_msgs
send_new_view-stuck_example = send_new_view-stuck env err_chan waiting refl (refl, tt)

min_view-smallest_example :
    min_view 1
      ((record { view = 5; replica_id = 3 }, idle_vc)
        ∷ (record { view = 1; replica_id = 2 }, idle_vc)
        ∷ (record { view = 3; replica_id = 0 }, idle_vc)
        ∷ [])
      0
    ≡ 3
min_view-smallest_example = min_view-smallest 1 (
    (record { view = 5; replica_id = 3 }, idle_vc)
    ∷ (record { view = 1; replica_id = 2 }, idle_vc)
    ∷ (record { view = 3; replica_id = 0 }, idle_vc)
    ∷ [])
