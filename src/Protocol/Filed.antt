-- ===== src/Protocol/Filed.antt =====
-- Every proposal in the store of certificates is filed under its own number and view.
use trebiz.Prelude.{◌≡◌, refl, List, Option, none, some, Map, lookup, All, All-insert, All-lookup}
use trebiz.Messages.{MsgId, id_key, PrePrepareMsg}
use trebiz.Config.{Config, new_world}
use trebiz.Main.{Event, run}
use trebiz.Node.Env.{Env}
use trebiz.Node.State.{MsgCert, empty_cert}
use trebiz.Protocol.Spec.{
  Core, CertStep, votes, takes_proposal, takes_prepare_qc, takes_fast_qc, takes_commit_qc, prepares,
  commits_fast, commits_slow, Step, opens, changes, queues, buffers, executes_next, signs_vote,
  moves_low, goes_before, leaves_view, enters_view, stores_checkpoint, notes_ask, notes_new_view,
  makes_new_view,
}
use trebiz.Protocol.Refines.{run-closed}

-- The proposal of a certificate, if it has one, is for its request.
abbrev pub IsFor : MsgId → Option PrePrepareMsg → Type 0
IsFor id none = Unit
IsFor id (some p) = (p.sn ≡ id.sn) × (p.view ≡ id.view)

abbrev pub IsFiled : Map MsgId MsgCert → Type 0
IsFiled = All (λ p. IsFor p.0 p.1.pre_prepare_store)

filed_at :
    (id : MsgId) (o : Option MsgCert) (certs : Map MsgId MsgCert)
    → lookup id certs ≡ o
    → IsFiled certs
    → IsFor id (elim o as (λ _. MsgCert) [ none ↦ empty_cert | some c ↦ c ]).pre_prepare_store
filed_at id none certs h f = tt
filed_at id (some c) certs h f = All-lookup (λ i d. IsFor i d.pre_prepare_store) id c certs h f

module _ (e : Env) where
  CertStep-IsFor :
      {s : Core} {id : MsgId} {c d : MsgCert}
      → CertStep e s id c d
      → IsFor id c.pre_prepare_store
      → IsFor id d.pre_prepare_store
  CertStep-IsFor (takes_proposal m a) h = (a.same_sn, a.same_view)
  CertStep-IsFor (votes ps ks p k) h = h
  CertStep-IsFor (takes_prepare_qc q n ok) h = h
  CertStep-IsFor (takes_fast_qc q n ok) h = h
  CertStep-IsFor (takes_commit_qc q n) h = h
  CertStep-IsFor (prepares q r x) h = h
  CertStep-IsFor (commits_fast q r x) h = h
  CertStep-IsFor (commits_slow k r x v) h = h

  Step-IsFiled : {s t : Core} → Step e s t → IsFiled s.certs → IsFiled t.certs
  Step-IsFiled (opens s id h) f =
      All-insert (λ i d. IsFor i d.pre_prepare_store) id empty_cert s.certs tt f
  Step-IsFiled (changes s id c st) f =
      All-insert (λ i d. IsFor i d.pre_prepare_store) id c s.certs
        (CertStep-IsFor st (filed_at id (lookup id s.certs) s.certs refl f)) f
  Step-IsFiled (executes_next s d h) f = f
  Step-IsFiled (queues s id h) f = f
  Step-IsFiled (buffers s id h) f = f
  Step-IsFiled (signs_vote s sn) f = f
  Step-IsFiled (moves_low s sn h) f = f
  Step-IsFiled (goes_before s v h) f = f
  Step-IsFiled (leaves_view s) f = f
  Step-IsFiled (enters_view s h) f = f
  Step-IsFiled (stores_checkpoint s x h) f = f
  Step-IsFiled (notes_ask s x h) f = f
  Step-IsFiled (notes_new_view s x h) f = f
  Step-IsFiled (makes_new_view s x h) f = f

new_world-IsFiled : (conf : Config) → IsFiled (new_world conf).node.req_cert_store
unfolding new_world
new_world-IsFiled conf = tt

-- After any events in any order, starting from a new node, every proposal that the node keeps is filed under
-- its own sequence number and view.
pub run-IsFiled :
    (e : Env) (conf : Config) (evs : List Event)
    → IsFiled (run e (new_world conf) evs).node.req_cert_store
run-IsFiled e conf evs =
    run-closed e {Q = λ s. IsFiled s.certs} (record { at = Step-IsFiled e }) (new_world conf) evs
      (new_world-IsFiled conf)
