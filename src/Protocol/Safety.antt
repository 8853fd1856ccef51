-- ===== src/Protocol/Safety.antt =====
-- What the certificates of a node say of the requests that it executed.
use trebiz.Prelude.{
  ℕ, ◌≡◌, sym, subst, inl, inr, List, none, some, nat_key, lookup, insert, get, lookup-insert_cases,
  lookup-insert-some, get-insert_cases, add32, All, All-map,
}
use trebiz.Messages.{Bytes, MsgId, id_key}
use trebiz.Config.{Config, new_world}
use trebiz.Main.{Event, run}
use trebiz.Node.Env.{Env}
use trebiz.Node.State.{MsgCert, empty_cert}
use trebiz.Protocol.Spec.{
  Core, core, cert_at, exec_log, HasCertificate, Step, opens, changes, queues, buffers,
  executes_next, signs_vote, moves_low, goes_before, leaves_view, enters_view, stores_checkpoint,
  notes_ask, notes_new_view, makes_new_view,
}
use trebiz.Normal.Execute.{no_id}
use trebiz.Protocol.Refines.{run-closed}
use trebiz.Protocol.Sound.{
  get-insert, IsSound, empty_cert-IsSound, HasCertificate-CertStep, CertStep-IsSound,
}

module _ (e : Env) where
  -- What holds of the state of a node at any time.
  record IsJustified (s : Core) : Type 0 where
    sound : (id : MsgId) → IsSound e id (cert_at s id)
    queued :
        (i : ℕ) (id : MsgId)
        → lookup i s.ids ≡ some id
        → (id.sn ≡ i) × HasCertificate e id (cert_at s id)
    found :
        (i : ℕ) (d : Bytes)
        → get i none s.buffer ≡ some d
        → (id : MsgId) × (lookup i s.ids ≡ some id)
    logged : All (λ p. (p.1.sn ≡ p.0) × HasCertificate e p.1 (cert_at s p.1)) s.log

  -- An assignment to the store of certificates that takes no certificate away.
  certs_changed :
      (s : Core) (id : MsgId) (c : MsgCert)
      → (HasCertificate e id (cert_at s id) → HasCertificate e id c)
      → IsSound e id c
      → IsJustified s
      → IsJustified (record s { certs = insert id c s.certs })
  certs_changed s id c kept new_sound j =
      let kept_at : (i : MsgId)
          → HasCertificate e i (cert_at s i)
          → HasCertificate e i (get i empty_cert (insert id c s.certs)) =
        λ i.
          get-insert (λ i' d. HasCertificate e i' (cert_at s i') → HasCertificate e i' d) s.certs id
            c kept i (λ h. h) in
      record {
        sound = λ i. get-insert (IsSound e) s.certs id c new_sound i (j.sound i);
        queued = λ i i' h. let (sn_eq, cert) = j.queued i i' h in (sn_eq, kept_at i' cert);
        found = j.found;
        logged = All-map (λ p h. (h.0, kept_at p.1 h.1)) s.log j.logged;
      }

  Step-IsJustified : {s t : Core} → Step e s t → IsJustified s → IsJustified t
  Step-IsJustified (opens s id h) j =
      certs_changed s id empty_cert
        (subst
          (λ o.
            HasCertificate e id (elim o [ none ↦ empty_cert | some d ↦ d ])
            → HasCertificate e id empty_cert)
          (sym h) (λ x. x))
        (empty_cert-IsSound e id) j
  Step-IsJustified (changes s id c st) j =
      certs_changed s id c (HasCertificate-CertStep e st) (CertStep-IsSound e st (j.sound id)) j
  Step-IsJustified (queues s id h) j = record {
    sound = j.sound;
    queued = λ i i' found. elim (lookup-insert_cases id.sn i id i' s.ids found) [
      | inl (sn_eq, id_eq) ↦
          subst (λ x. (x.sn ≡ i) × HasCertificate e x (cert_at s x)) id_eq
            (sn_eq, (j.sound id).committed_ok h)
      | inr before ↦ j.queued i i' before
    ];
    found = λ i d at_i.
        let (i', before) = j.found i d at_i in lookup-insert-some id.sn i id i' s.ids before;
    logged = j.logged;
  }
  Step-IsJustified (buffers s id h) j = record {
    sound = j.sound;
    queued = j.queued;
    found = λ i d at_i. elim (get-insert_cases id.sn i _ d s.buffer at_i) [
      | inl sn_eq ↦ (id, subst (λ x. lookup x s.ids ≡ some id) sn_eq h)
      | inr before ↦ j.found i d before
    ];
    logged = j.logged;
  }
  Step-IsJustified (executes_next s d h) j = record {
    sound = j.sound;
    queued = j.queued;
    found = j.found;
    logged = (
      (let (id, found) = j.found _ d h in
          subst
            (λ o.
              let x : MsgId = elim o [ none ↦ no_id | some v ↦ v ] in
              (x.sn ≡ add32 s.last_exec 1) × HasCertificate e x (cert_at s x))
            (sym found) (j.queued _ id found)),
      j.logged,
    );
  }
  Step-IsJustified (signs_vote s sn) j = record {
    sound = j.sound;
    queued = j.queued;
    found = j.found;
    logged = j.logged;
  }
  Step-IsJustified (moves_low s sn h) j = record {
    sound = j.sound;
    queued = j.queued;
    found = j.found;
    logged = j.logged;
  }
  Step-IsJustified (goes_before s v h) j = record {
    sound = j.sound;
    queued = j.queued;
    found = j.found;
    logged = j.logged;
  }
  Step-IsJustified (leaves_view s) j = record {
    sound = j.sound;
    queued = j.queued;
    found = j.found;
    logged = j.logged;
  }
  Step-IsJustified (enters_view s h) j = record {
    sound = j.sound;
    queued = j.queued;
    found = j.found;
    logged = j.logged;
  }
  Step-IsJustified (stores_checkpoint s x h) j = record {
    sound = j.sound;
    queued = j.queued;
    found = j.found;
    logged = j.logged;
  }
  Step-IsJustified (notes_ask s x h) j = record {
    sound = j.sound;
    queued = j.queued;
    found = j.found;
    logged = j.logged;
  }
  Step-IsJustified (notes_new_view s x h) j = record {
    sound = j.sound;
    queued = j.queued;
    found = j.found;
    logged = j.logged;
  }
  Step-IsJustified (makes_new_view s x h) j = record {
    sound = j.sound;
    queued = j.queued;
    found = j.found;
    logged = j.logged;
  }

  new_world-IsJustified : (conf : Config) → IsJustified (core (new_world conf))
  unfolding new_world lookup
  new_world-IsJustified conf = record {
    sound = λ id. empty_cert-IsSound e id;
    queued = λ i id h. cc;
    found = λ i d h. cc;
    logged = tt;
  }

-- After any events in any order, starting from a new node, every request that the node has executed carries
-- the sequence number it was executed under, and the store holds a certificate for it: a fast prepare
-- certificate, or a prepare certificate and a commit certificate. The fast prepare certificate and the prepare
-- certificate have the request's number and view and a threshold signature that verifies, and the signature of
-- the commit certificate verifies over the prepare certificate.
pub executed-HasCertificate :
    (e : Env) (conf : Config) (evs : List Event)
    → All
        (λ p.
          (p.1.sn ≡ p.0) × HasCertificate e p.1 (cert_at (core (run e (new_world conf) evs)) p.1))
        (exec_log (run e (new_world conf) evs).out)
executed-HasCertificate e conf evs =
    (run-closed e (record { at = Step-IsJustified e }) (new_world conf) evs
      (new_world-IsJustified e conf)).logged

-- Every certificate that a node holds is sound, after any events.
pub run-IsSound :
    (e : Env) (conf : Config) (evs : List Event) (id : MsgId)
    → IsSound e id (cert_at (core (run e (new_world conf) evs)) id)
run-IsSound e conf evs =
    (run-closed e (record { at = Step-IsJustified e }) (new_world conf) evs
      (new_world-IsJustified e conf)).sound
