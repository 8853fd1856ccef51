-- ===== src/ViewChange/Collect.antt =====
-- `calPQset` as two independent scans of the store of certificates.
use trebiz.Prelude.{
  ℕ, nat_key, ◌<◌, ◌≡◌, ◌∙◌, ◌⊎◌, inl, inr, refl, sym, ap, subst, [], ◌∷◌, Option, none, some, Bool,
  true, false, Map, lookup, All, All-insert, All-lookup, Memᴰ, Memᴰ-All, lookup-insert-some,
  lookup-insert_self, leb, if◌then◌else◌, arith,
}
use trebiz.Messages.{MsgId, id_key, PrePrepareMsg, PrepareQc}
use trebiz.Node.Env.{Env}
use trebiz.Node.State.{MsgCert, empty_cert, Node}
use trebiz.Node.Cert.{cert_of}
use trebiz.ViewChange.Send.{put_some, cal_pq_set, view_change_msg}

-- One field of the certificates above `h`, by sequence number.
pub collect {ℓ} : {A : Type ℓ} → (MsgCert → Option A) → ℕ → Map MsgId MsgCert → Map ℕ A → Map ℕ A
collect field h [] found = found
collect field h ((id, c) ∷ rest) found =
    collect field h rest (if leb id.sn h then found else put_some id.sn (field c) found)

pub cal_pq_set-collect :
    (h : ℕ) (certs : Map MsgId MsgCert) (pset : Map ℕ PrePrepareMsg) (qset : Map ℕ PrepareQc)
    → cal_pq_set h certs pset qset
      ≡ (collect (λ c. c.pre_prepare_store) h certs pset, collect (λ c. c.prepare_qc) h certs qset)
unfolding cal_pq_set collect
cal_pq_set-collect h [] pset qset = refl
cal_pq_set-collect h ((id, c) ∷ rest) pset qset = cal_pq_set-collect h rest _ _

entry_cases :
    (b : Bool) (c d : MsgCert) (o : Option MsgCert)
    → (if b then some d else o) ≡ some c
    → ((b ≡ true) × (d ≡ c)) ⊎ (o ≡ some c)
entry_cases true c d o h = inl (refl, cc)
entry_cases false c d o h = inr h

-- What holds of a value that is there.
abbrev pub Held {ℓ} : {A : Type ℓ} → (ℕ → A → Type 0) → ℕ → Option A → Type 0
Held P sn none = Unit
Held P sn (some a) = P sn a

module _ {ℓ} {A : Type ℓ} where
  if_found :
      (b : Bool) (sn i : ℕ) (a : A) (o : Option A) (m : Map ℕ A)
      → lookup sn m ≡ some a
      → (a' : A) × (lookup sn (if b then m else put_some i o m) ≡ some a')
  if_found true sn i a o m f = (a, f)
  if_found false sn i a none m f = (a, f)
  if_found false sn i a (some a') m f = lookup-insert-some i sn a' a m f

  put_above :
      (h sn : ℕ) (o : Option A) (a : A) (m : Map ℕ A)
      → o ≡ some a
      → h < sn
      → lookup sn (if leb sn h then m else put_some sn o m) ≡ some a
  put_above h sn o a m has above =
      let high : leb sn h ≡ false = ground arith in rw (high, has, lookup-insert_self sn a m)

  if_All_keyed :
      (P : ℕ → A → Type 0) (b : Bool) (sn : ℕ) (o : Option A) (m : Map ℕ A)
      → Held P sn o
      → All (λ p. P p.0 p.1) m
      → All (λ p. P p.0 p.1) (if b then m else put_some sn o m)
  if_All_keyed P true sn o m h k = k
  if_All_keyed P false sn none m h k = k
  if_All_keyed P false sn (some a) m h k = All-insert P sn a m h k

module _ {ℓ} {A : Type ℓ} (field : MsgCert → Option A) (h : ℕ) where
  -- What was found stays, maybe replaced.
  collect-keeps :
      (sn : ℕ) (certs : Map MsgId MsgCert) (a : A) (found : Map ℕ A)
      → lookup sn found ≡ some a
      → (a' : A) × (lookup sn (collect field h certs found) ≡ some a')
  unfolding collect
  collect-keeps sn [] a found f = (a, f)
  collect-keeps sn ((id, c) ∷ rest) a found f =
      let (a', f') = if_found (leb id.sn h) sn id.sn a (field c) found f in
      collect-keeps sn rest a' _ f'

  -- What a certificate above `h` has is found.
  pub collect-found :
      (certs : Map MsgId MsgCert) (id : MsgId) (c : MsgCert) (a : A) (found : Map ℕ A)
      → lookup id certs ≡ some c
      → field c ≡ some a
      → h < id.sn
      → (a' : A) × (lookup id.sn (collect field h certs found) ≡ some a')
  unfolding collect lookup
  collect-found [] id c a found here has above = absurd cc
  collect-found ((i, d) ∷ rest) id c a found here has above =
      elim (entry_cases (id_key.same i id) c d (lookup id rest) here) [
        | inl (same, is_c) ↦ collect-keeps id.sn rest a _ (
            subst
              (λ j.
                lookup id.sn (if leb j.sn h then found else put_some j.sn (field d) found) ≡ some a)
              (sym ((id_key.same_iff i id).0 same))
              (put_above h id.sn (field d) a found (ap field is_c ∙ has) above))
        | inr later ↦ collect-found rest id c a _ later has above
      ]

  -- A property of the certificates that is one of what is found.
  pub collect-All :
      (P : ℕ → A → Type 0) (certs : Map MsgId MsgCert) (found : Map ℕ A)
      → All (λ p. Held P p.0.sn (field p.1)) certs
      → All (λ p. P p.0 p.1) found
      → All (λ p. P p.0 p.1) (collect field h certs found)
  unfolding collect
  collect-All P [] found all k = k
  collect-All P ((id, c) ∷ rest) found all k =
      collect-All P rest _ all.1 (if_All_keyed P (leb id.sn h) id.sn (field c) found all.0 k)

stored_entry {ℓ} :
    {A : Type ℓ} (field : MsgCert → Option A) (o : Option MsgCert) (a : A)
    → field empty_cert ≡ none
    → field (elim o as (λ _. MsgCert) [ none ↦ empty_cert | some c ↦ c ]) ≡ some a
    → (c : MsgCert) × (o ≡ some c) × (field c ≡ some a)
stored_entry field none a blank has = absurd cc
stored_entry field (some c) a blank has = (c, refl, has)

-- A certificate that shows something is stored.
pub cert_of-stored {ℓ} :
    {A : Type ℓ} (field : MsgCert → Option A) (n : Node) (id : MsgId) (a : A)
    → field empty_cert ≡ none
    → field (cert_of n id) ≡ some a
    → (c : MsgCert) × (lookup id n.req_cert_store ≡ some c) × (field c ≡ some a)
cert_of-stored field n id a blank has = stored_entry field (lookup id n.req_cert_store) a blank has

Held-here :
    {A : Type 0} (P : ℕ → A → Type 0) (sn : ℕ) (o : Option A)
    → ((a : A) → o ≡ some a → P sn a)
    → Held P sn o
Held-here P sn none h = tt
Held-here P sn (some a) h = h a refl

module _ {A : Type 0} (field : MsgCert → Option A) (h : ℕ) (certs : Map MsgId MsgCert) where
  -- A stored certificate for the number has the value.
  abbrev IsStored : ℕ → A → Type 0
  IsStored sn a = (x : MsgId × MsgCert) × Memᴰ x certs × (x.0.sn ≡ sn) × (field x.1 ≡ some a)

  -- Nothing else is found.
  collect-from : (sn : ℕ) (a : A) → lookup sn (collect field h certs []) ≡ some a → IsStored sn a
  collect-from sn a found = All-lookup IsStored sn a (collect field h certs []) found (
      collect-All field h IsStored certs []
        (Memᴰ-All _ certs
          λ x here. Held-here IsStored x.0.sn (field x.1) (λ b has. (x, here, refl, has)))
        tt)

  -- What the only certificate for a number has is found.
  collect-only :
      (sn : ℕ) (c : MsgCert) (a : A)
      → field c ≡ some a
      → ((x : MsgId × MsgCert) → Memᴰ x certs → x.0.sn ≡ sn → x.1 ≡ c)
      → (a' : A) × (lookup sn (collect field h certs []) ≡ some a')
      → lookup sn (collect field h certs []) ≡ some a
  collect-only sn c a has only (a', found) =
      let (x, here, at, value) = collect-from sn a' found in
      found ∙ sym value ∙ ap field (only x here at) ∙ has

-- A request that a node has prepared, with its proposal, is in the view-change message of the node, if it lies
-- above the low watermark and the node stores no certificate of another view for its number: under its number the
-- message has the proposal and the prepare certificate that the node holds of it.
pub view_change_msg-carries :
    (e : Env) (n : Node) (id : MsgId) (p : PrePrepareMsg) (q : PrepareQc)
    → (cert_of n id).pre_prepare_store ≡ some p
    → (cert_of n id).prepare_qc ≡ some q
    → n.h < id.sn
    → ((x : MsgId × MsgCert) → Memᴰ x n.req_cert_store → x.0.sn ≡ id.sn → x.1 ≡ cert_of n id)
    → (lookup id.sn (view_change_msg e n).pset ≡ some p)
      × (lookup id.sn (view_change_msg e n).qset ≡ some q)
unfolding view_change_msg
view_change_msg-carries e n id p q has_p has_q above only =
    let (c, at_id, is_p) = cert_of-stored (λ c. c.pre_prepare_store) n id p refl has_p in
    let (d, at_id', is_q) = cert_of-stored (λ c. c.prepare_qc) n id q refl has_q in
    rw (cal_pq_set-collect n.h n.req_cert_store [] []) (
      collect-only (λ c. c.pre_prepare_store) n.h n.req_cert_store id.sn (cert_of n id) p has_p only
          (collect-found (λ c. c.pre_prepare_store) n.h n.req_cert_store id c p [] at_id is_p
            above),
      collect-only (λ c. c.prepare_qc) n.h n.req_cert_store id.sn (cert_of n id) q has_q only
          (collect-found (λ c. c.prepare_qc) n.h n.req_cert_store id d q [] at_id' is_q above),
    )
