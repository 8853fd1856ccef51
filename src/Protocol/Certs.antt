-- ===== src/Protocol/Certs.antt =====
-- The certificate store under the steps of the protocol: reading and changing a certificate.
use trebiz.Prelude.{
  ◌≡◌, refl, subst, Option, none, some, Map, lookup, get, lookup-insert_self, arith,
}
use trebiz.Messages.{MsgId, id_key}
use trebiz.Node.Env.{Env}
use trebiz.Node.State.{MsgCert, empty_cert, World}
use trebiz.Node.Monad.{M, ◌>>=◌, after}
use trebiz.Node.Cert.{get_cert, modify_cert, put_cert, cert_of}
use trebiz.Protocol.Spec.{Core, core, IsClosed, opens, changes, CertStep}
use trebiz.Protocol.Keeps.{Keeps, KeepsAt}

-- The world after `getCert`.
abbrev pub opened : MsgId → World → World
opened id w = record w {
  node = record w.node {
    req_cert_store = put_cert id (lookup id w.node.req_cert_store) w.node.req_cert_store;
  };
}

get-put_cert :
    (certs : Map MsgId MsgCert) (id : MsgId) (o : Option MsgCert)
    → lookup id certs ≡ o
    → get id empty_cert (put_cert id o certs) ≡ get id empty_cert certs
get-put_cert certs id none h = ground (arith, h, lookup-insert_self id empty_cert certs)
get-put_cert certs id (some c) h = refl

pub cert_of-opened : (w : World) (id : MsgId) → cert_of (opened id w).node id ≡ cert_of w.node id
cert_of-opened w id = get-put_cert w.node.req_cert_store id (lookup id w.node.req_cert_store) refl

module _ (e : Env) {Q : Core → Type 0} (closed : IsClosed e Q) where
  put_cert-step :
      (s : Core) (id : MsgId) (o : Option MsgCert)
      → lookup id s.certs ≡ o
      → Q s
      → Q (record s { certs = put_cert id o s.certs })
  put_cert-step s id none h q = closed.at (opens s id h) q
  put_cert-step s id (some c) h q = q

  pub opened-step : (w : World) (id : MsgId) → Q (core w) → Q (core (opened id w))
  opened-step w id q = put_cert-step (core w) id (lookup id w.node.req_cert_store) refl q

  -- A handler that reads a certificate goes on with the certificate that the node has.
  pub Keeps-get_cert {ℓ} :
      {B : Type ℓ} (id : MsgId) (f : MsgCert → M B)
      → ((w : World) → Q (core w) → Q (core (after (f (cert_of w.node id) w))))
      → Keeps Q (get_cert id >>= f)
  unfolding get_cert ◌>>=◌
  Keeps-get_cert id f h = record {
    at = λ w q.
        subst (λ c. Q (core (after (f c (opened id w))))) (cert_of-opened w id)
          (h (opened id w) (opened-step w id q));
  }

  pub modify_cert-step :
      (w : World) (id : MsgId) (f : MsgCert → MsgCert)
      → CertStep e (core w) id (cert_of w.node id) (f (cert_of w.node id))
      → Q (core w)
      → Q (core (after (modify_cert id f w)))
  unfolding modify_cert ◌>>=◌
  modify_cert-step w id f c q = closed.at (changes (core w) id _ c) q

  pub Keeps-get_cert_only : (id : MsgId) → Keeps Q (get_cert id)
  unfolding get_cert ◌>>=◌
  Keeps-get_cert_only id = record { at = λ w q. opened-step w id q }

  -- A change that is a step at any certificate.
  pub Keeps-modify_cert :
      (id : MsgId) (f : MsgCert → MsgCert)
      → ((s : Core) (c : MsgCert) → CertStep e s id c (f c))
      → Keeps Q (modify_cert id f)
  Keeps-modify_cert id f h = record {
    at = λ w q. modify_cert-step w id f (h (core w) (cert_of w.node id)) q;
  }

  pub KeepsAt-get_cert {ℓ} :
      {B : Type ℓ} {w : World} (id : MsgId) (f : MsgCert → M B)
      → KeepsAt Q (opened id w) (f (cert_of w.node id))
      → KeepsAt Q w (get_cert id >>= f)
  unfolding get_cert ◌>>=◌
  KeepsAt-get_cert {w} id f k = record { holds = λ q. k.holds (opened-step w id q) }
