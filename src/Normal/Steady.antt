-- ===== src/Normal/Steady.antt =====
-- What the body of the execution loop leaves alone: the buffer of requests, and the fuel.
use trebiz.Prelude.{
  ℕ, suc, nat_key, ◌≡◌, ◌∙◌, refl, [], ◌∷◌, Option, none, some, Bool, true, false, Map, has,
  if◌then◌else◌, leb,
}
use trebiz.Messages.{Bytes, MsgId, Message, MsgType, PrePrepareMsg}
use trebiz.Node.Env.{Env}
use trebiz.Node.State.{Node, Effect, World}
use trebiz.Node.Monad.{
  M, and_then, Outcome, done, halted, Stop, panicked, blocked, starved, ErrChan, nil_chan, err_chan,
  ◌>>=◌, pure, skip, halt, read_node, modify, emit, ask, deref, send_err, after,
}
use trebiz.Node.Cert.{get_cert}
use trebiz.Node.Send.{report, send_each, keeps_silent, broadcast_encoded, broadcast}
use trebiz.Node.Timers.{start_timer, stop_timer}
use trebiz.ViewChange.Send.{send_view_change}
use trebiz.Normal.Execute.{
  check_if_create_chkpt, note_execution, after_execution, execute_cert, execute_next,
}

abbrev pub is_starved {ℓ} : {A : Type ℓ} → Outcome A → Bool
is_starved (done a w) = false
is_starved (halted panicked w) = false
is_starved (halted blocked w) = false
is_starved (halted starved w) = true

-- A handler that does not run out of fuel and leaves the buffer as it is.
pub record IsSteady {ℓ} {A : Type ℓ} (w : World) (r : Outcome A) : Type ℓ where
  pub fed : is_starved r ≡ false
  pub same : (after r).node.exec_req_buffer ≡ w.node.exec_req_buffer

pub record Steady {ℓ} {A : Type ℓ} (m : M A) : Type ℓ where
  pub at : (w : World) → IsSteady w (m w)

Steady-skip : Steady skip
unfolding skip
Steady-skip = record { at = λ w. record { fed = refl; same = refl } }

Steady-read_node : Steady read_node
unfolding read_node
Steady-read_node = record { at = λ w. record { fed = refl; same = refl } }

full :
    (b : Bool) (w : World)
    → IsSteady {A = Unit {0}} w
        (if b then halted Stop.blocked w else done tt (record w { errs = suc w.errs }))
full true w = record { fed = refl; same = refl }
full false w = record { fed = refl; same = refl }

Steady-send_err : (err : ErrChan) → Steady (send_err err)
unfolding send_err
Steady-send_err nil_chan = record { at = λ w. record { fed = refl; same = refl } }
Steady-send_err err_chan = record { at = λ w. full (leb 1 w.errs) w }

Steady-modify :
    (f : Node → Node) → ((n : Node) → (f n).exec_req_buffer ≡ n.exec_req_buffer) → Steady (modify f)
unfolding modify
Steady-modify f h = record { at = λ w. record { fed = refl; same = h w.node } }

Steady-emit : (x : Effect) → Steady (emit x)
unfolding emit
Steady-emit x = record { at = λ w. record { fed = refl; same = refl } }

module _ {ℓ} {A : Type ℓ} where
  Steady-pure : (a : A) → Steady (pure a)
  unfolding pure
  Steady-pure a = record { at = λ w. record { fed = refl; same = refl } }

  Steady-panic : Steady (halt {A = A} Stop.panicked)
  unfolding halt
  Steady-panic = record { at = λ w. record { fed = refl; same = refl } }

  Steady-ask : (q : ℕ → A) → Steady (ask q)
  unfolding ask
  Steady-ask q = record { at = λ w. record { fed = refl; same = refl } }

  Steady-deref : (o : Option A) → Steady (deref o)
  unfolding deref
  Steady-deref none = record { at = λ w. record { fed = refl; same = refl } }
  Steady-deref (some a) = record { at = λ w. record { fed = refl; same = refl } }

  Steady-if : (b : Bool) (m n : M A) → Steady m → Steady n → Steady (if b then m else n)
  Steady-if true m n h k = h
  Steady-if false m n h k = k

module _ {ℓ κ} {A : Type ℓ} {B : Type κ} where
  and_then-IsSteady :
      (w : World) (r : Outcome A) (f : A → M B)
      → ((a : A) → Steady (f a))
      → IsSteady w r
      → IsSteady w (and_then r f)
  and_then-IsSteady w (done a v) f k h =
      let after_f = (k a).at v in record { fed = after_f.fed; same = after_f.same ∙ h.same }
  and_then-IsSteady w (halted panicked v) f k h = record { fed = refl; same = h.same }
  and_then-IsSteady w (halted blocked v) f k h = record { fed = refl; same = h.same }
  and_then-IsSteady w (halted starved v) f k h = record { fed = h.fed; same = h.same }

  Steady-bind : (m : M A) (f : A → M B) → Steady m → ((a : A) → Steady (f a)) → Steady (m >>= f)
  unfolding ◌>>=◌
  Steady-bind m f h k = record { at = λ w. and_then-IsSteady w (m w) f k (h.at w) }

ruleset steady_rules = (
  Steady-skip, Steady-read_node, Steady-send_err, Steady-emit, Steady-pure, Steady-panic,
  Steady-ask, Steady-deref, Steady-if, Steady-bind,
)

Steady-report : (failed : Bool) (err : ErrChan) → Steady (report failed err)
Steady-report true err = Steady-send_err err
Steady-report false err = Steady-skip

Steady-stop_timer : Steady stop_timer
unfolding stop_timer
Steady-stop_timer = Steady-bind _ _ (Steady-modify _ (λ n. refl)) (λ _. Steady-emit _)

Steady-start_timer : (t : ℕ) → Steady (start_timer t)
unfolding start_timer
Steady-start_timer t = Steady-bind _ _ (Steady-modify _ (λ n. refl)) (λ _. Steady-emit _)

Steady-get_cert : (id : MsgId) → Steady (get_cert id)
unfolding get_cert
Steady-get_cert id =
    Steady-bind _ _ Steady-read_node
      λ n. Steady-bind _ _ (Steady-modify _ (λ n. refl)) (λ _. Steady-pure _)

module _ (e : Env) where
  Steady-send_each :
      (addrs : Map ℕ Bytes) (exc : Map ℕ Bool) (ty : MsgType) (msg : Message) (sig : Bytes)
      → Steady (send_each e addrs exc ty msg sig)
  unfolding send_each
  Steady-send_each [] exc ty msg sig = Steady-skip
  Steady-send_each ((i, addr) ∷ rest) exc ty msg sig =
      Steady-bind _ _ (Steady-if (has i exc) _ _ Steady-skip (Steady-emit _))
        (λ _. Steady-send_each rest exc ty msg sig)

  Steady-keeps_silent : Steady (keeps_silent e)
  unfolding keeps_silent
  Steady-keeps_silent = search steady_rules

  Steady-broadcast_encoded :
      (b : Option Bytes) (exc : Map ℕ Bool) (ty : MsgType) (msg : Message)
      → Steady (broadcast_encoded e b exc ty msg)
  unfolding broadcast_encoded
  Steady-broadcast_encoded none exc ty msg = Steady-pure true
  Steady-broadcast_encoded (some b) exc ty msg = search (steady_rules, Steady-send_each)

  Steady-broadcast :
      (ty : MsgType) (msg : Message) (exc : Map ℕ Bool) → Steady (broadcast e ty msg exc)
  unfolding broadcast
  Steady-broadcast ty msg exc = search (steady_rules, Steady-keeps_silent, Steady-broadcast_encoded)

  Steady-send_view_change : (err : ErrChan) → Steady (send_view_change e err)
  unfolding send_view_change
  Steady-send_view_change err = Steady-bind _ _ Steady-stop_timer λ _.
      Steady-bind _ _ (Steady-modify _ (λ n. refl)) λ _. Steady-bind _ _ Steady-read_node λ n.
        Steady-bind _ _ (Steady-modify _ (λ n. refl)) λ _.
          Steady-bind _ _ (Steady-broadcast _ _ _) λ failed.
            Steady-bind _ _ (Steady-report failed err)
              λ _. Steady-bind _ _ (Steady-start_timer _) λ _. Steady-modify _ (λ n. refl)

  Steady-check_if_create_chkpt : (sn : ℕ) → Steady (check_if_create_chkpt e sn)
  unfolding check_if_create_chkpt
  Steady-check_if_create_chkpt sn = search steady_rules

  Steady-note_execution : (id : MsgId) → Steady (note_execution e id)
  unfolding note_execution
  Steady-note_execution id = Steady-bind _ _ (Steady-modify _ (λ n. refl)) λ _. search steady_rules

  Steady-after_execution : (err : ErrChan) → Steady (after_execution e err)
  unfolding after_execution
  Steady-after_execution err =
      search (steady_rules, Steady-check_if_create_chkpt, Steady-send_view_change)

  Steady-execute_cert :
      (o : Option PrePrepareMsg) (id : MsgId) (err : ErrChan) → Steady (execute_cert e o id err)
  unfolding execute_cert
  Steady-execute_cert o id err =
      search (steady_rules, Steady-note_execution, Steady-after_execution)

  -- A round of the loop.
  pub Steady-execute_next : (i : ℕ) (err : ErrChan) → Steady (execute_next e i err)
  unfolding execute_next
  Steady-execute_next i err = search (steady_rules, Steady-get_cert, Steady-execute_cert)
