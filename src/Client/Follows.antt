-- ===== src/Client/Follows.antt =====
-- What the client reads from the answer of a node.
use trebiz.Prelude.{
  ℕ, zero, suc, ◌+◌, ◌/◌, ◌%◌, ◌<◌, ◌≡◌, ◌∙◌, refl, ap, sym, subst, [], ◌∷◌, ◌++◌, some, Bool, true,
  false, ltb, ltb→lt, ◌==◌, length, drop, All, length-append, arith, if◌then◌else◌,
}
use mathlib.Core.List.{append_assoc}
use trebiz.Messages.{Bytes}
use trebiz.Text.{itoa, itoa_loop}
use trebiz.Node.Env.{Env, Settings}
use trebiz.Node.State.{World}
use trebiz.Node.Monad.{done, ◌>>=◌}
use trebiz.Config.{Config, new_settings, node_name}
use trebiz.Requests.{response_from, and_leader, receive_new_request}
use trebiz.Client.{Cmd, index_is, address_in, answered, send_request, target}

-- A text without an "i".
abbrev HasNoI : Bytes → Type 0
HasNoI = All λ c. (c == b'i') ≡ false

index_is-after :
    (xs rest : Bytes) → HasNoI xs → index_is (xs ++ b'i' ∷ b's' ∷ rest) ≡ some (length xs)
unfolding index_is
index_is-after [] rest h = refl
index_is-after (x ∷ []) rest h = rw (h.0) refl
index_is-after (x ∷ y ∷ xs) rest h = rw (h.0, index_is-after (y ∷ xs) rest h.1) refl

drop_past :
    (xs : Bytes) (a b c : ℕ) (rest : Bytes)
    → drop (suc (suc (suc (length xs)))) (xs ++ a ∷ b ∷ c ∷ rest) ≡ rest
drop_past [] a b c rest = refl
drop_past (x ∷ xs) a b c rest = drop_past xs a b c rest

three_more : (n : ℕ) → n + 3 ≡ suc (suc (suc n))
three_more n = omega arith

long_enough :
    (xs : Bytes) (a b c : ℕ) (rest : Bytes)
    → ltb (length (xs ++ a ∷ b ∷ c ∷ rest)) (suc (suc (suc (length xs)))) ≡ false
long_enough xs a b c rest = ground (arith, length-append xs (a ∷ b ∷ c ∷ rest))

if_text-HasNoI :
    (b : Bool) (x y : Bytes)
    → (b ≡ true → HasNoI x)
    → (b ≡ false → HasNoI y)
    → HasNoI (if b then x else y)
if_text-HasNoI true x y hx hy = hx refl
if_text-HasNoI false x y hx hy = hy refl

digit_is_no_i : (n : ℕ) → n < 10 → (n + 48 == b'i') ≡ false
digit_is_no_i n h = ground arith

itoa_loop-HasNoI : (fuel n : ℕ) (acc : Bytes) → HasNoI acc → HasNoI (itoa_loop fuel n acc)
unfolding itoa_loop
itoa_loop-HasNoI zero n acc h = h
itoa_loop-HasNoI (suc fuel) n acc h =
    if_text-HasNoI (ltb n 10) _ _ (λ small. (digit_is_no_i n (ltb→lt n 10 small), h))
      λ _. itoa_loop-HasNoI fuel (n / 10) _ (digit_is_no_i (n % 10) (omega arith), h)

append-HasNoI : (xs ys : Bytes) → HasNoI xs → HasNoI ys → HasNoI (xs ++ ys)
append-HasNoI [] ys hx hy = hy
append-HasNoI (x ∷ xs) ys hx hy = (hx.0, append-HasNoI xs ys hx.1 hy)

-- " and current leaderIp "
abbrev leader_ip : Bytes
leader_ip =
    32 ∷ 97 ∷ 110 ∷ 100 ∷ 32 ∷ 99 ∷ 117 ∷ 114 ∷ 114 ∷ 101 ∷ 110 ∷ 116 ∷ 32 ∷ 108 ∷ 101 ∷ 97 ∷ 100
    ∷ 101 ∷ 114 ∷ 73 ∷ 112 ∷ 32 ∷ []

-- The answer of a node up to the word "is".
abbrev before_is : ℕ → Bytes
before_is id = response_from ++ (node_name id ++ leader_ip)

before_is-HasNoI : (id : ℕ) → HasNoI (before_is id)
unfolding node_name itoa
before_is-HasNoI id =
    append-HasNoI response_from (node_name id ++ leader_ip)
      (
        refl,
        (
          refl,
          (
            refl,
            (
              refl,
              (refl, (refl, (refl, (refl, (refl, (refl, (refl, (refl, (refl, (refl, tt)))))))))),
            ),
          ),
        ),
      )
      (append-HasNoI (node_name id) leader_ip
        (refl, (refl, (refl, (refl, itoa_loop-HasNoI (suc id) id [] tt))))
        (
          refl,
          (
            refl,
            (
              refl,
              (
                refl,
                (
                  refl,
                  (
                    refl,
                    (
                      refl,
                      (
                        refl,
                        (
                          refl,
                          (
                            refl,
                            (
                              refl,
                              (
                                refl,
                                (
                                  refl,
                                  (
                                    refl,
                                    (
                                      refl,
                                      (refl, (refl, (refl, (refl, (refl, (refl, (refl, tt))))))),
                                    ),
                                  ),
                                ),
                              ),
                            ),
                          ),
                        ),
                      ),
                    ),
                  ),
                ),
              ),
            ),
          ),
        ))

answer_is :
    (id : ℕ) (leader : Bytes)
    → response_from ++ (node_name id ++ (and_leader ++ leader))
      ≡ before_is id ++ b'i' ∷ b's' ∷ 32 ∷ leader
answer_is id leader =
    ap (λ x. response_from ++ x)
      (sym (append_assoc (node_name id) leader_ip (b'i' ∷ b's' ∷ 32 ∷ leader)))

after_prefix :
    (xs leader : Bytes) → HasNoI xs → address_in (xs ++ b'i' ∷ b's' ∷ 32 ∷ leader) ≡ some leader
unfolding address_in
after_prefix xs leader h = rw (
  index_is-after xs (32 ∷ leader) h,
  three_more (length xs),
  long_enough xs b'i' b's' 32 leader,
  drop_past xs b'i' b's' 32 leader,
)

reply_text :
    (e : Env) (w after : World) (req reply : Bytes)
    → receive_new_request e req w ≡ done reply after
    → response_from ++ (e.node_name ++ (and_leader ++ w.node.leader)) ≡ reply
unfolding receive_new_request ◌>>=◌
reply_text e w after req reply h = cc

reply-address :
    (e : Env) (conf : Config) (w after : World) (req reply : Bytes)
    → e.settings ≡ new_settings conf
    → receive_new_request e req w ≡ done reply after
    → address_in reply ≡ some w.node.leader
unfolding new_settings
reply-address e conf w after req reply made answer =
    let leader = w.node.leader in
    let named : e.node_name ≡ node_name conf.replica_id = ap (λ (s : Settings). s.node_name) made in
    let text : before_is conf.replica_id ++ b'i' ∷ b's' ∷ 32 ∷ leader ≡ reply =
      sym (answer_is conf.replica_id leader)
      ∙ ap (λ n. response_from ++ (n ++ (and_leader ++ leader))) (sym named)
      ∙ reply_text e w after req reply answer in
    subst (λ r. address_in r ≡ some leader) text
      (after_prefix (before_is conf.replica_id) leader (before_is-HasNoI conf.replica_id))

-- A client that gets an answer from a node sends its next request to the leader that the node has noted: it reads
-- the address out of the answer. The node has the settings that `NewNode` makes.
pub send_request-follows :
    (e : Env) (conf : Config) (w after : World) (dials : Bytes → Bool) (cmd : Cmd) (reply : Bytes)
    → e.settings ≡ new_settings conf
    → receive_new_request e cmd.req_text w ≡ done reply after
    → dials (target dials (λ addr req. some reply) cmd) ≡ true
    → send_request dials (λ addr req. some reply) cmd
      ≡ answered (record cmd { rpc_address = w.node.leader })
unfolding send_request
send_request-follows e conf w after dials cmd reply made answer connected =
    rw (connected, reply-address e conf w after cmd.req_text reply made answer)
