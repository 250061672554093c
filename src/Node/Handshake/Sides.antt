-- ===== src/Node/Handshake/Sides.antt =====
-- Both sides of crates/gpumesh-core/src/handshake.rs: what they accept, and what they disclose.
use gpu_share.Network.Channel.{recv-eq-some, send-eq-ok, send-eq-err, IsNext, recv-sent}
use mathlib.Core.Path.{subst}
use gpu_share.Security.Crypto.{node_id_from_public_hex, verify_signature}
use gpu_share.Security.Hello.{verify_hello}
use gpu_share.Security.Hello.Checks.{verify_hello_sound, in_window}
use gpu_share.Network.{send, Conn, recv}
use gpu_share.Node.Handshake.{
  perform_server_handshake, perform_client_handshake, server_answer, checked, client_answer,
}
use gpu_share.Node.{Env}
use gpu_share.Protocol.{error, hello, hello_ack, ProtocolHello, Message, check_compat}
use gpu_share.Base.{
  ◌∙◌, Option-cases, sym, none, ◌++◌, Bool-cases, true, Option, some, List, [], ◌∷◌, inl, inr, ◌≡◌,
  refl, ap, arith, ◌==◌, nat_eq, string_eq,
}
use gpu_share.Common.{
  and_then-eq-err, and_then, and_then-eq-ok, GpuMeshError, ok_inj, protocol_major, >>=-eq-ok, ok,
  err, Result,
}

-- A greeting of this protocol version, fresh, signed by its own key, of the node of that key.
pub record IsGenuine (env : Env) (peer : ProtocolHello) : Type 0 where
  pub version : peer.major ≡ protocol_major
  pub fresh : in_window env.now peer.issued_at ≡ true
  pub signed :
      verify_signature env.crypto peer.public_key_hex
        (env.hello_bytes (record peer { signature = "" }))
        peer.signature
      ≡ ok tt
  pub of_key : node_id_from_public_hex env.crypto peer.public_key_hex ≡ ok peer.node_id

check_compat-eq-ok :
    (peer : ProtocolHello) (u : Unit {0}) → check_compat peer ≡ ok u → peer.major ≡ protocol_major
unfolding check_compat
check_compat-eq-ok peer u h = elim (Bool-cases (peer.major == protocol_major)) [
  | inl y ↦ (nat_eq.beq_iff peer.major protocol_major).0 y
  | inr n ↦ absurd (ground (arith, rw (n, check_compat) at h))
]

checked-IsGenuine :
    (env : Env) (peer peer' : ProtocolHello)
    → checked env peer ≡ ok peer'
    → (peer ≡ peer') × IsGenuine env peer
unfolding checked
checked-IsGenuine env peer peer' h =
    let (u, e, h0) = >>=-eq-ok (check_compat peer) _ h in
    let (v, f, h1) = >>=-eq-ok (verify_hello env.crypto env.hello_bytes env.now peer) _ h0 in
    let (fresh, signed, of_key) = verify_hello_sound env.crypto env.hello_bytes env.now peer f in
    (
      ok_inj h1,
      record {
        version = check_compat-eq-ok peer u e;
        fresh = fresh;
        signed = signed;
        of_key = of_key;
      },
    )

client_answer-eq-ok :
    (env : Env) (m : Message) (ack : ProtocolHello)
    → client_answer env (some m) ≡ ok ack
    → (peer : ProtocolHello) × (m ≡ hello_ack peer) × (checked env peer ≡ ok ack)
unfolding client_answer
client_answer-eq-ok env (hello_ack peer) ack h = (peer, refl, h)
client_answer-eq-ok env (hello peer) ack h = cc
client_answer-eq-ok env (error text) ack h = cc
client_answer-eq-ok env other ack h = absurd (ground arith)

server_answer-eq-ok :
    (env : Env) (m : Message) (peer : ProtocolHello)
    → server_answer env (some m) ≡ ok peer
    → (p : ProtocolHello) × (m ≡ hello p) × (checked env p ≡ ok peer)
unfolding server_answer
server_answer-eq-ok env (hello p) peer h = (p, refl, h)
server_answer-eq-ok env (error text) peer h = absurd (ground arith)
server_answer-eq-ok env other peer h = absurd (ground arith)

-- A client that accepts has sent its own greeting and no more, and has read as the next message the
-- answer that it accepts, which is genuine.
pub perform_client_handshake_sound :
    (env : Env) (own ack : ProtocolHello) (conn conn' : Conn)
    → perform_client_handshake env own conn ≡ (conn', ok ack)
    → IsGenuine env ack
      × IsNext (hello_ack ack) conn.inbox conn'.inbox
      × (conn'.sent ≡ conn.sent ++ hello own ∷ [])
unfolding perform_client_handshake
perform_client_handshake_sound env own ack conn conn' h =
    let (c, u, e, k) =
      and_then-eq-ok (send (hello own) conn)
        (λ c _. and_then (recv c) λ d answer. (d, client_answer env answer)) conn' ack h in
    let (d, answer, f, l) =
      and_then-eq-ok (recv c) (λ d answer. (d, client_answer env answer)) conn' ack k in
    let after : c ≡ record conn { sent = conn.sent ++ hello own ∷ [] } =
      send-eq-ok (hello own) conn c u e in
    let same : d ≡ conn' = ap (λ (r : Conn × Result ProtocolHello). r.0) l in
    elim (Option-cases answer) [
      | inl q ↦ absurd (nothing answer q (ap (λ (r : Conn × Result ProtocolHello). r.1) l))
      | inr (m, q) ↦
          let got : client_answer env (some m) ≡ ok ack =
            ap (client_answer env) (sym q) ∙ ap (λ (r : Conn × Result ProtocolHello). r.1) l in
          let (peer, is, good) = client_answer-eq-ok env m ack got in
          let (eq, genuine) = checked-IsGenuine env peer ack good in
          let (next, kept) = recv-eq-some c d m (f ∙ ap (λ (o : Option Message). (d, ok o)) q) in
          (
            subst (IsGenuine env) eq genuine,
            ap (λ (x : Conn). x.inbox) (sym after)
                ∙ next
                ∙ ap (λ (x : Message). ok x ∷ d.inbox)
                    (is ∙ ap (λ (x : ProtocolHello). hello_ack x) eq)
                ∙ ap (λ (x : Conn). ok (hello_ack ack) ∷ x.inbox) same,
            ap (λ (x : Conn). x.sent) (sym same) ∙ kept ∙ ap (λ (x : Conn). x.sent) after,
          )
    ]
  where
    nothing : (o : Option Message) → o ≡ none → client_answer env o ≡ ok ack → ⊥
    nothing none e h = unfold client_answer in ground arith
    nothing (some m) e h = cc

-- A server that accepts has read as the next message the greeting that it accepts, which is genuine,
-- and has sent its own and no more.
pub perform_server_handshake_sound :
    (env : Env) (own peer : ProtocolHello) (conn conn' : Conn)
    → perform_server_handshake env own conn ≡ (conn', ok peer)
    → IsGenuine env peer
      × IsNext (hello peer) conn.inbox conn'.inbox
      × (conn'.sent ≡ conn.sent ++ hello_ack own ∷ [])
unfolding perform_server_handshake
perform_server_handshake_sound env own peer conn conn' h =
    let (c, first, e, k) =
      and_then-eq-ok (recv conn)
        (λ c first.
          and_then (c, server_answer env first)
            λ d p. and_then (send (hello_ack own) d) λ x _. (x, ok p))
        conn' peer h in
    let (d, p, f, l) =
      and_then-eq-ok (c, server_answer env first)
        (λ d p. and_then (send (hello_ack own) d) λ x _. (x, ok p)) conn' peer k in
    let (x, u, g, n) = and_then-eq-ok (send (hello_ack own) d) (λ x _. (x, ok p)) conn' peer l in
    let cd : c ≡ d = ap (λ (r : Conn × Result ProtocolHello). r.0) f in
    let same : x ≡ conn' = ap (λ (r : Conn × Result ProtocolHello). r.0) n in
    let pp : p ≡ peer = ok_inj (ap (λ (r : Conn × Result ProtocolHello). r.1) n) in
    let after : x ≡ record d { sent = d.sent ++ hello_ack own ∷ [] } =
      send-eq-ok (hello_ack own) d x u g in
    elim (Option-cases first) [
      | inl q ↦ absurd (nothing first q p (ap (λ (r : Conn × Result ProtocolHello). r.1) f))
      | inr (m, q) ↦
          let got : server_answer env (some m) ≡ ok p =
            ap (server_answer env) (sym q) ∙ ap (λ (r : Conn × Result ProtocolHello). r.1) f in
          let (sent_, is, good) = server_answer-eq-ok env m p got in
          let (eq, genuine) = checked-IsGenuine env sent_ p good in
          let (next, kept) = recv-eq-some conn c m (e ∙ ap (λ (o : Option Message). (c, ok o)) q) in
          (
            subst (IsGenuine env) (eq ∙ pp) genuine,
            next
                ∙ ap (λ (y : Message). ok y ∷ c.inbox)
                    (is ∙ ap (λ (y : ProtocolHello). hello y) (eq ∙ pp))
                ∙ ap (λ (y : Conn). ok (hello peer) ∷ y.inbox) cd
                ∙ ap (λ (y : Conn). ok (hello peer) ∷ y.inbox) (sym after)
                ∙ ap (λ (y : Conn). ok (hello peer) ∷ y.inbox) same,
            ap (λ (y : Conn). y.sent) (sym same)
                ∙ ap (λ (y : Conn). y.sent) after
                ∙ ap (λ (y : Conn). y.sent ++ hello_ack own ∷ []) (sym cd)
                ∙ ap (λ (s : List Message). s ++ hello_ack own ∷ []) kept,
          )
    ]
  where
    nothing : (o : Option Message) → o ≡ none → (p : ProtocolHello) → server_answer env o ≡ ok p → ⊥
    nothing none e p h = unfold server_answer in ground arith
    nothing (some m) e p h = cc

-- A server that refuses has sent nothing.
pub perform_server_handshake-sent :
    (env : Env) (own : ProtocolHello) (conn conn' : Conn) (e : GpuMeshError)
    → perform_server_handshake env own conn ≡ (conn', err e)
    → conn'.sent ≡ conn.sent
unfolding perform_server_handshake
perform_server_handshake-sent env own conn conn' e h =
    elim (and_then-eq-err (recv conn)
      (λ c first.
        and_then (c, server_answer env first)
          λ d p. and_then (send (hello_ack own) d) λ x _. (x, ok p))
      conn' e h) [
        | inl q ↦ recv-sent conn conn' (err e) q
        | inr (c, first, q, k) ↦
            elim (and_then-eq-err (c, server_answer env first)
              (λ d p. and_then (send (hello_ack own) d) λ x _. (x, ok p)) conn' e k) [
                | inl r ↦
                    ap (λ (x : Conn × Result ProtocolHello). x.0.sent) (sym r)
                    ∙ recv-sent conn c (ok first) q
                | inr (d, p, r, l) ↦
                    elim (and_then-eq-err (send (hello_ack own) d) (λ x _. (x, ok p)) conn' e l) [
                      | inl w ↦
                          send-eq-err (hello_ack own) d conn' e w
                          ∙ ap (λ (x : Conn × Result ProtocolHello). x.0.sent) (sym r)
                          ∙ recv-sent conn c (ok first) q
                      | inr (x, u, w, m) ↦
                          absurd (ground (arith, ap (λ (y : Conn × Result ProtocolHello). y.1) m))
                    ]
              ]
      ]
