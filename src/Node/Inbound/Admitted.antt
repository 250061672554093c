-- ===== src/Node/Inbound/Admitted.antt =====
-- Who `handle_inbound` of crates/gpumesh-core/src/node.rs serves, and what it learns.
use gpu_share.Security.Hello.{verify_hello}
use gpu_share.Network.Channel.{IsNext}
use gpu_share.Node.Handshake.Sides.{perform_server_handshake_sound}
use gpu_share.Storage.Peers.{update, Peers}
use gpu_share.Node.Handshake.{server_answer, checked, perform_server_handshake}
use gpu_share.Node.Greeting.{make_hello, authorize_inbound}
use gpu_share.Protocol.{hello_ack, Message, check_compat, hello, ProtocolHello}
use gpu_share.Node.Inbound.{identified, try_save_peers, on_conn, refuse, refresh, handle_inbound}
use gpu_share.Network.{recv, Conn, send}
use gpu_share.Node.{Saved, save_peers, Env, MeshNode}
use gpu_share.Base.{
  [], ◌++◌, List, ◌∙◌, false, Option, none, some, ◌∷◌, inl, inr, ◌≡◌, refl, ap, sym, arith, nat_eq,
  string_eq,
}
use gpu_share.Common.{
  and_then, >>=-eq-ok, and_then-eq-ok, protocol_major, Result-cases, is_ok, and_then-eq-err,
  GpuMeshError, ok, err, Result,
}

on_conn-eq :
    {A : Type 0} (node n : MeshNode) (r : Conn × Result A) (c : Conn) (a : Result A)
    → on_conn node r ≡ ((n, c), a)
    → (node ≡ n) × (r ≡ (c, a))
on_conn-eq node n (d, b) c a h = (
  ap (λ (x : (MeshNode × Conn) × Result _). x.0.0) h,
  ap (λ (x : (MeshNode × Conn) × Result _). (x.0.1, x.1)) h,
)

pub refuse-eq-err :
    (e : GpuMeshError) (node n : MeshNode) (conn c : Conn) (r : Result (Unit {0}))
    → refuse e node conn ≡ ((n, c), r)
    → (node ≡ n) × (is_ok r ≡ false)
unfolding send
refuse-eq-err e node n conn c r h = elim (Result-cases conn.link) [
  | inl (x, q) ↦
      let k = rw (q, send) at h in
      (
        ap (λ (y : (MeshNode × Conn) × Result (Unit {0})). y.0.0) k,
        ap is_ok (sym (ap (λ (y : (MeshNode × Conn) × Result (Unit {0})). y.1) k)),
      )
  | inr (v, q) ↦
      let k = rw (q, send) at h in
      (
        ap (λ (y : (MeshNode × Conn) × Result (Unit {0})). y.0.0) k,
        ap is_ok (sym (ap (λ (y : (MeshNode × Conn) × Result (Unit {0})). y.1) k)),
      )
]

-- Refreshing a peer and saving changes the peers and the files alone.
pub refresh-keeps :
    {A : Type 0} (field : MeshNode → A) (env : Env) (peer : ProtocolHello) (node : MeshNode)
    → ((n : MeshNode) (p : Peers) → field (record n { peers = p }) ≡ field n)
    → ((n : MeshNode) (s : Saved) → field (record n { saved = s }) ≡ field n)
    → field (try_save_peers env (refresh env peer node)) ≡ field node
unfolding refresh save_peers
refresh-keeps field env peer node keeps keeps' =
    keeps' (refresh env peer node) _ ∙ go (update peer.node_id _ node.peers) refl
  where
    go :
        (o : Option Peers)
        → update peer.node_id
            (λ p. record p { public_key_hex = peer.public_key_hex; last_seen = some env.now })
            node.peers
          ≡ o
        → field (refresh env peer node) ≡ field node
    go none e = rw (e, refresh) refl
    go (some ps) e = rw (e, refresh) (keeps node ps)

-- A connection that is not served leaves the node as it was.
pub handle_inbound-refused :
    (env : Env) (node node' : MeshNode) (conn conn' : Conn) (e : GpuMeshError)
    → handle_inbound env node conn ≡ ((node', conn'), err e)
    → node' ≡ node
unfolding handle_inbound
handle_inbound-refused env node node' conn conn' e h =
    elim (and_then-eq-err (on_conn node (perform_server_handshake env (make_hello env node) conn)) _
      (node', conn') e h) [
        | inl q ↦ sym (on_conn-eq node node' _ conn' (err e) q).0
        | inr ((n, c), peer, q, k) ↦
            let same : node ≡ n = (on_conn-eq node n _ c (ok peer) q).0 in
            elim (Result-cases (authorize_inbound env n peer)) [
              | inl (x, a) ↦ sym (same ∙ (refuse-eq-err x n node' c conn' (err e) (rw a at k)).0)
              | inr (u, a) ↦ absurd (
                  ground
                    (arith, ap (λ (y : (MeshNode × Conn) × Result (Unit {0})). y.1) (rw a at k)))
            ]
      ]

-- A connection that is served has given as its next message a genuine greeting that the node lets
-- through; it bears the name of the node of that greeting, and neither the identity, the
-- configuration nor the grants have changed.
pub handle_inbound_sound :
    (env : Env) (node node' : MeshNode) (conn conn' : Conn)
    → handle_inbound env node conn ≡ ((node', conn'), ok tt)
    → (peer : ProtocolHello) × (authorize_inbound env node peer ≡ ok tt)
      × (peer.major ≡ protocol_major)
      × IsNext (hello peer) conn.inbox conn'.inbox
      × (conn'.peer_node_id ≡ some peer.node_id)
      × (node'.allowlist ≡ node.allowlist)
      × (node'.config ≡ node.config)
      × (node'.identity ≡ node.identity)
unfolding handle_inbound
handle_inbound_sound env node node' conn conn' h =
    let ((n, c), peer, q, k) =
      and_then-eq-ok (on_conn node (perform_server_handshake env (make_hello env node) conn)) _
        (node', conn') tt h in
    let (same, shaken) = on_conn-eq node n _ c (ok peer) q in
    let (genuine, next, sent_) =
      perform_server_handshake_sound env (make_hello env node) peer conn c shaken in
    elim (Result-cases (authorize_inbound env n peer)) [
      | inl (x, a) ↦ absurd (ground (arith, refuse-eq-err x n node' c conn' (ok tt) (rw a at k)))
      | inr (u, a) ↦
          let done = rw a at k in
          let cc' : identified peer c ≡ conn' =
            ap (λ (y : (MeshNode × Conn) × Result (Unit {0})). y.0.1) done in
          let nn : try_save_peers env (refresh env peer n) ≡ node' =
            ap (λ (y : (MeshNode × Conn) × Result (Unit {0})). y.0.0) done in
          (
            peer,
            ap (λ (x : MeshNode). authorize_inbound env x peer) same ∙ a,
            genuine.version,
            next ∙ ap (λ (x : Conn). ok (hello peer) ∷ x.inbox) cc',
            ap (λ (x : Conn). x.peer_node_id) (sym cc'),
            ap (λ (x : MeshNode). x.allowlist) (sym nn)
                ∙ refresh-keeps (λ x. x.allowlist) env peer n (λ x p. refl) (λ x s. refl)
                ∙ ap (λ (x : MeshNode). x.allowlist) (sym same),
            ap (λ (x : MeshNode). x.config) (sym nn)
                ∙ refresh-keeps (λ x. x.config) env peer n (λ x p. refl) (λ x s. refl)
                ∙ ap (λ (x : MeshNode). x.config) (sym same),
            ap (λ (x : MeshNode). x.identity) (sym nn)
                ∙ refresh-keeps (λ x. x.identity) env peer n (λ x p. refl) (λ x s. refl)
                ∙ ap (λ (x : MeshNode). x.identity) (sym same),
          )
    ]

checked-authorized :
    (env : Env) (node : MeshNode) (peer : ProtocolHello)
    → peer.major ≡ protocol_major
    → authorize_inbound env node peer ≡ ok tt
    → checked env peer ≡ ok peer
unfolding checked check_compat authorize_inbound
checked-authorized env node peer major a =
    let (u, e, k) = >>=-eq-ok (verify_hello env.crypto env.hello_bytes env.now peer) _ a in
    ground (arith, e, major)

perform_server_handshake_lem :
    (env : Env) (own : ProtocolHello) (conn : Conn) (peer : ProtocolHello)
    (rest : List (Result Message))
    → conn.inbox ≡ ok (hello peer) ∷ rest
    → conn.link ≡ ok tt
    → checked env peer ≡ ok peer
    → perform_server_handshake env own conn
      ≡ (record conn { inbox = rest; sent = conn.sent ++ hello_ack own ∷ [] }, ok peer)
unfolding perform_server_handshake recv send server_answer
perform_server_handshake_lem env own conn peer rest first link good =
    rw (first, good, link, perform_server_handshake, recv, send, server_answer)
      (ap
        (λ (l : Result (Unit {0})).
          (record conn { inbox = rest; sent = conn.sent ++ hello_ack own ∷ []; link = l }, ok peer))
        link)

-- Whoever sends an authorised greeting of this protocol version as the first message, over a link
-- that takes an answer, is served and taken for the node of the greeting, also where that greeting
-- was made for another connection.
pub handle_inbound_complete :
    (env : Env) (node : MeshNode) (conn : Conn) (peer : ProtocolHello)
    (rest : List (Result Message))
    → conn.inbox ≡ ok (hello peer) ∷ rest
    → conn.link ≡ ok tt
    → peer.major ≡ protocol_major
    → authorize_inbound env node peer ≡ ok tt
    → ((handle_inbound env node conn).1 ≡ ok tt)
      × ((handle_inbound env node conn).0.1.peer_node_id ≡ some peer.node_id)
unfolding handle_inbound
handle_inbound_complete env node conn peer rest first link major a =
    let own : ProtocolHello = make_hello env node in
    let after : Conn = record conn { inbox = rest; sent = conn.sent ++ hello_ack own ∷ [] } in
    let shaken : perform_server_handshake env own conn ≡ (after, ok peer) =
      perform_server_handshake_lem env own conn peer rest first link
        (checked-authorized env node peer major a) in
    let whole : handle_inbound env node conn
        ≡ ((try_save_peers env (refresh env peer node), identified peer after), ok tt) =
      ap
        (λ (r : Conn × Result ProtocolHello). and_then (on_conn node r) λ (n, c) p.
          elim (authorize_inbound env n p) [
            | err e ↦ refuse e n c
            | ok _ ↦ ((try_save_peers env (refresh env p n), identified p c), ok tt)
          ])
        shaken
      ∙ served (authorize_inbound env node peer) a after in
    (
      ap (λ (r : (MeshNode × Conn) × Result (Unit {0})). r.1) whole,
      ap (λ (r : (MeshNode × Conn) × Result (Unit {0})). r.0.1.peer_node_id) whole,
    )
  where
    served :
        (r : Result (Unit {0}))
        → r ≡ ok tt
        → (c : Conn)
        → (elim r as (λ _. (MeshNode × Conn) × Result (Unit {0})) [
          | err e ↦ refuse e node c
          | ok _ ↦ ((try_save_peers env (refresh env peer node), identified peer c), ok tt)
        ])
          ≡ ((try_save_peers env (refresh env peer node), identified peer c), ok tt)
    served (err e) q c = cc
    served (ok u) q c = refl
