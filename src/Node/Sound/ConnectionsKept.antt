-- ===== src/Node/Sound/ConnectionsKept.antt =====
-- Connections in both directions keep a node of crates/gpumesh-core/src/node.rs sound.
use gpu_share.Node.Inbound.Admitted.{refuse-eq-err}
use gpu_share.Node.Handshake.{perform_server_handshake, perform_client_handshake}
use mathlib.Core.Path.{subst}
use gpu_share.Storage.Peers.Removal.{update-AreKeyed}
use gpu_share.Node.Greeting.{make_hello, authorize_inbound}
use gpu_share.Protocol.{ProtocolHello}
use gpu_share.Node.Sound.{save_peers-identity, on_files-IsSound, and_then-IsSound, IsSound}
use gpu_share.Network.{Conn}
use gpu_share.Storage.Peers.{lookup, Peers, update, PeerRecord}
use gpu_share.Node.Inbound.{on_conn, identified, refuse, try_save_peers, refresh, handle_inbound}
use gpu_share.Node.Outbound.{check_peer, seen_peers, merge_addrs, has_endpoint, learn, connect_peer}
use gpu_share.Node.{save_peers, MeshNode, Env}
use gpu_share.Base.{String, Option, none, some, List, ◌≡◌, refl, nat_eq, string_eq}
use gpu_share.Common.{and_then, peer_not_found, ok_or, ok, err, Result}

changed-IsSound :
    (env : Env) (key : String) (change : PeerRecord → PeerRecord) (node node' : MeshNode)
    → ((p : PeerRecord) → (change p).node_id ≡ p.node_id)
    → (elim (update key change node.peers) as (λ _. MeshNode) [
      | none ↦ node
      | some peers ↦ record node { peers = peers }
    ])
      ≡ node'
    → IsSound node
    → IsSound (try_save_peers env node')
changed-IsSound env key change node node' keeps e w =
    on_files-IsSound (save_peers env node'.peers) node' (save_peers-identity env node'.peers)
      (subst IsSound e (go (update key change node.peers) refl))
  where
    go :
        (o : Option Peers)
        → update key change node.peers ≡ o
        → IsSound
            (elim o as (λ _. MeshNode) [ none ↦ node | some peers ↦ record node { peers = peers } ])
    go none q = w
    go (some peers) q = record {
      clock = w.clock;
      desktop = w.desktop;
      cuda = w.cuda;
      keyed = update-AreKeyed key change node.peers peers keeps w.keyed q;
      own = w.own;
    }

pub handle_inbound-IsSound :
    (env : Env) (node : MeshNode) (conn : Conn)
    → IsSound node
    → IsSound (handle_inbound env node conn).0.0
unfolding handle_inbound refresh
handle_inbound-IsSound env node conn w =
    go (perform_server_handshake env (make_hello env node) conn)
  where
    next : MeshNode × Conn → ProtocolHello → (MeshNode × Conn) × Result (Unit {0})
    next (n, c) peer = elim (authorize_inbound env n peer) [
      | err e ↦ refuse e n c
      | ok _ ↦ ((try_save_peers env (refresh env peer n), identified peer c), ok tt)
    ]

    settled :
        (r : Result (Unit {0})) (c : Conn) (peer : ProtocolHello)
        → IsSound
            (elim r as (λ _. (MeshNode × Conn) × Result (Unit {0})) [
              | err e ↦ refuse e node c
              | ok _ ↦ ((try_save_peers env (refresh env peer node), identified peer c), ok tt)
            ]).0.0
    settled (err e) c peer = subst IsSound (refuse-eq-err e node _ c _ _ refl).0 w
    settled (ok u) c peer = changed-IsSound env peer.node_id _ node _ (λ p. refl) refl w

    go : (r : Conn × Result ProtocolHello) → IsSound (and_then (on_conn node r) next).0.0
    go (c, err e) = w
    go (c, ok peer) = settled (authorize_inbound env node peer) c peer

pub connect_peer-IsSound :
    (env : Env) (dial : List String → String → Result Conn) (peer : String) (node : MeshNode)
    → IsSound node
    → IsSound (connect_peer env dial peer node).0
unfolding connect_peer learn
connect_peer-IsSound env dial peer node w =
    and_then-IsSound (node, ok_or (lookup peer node.peers) (peer_not_found peer)) _ w
      λ s rec q v.
        and_then-IsSound (s, has_endpoint s) _ v
          λ s1 u q1 v1.
            and_then-IsSound
              (s1, dial (merge_addrs rec.node_id (seen_peers s1.lan) rec.addrs) rec.node_id) _ v1
              λ s2 c q2 v2.
                and_then-IsSound (s2, (perform_client_handshake env (make_hello env s2) c).1) _ v2
                  λ s3 ack q3 v3.
                    and_then-IsSound (s3, check_peer env rec ack) _ v3
                      λ s4 u4 q4 v4. changed-IsSound env rec.node_id _ s4 _ (λ p. refl) refl v4
