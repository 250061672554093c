-- ===== src/Node/Inbound.antt =====
-- `handle_inbound` of crates/gpumesh-core/src/node.rs, up to the session that it then serves.
pub mod Admitted
use gpu_share.Node.Greeting.{authorize_inbound, make_hello}
use gpu_share.Node.Handshake.{perform_server_handshake}
use gpu_share.Network.{close, Conn, send}
use gpu_share.Storage.Peers.{update}
use gpu_share.Protocol.{error, ProtocolHello}
use gpu_share.Node.{on_files, save_peers, MeshNode, Env}
use gpu_share.Base.{
  ℕ, zero, suc, String, Bool, true, false, Option, none, some, List, [], ◌∷◌, ◌++◌, inl, inr, ◌≡◌,
  ◌≢◌, refl, ap, sym, arith, if◌then◌else◌, ◌==◌, nat_eq, string_eq, ◌+◌, ◌-◌, ◌*◌, ◌≤◌, ◌<◌, min,
  max, ◌&&◌, ◌||◌, not, ◌&◌, ◌⊎◌, ◌↔◌, length,
}
use gpu_share.Common.{display, and_then, GpuMeshError, ok, err, ◌>>=◌, ◌>>◌, Result}

-- What the node knows better after an authorised greeting.
unfoldable pub refresh : Env → ProtocolHello → MeshNode → MeshNode
refresh env peer_hello node =
    elim (update peer_hello.node_id
      (λ p. record p { public_key_hex = peer_hello.public_key_hex; last_seen = some env.now })
      node.peers) [ none ↦ node | some peers ↦ record node { peers = peers } ]

-- A save whose failure is not looked at.
abbrev pub try_save_peers : Env → MeshNode → MeshNode
try_save_peers env node = (on_files (save_peers env node.peers) node).0

abbrev pub identified : ProtocolHello → Conn → Conn
identified peer_hello conn = record conn {
  peer_node_id = some peer_hello.node_id;
  peer_name = some peer_hello.node_name;
}

abbrev pub on_conn : {A : Type 0} → MeshNode → Conn × Result A → (MeshNode × Conn) × Result A
on_conn node (c, r) = ((node, c), r)

-- The refusal is sent before the connection is closed, and stays the answer.
abbrev pub refuse : GpuMeshError → MeshNode → Conn → (MeshNode × Conn) × Result (Unit {0})
refuse e node conn =
    and_then (on_conn node (send (error ("denied: " & display e)) conn))
      λ (n, c) _. ((n, close c), err e)

-- The answer `ok` is a session that is served on the connection.
unfoldable pub handle_inbound : Env → MeshNode → Conn → (MeshNode × Conn) × Result (Unit {0})
unfolding refresh save_peers send close display
handle_inbound env node conn =
    and_then (on_conn node (perform_server_handshake env (make_hello env node) conn))
      λ (n, c) peer_hello. elim (authorize_inbound env n peer_hello) [
        | err e ↦ refuse e n c
        | ok _ ↦ ((try_save_peers env (refresh env peer_hello n), identified peer_hello c), ok tt)
      ]
