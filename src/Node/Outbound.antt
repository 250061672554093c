-- ===== src/Node/Outbound.antt =====
-- `connect_peer` of crates/gpumesh-core/src/node.rs.
pub mod Connected
use gpu_share.Node.Inbound.{identified, try_save_peers}
use gpu_share.Node.Greeting.{make_hello}
use gpu_share.Node.Handshake.{perform_client_handshake}
use gpu_share.Security.Hello.{verify_hello}
use gpu_share.Protocol.{ProtocolHello}
use gpu_share.Storage.Peers.{lookup, update, PeerRecord}
use gpu_share.Network.{Conn}
use gpu_share.Node.{Env, MeshNode, Discovered}
use gpu_share.Base.{
  any, ℕ, zero, suc, String, Bool, true, false, Option, none, some, List, [], ◌∷◌, ◌++◌, inl, inr,
  ◌≡◌, ◌≢◌, refl, ap, sym, arith, if◌then◌else◌, ◌==◌, nat_eq, string_eq, ◌+◌, ◌-◌, ◌*◌, ◌≤◌, ◌<◌,
  min, max, ◌&&◌, ◌||◌, not, ◌&◌, ◌⊎◌, ◌↔◌, length,
}
use gpu_share.Common.{
  peer_not_found, bail_if, ok_or, and_then, network, ok, err, ◌>>=◌, ◌>>◌, Result,
}

-- The addresses that the local network shows for a peer, behind those of its record.
unfoldable pub merge_addrs : String → List Discovered → List String → List String
merge_addrs node_id [] addrs = addrs
merge_addrs node_id (d ∷ ds) addrs = merge_addrs node_id ds (
    if (d.node_id == node_id) && (not (d.addr == "") && not (any (λ a. a == d.addr) addrs))
    then addrs ++ d.addr ∷ []
    else addrs)

abbrev pub seen_peers : Option (List Discovered) → List Discovered
seen_peers none = []
seen_peers (some ds) = ds

abbrev pub has_endpoint : MeshNode → Result (Unit {0})
has_endpoint node = elim node.endpoint [
  | none ↦ err (network "network not started")
  | some e ↦ ok tt
]

-- The peer that answered is the one of the record.
unfoldable pub check_peer : Env → PeerRecord → ProtocolHello → Result (Unit {0})
check_peer env rec peer_hello = do
  verify_hello env.crypto env.hello_bytes env.now peer_hello
  bail_if (not (peer_hello.node_id == rec.node_id))
      (network ("peer identity mismatch: expected " & rec.node_id & " got " & peer_hello.node_id))
  bail_if (not (rec.public_key_hex == "") && not (peer_hello.public_key_hex == rec.public_key_hex))
      (network "peer public key does not match paired record")

unfoldable pub learn : Env → PeerRecord → ProtocolHello → MeshNode → MeshNode
learn env rec peer_hello node =
    elim (update rec.node_id
      (λ p. record p {
        last_seen = some env.now;
        gpu_model = peer_hello.gpu_model;
        vram_mb = peer_hello.vram_total_mb;
        public_key_hex = peer_hello.public_key_hex;
      })
      node.peers) [ none ↦ node | some peers ↦ record node { peers = peers } ]

-- `dial` is `dial_with_fallback` on the endpoint: addresses and the peer's identifier.
unfoldable pub connect_peer :
    Env → (List String → String → Result Conn) → String → MeshNode → MeshNode × Result Conn
unfolding learn check_peer
connect_peer env dial peer node =
    and_then (node, ok_or (lookup peer node.peers) (peer_not_found peer))
      λ s rec.
        and_then (s, has_endpoint s)
          λ s1 _.
            and_then (s1, dial (merge_addrs rec.node_id (seen_peers s1.lan) rec.addrs) rec.node_id)
              λ s2 conn.
                let (c, r) = perform_client_handshake env (make_hello env s2) conn in
                and_then (s2, r)
                  λ s3 peer_hello.
                    and_then (s3, check_peer env rec peer_hello)
                      λ s4 _. (
                        try_save_peers env (learn env rec peer_hello s4),
                        ok (identified peer_hello c),
                      )
