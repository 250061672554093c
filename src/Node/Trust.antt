-- ===== src/Node/Trust.antt =====
-- The operations of `MeshNode` in crates/gpumesh-core/src/node.rs on trust: pairing, and allowing
-- and denying peers.
pub mod Restart
pub mod Paired
use mathlib.Core.Option
use gpu_share.Security.Crypto.{public_key_hex}
use gpu_share.Cuda.Gpu.{first_gpu, GpuInfo}
use gpu_share.Security.AllowList.{allow_gpu_remote, allow, allow_desktop, deny, AllowList}
use gpu_share.Security.Pairing.{decode_code, sign_with, PairingPayload, encode_code}
use gpu_share.Storage.Peers.{upsert, PeerRecord, lookup}
use gpu_share.Base.Int.{ℤ}
use gpu_share.Node.{on_files, and_then, save_peers, Env, save_allowlist, MeshNode}
use gpu_share.Base.{
  ℕ, zero, suc, String, Bool, true, false, Option, none, some, List, [], ◌∷◌, ◌++◌, inl, inr, ◌≡◌,
  ◌≢◌, refl, ap, sym, arith, if◌then◌else◌, ◌==◌, nat_eq, string_eq, ◌+◌, ◌-◌, ◌*◌, ◌≤◌, ◌<◌, min,
  max, ◌&&◌, ◌||◌, not, ◌&◌, ◌⊎◌, ◌↔◌, length,
}
use gpu_share.Common.{peer_not_found, ok, err, ◌>>=◌, ◌>>◌, Result}

-- `store.get(peer)`, with the identifier of the peer found.
unfoldable pub resolve : String → MeshNode → Result String
resolve peer node = elim (lookup peer node.peers) [
  | none ↦ err (peer_not_found peer)
  | some r ↦ ok r.node_id
]

-- A change of the list, which is saved. The change stays where saving fails.
unfoldable pub change_list : Env → (AllowList → AllowList) → MeshNode → MeshNode × Result (Unit {0})
unfolding save_allowlist
change_list env change node =
    let list = change node.allowlist in
    on_files (save_allowlist env list) (record node { allowlist = list })

unfoldable pub allow_peer : Env → String → MeshNode → MeshNode × Result (Unit {0})
allow_peer env peer node =
    and_then (node, resolve peer node) λ s id. change_list env (λ l. allow l id) s

unfoldable pub allow_desktop_peer : Env → String → MeshNode → MeshNode × Result (Unit {0})
allow_desktop_peer env peer node =
    and_then (node, resolve peer node) λ s id. change_list env (λ l. allow_desktop l id) s

unfoldable pub allow_gpu_remote_peer : Env → String → MeshNode → MeshNode × Result (Unit {0})
allow_gpu_remote_peer env peer node =
    and_then (node, resolve peer node) λ s id. change_list env (λ l. allow_gpu_remote l id) s

unfoldable pub deny_peer : Env → String → MeshNode → MeshNode × Result (Unit {0})
deny_peer env peer node =
    and_then (node, resolve peer node) λ s id. change_list env (λ l. deny l id) s

unfoldable pub record_of : ℤ → PairingPayload → PeerRecord
record_of now payload = record {
  node_id = payload.node_id;
  node_name = payload.node_name;
  public_key_hex = payload.public_key_hex;
  addrs = payload.addrs;
  gpu_model = payload.gpu_model;
  vram_mb = payload.vram_mb;
  paired_at = now;
  last_seen = none;
}

abbrev store_peer : Env → PeerRecord → MeshNode → MeshNode × Result (Unit {0})
store_peer env rec node =
    let peers = upsert rec node.peers in
    on_files (save_peers env peers) (record node { peers = peers })

-- Pairing stores the peer and allows it.
unfoldable pub pair_with_code : Env → String → MeshNode → MeshNode × Result PeerRecord
unfolding save_peers
pair_with_code env code node =
    and_then (node, decode_code env.crypto env.pairing_json env.now code)
      λ s payload.
        let rec = record_of env.now payload in
        and_then (store_peer env rec s)
          λ s1 _. and_then (change_list env (λ l. allow l rec.node_id) s1) λ s2 _. (s2, ok rec)

abbrev pub found_gpus : Env → List GpuInfo
found_gpus env = elim env.gpus [ err e ↦ [] | ok gs ↦ gs ]

abbrev pub detected : Env → Option GpuInfo
detected env = first_gpu (found_gpus env)

-- The payload that `pairing_code` signs. `addrs` are the addresses that the endpoint advertises.
unfoldable pub pairing_payload : Env → List String → MeshNode → PairingPayload
pairing_payload env addrs node = record {
  version = 1;
  node_id = node.identity.node_id;
  node_name = node.config.node_name;
  public_key_hex = public_key_hex env.crypto node.identity;
  addrs = addrs;
  gpu_model = Option.map (λ (g : GpuInfo). g.name) (detected env);
  vram_mb = Option.map (λ (g : GpuInfo). g.vram_total_mb) (detected env);
  issued_at = env.now;
  signature = "";
}

unfoldable pub pairing_code : Env → List String → MeshNode → Result String
unfolding pairing_payload
pairing_code env addrs node =
    encode_code env.crypto env.pairing_json
      (sign_with env.crypto env.pairing_json node.identity (pairing_payload env addrs node))
