-- ===== src/Node.antt =====
-- `MeshNode` of crates/gpumesh-core/src/node.rs: the state of a node, the files that it keeps
-- (`StateStore` and `PeerStore` of crates/gpumesh-storage/src/store.rs), and what it takes from its
-- surroundings. A lock is held for one operation only, so an operation is one change of the state.
pub mod Trust
pub mod Sharing
pub mod Greeting
pub mod Handshake
pub mod Inbound
pub mod Outbound
pub mod Sound
pub mod Reached
pub mod Status
pub mod Toy
mod Tests
use gpu_share.Security.Pairing.{PairingPayload}
use gpu_share.Security.Listing.{PublicUnannounce, PublicListing}
use gpu_share.Protocol.{Message, ProtocolHello}
use gpu_share.Cuda.Gpu.{GpuInfo}
use gpu_share.Base.Int.{ℤ}
use gpu_share.Security.Crypto.{Crypto, NodeIdentity}
use gpu_share.Storage.Peers.{Peers}
use gpu_share.Security.AllowList.{default, AllowList}
use gpu_share.Base.{
  Json, ℕ, zero, suc, String, Bool, true, false, Option, none, some, List, [], ◌∷◌, ◌++◌, inl, inr,
  ◌≡◌, ◌≢◌, refl, ap, sym, arith, if◌then◌else◌, ◌==◌, nat_eq, string_eq, ◌+◌, ◌-◌, ◌*◌, ◌≤◌, ◌<◌,
  min, max, ◌&&◌, ◌||◌, not, ◌&◌, ◌⊎◌, ◌↔◌, length,
}
use gpu_share.Common.{
  and_then, default_config, not_initialized, bail_if, NodeConfig, GpuMeshError, ok, err, ◌>>=◌,
  ◌>>◌, Result,
}

-- A file, as reading and parsing it answers.
pub data Stored (A : Type 0) : Type 0 where
  missing : Stored A
  unreadable : GpuMeshError → Stored A
  holds : A → Stored A

-- The files of a node.
pub record Saved : Type 0 where
  pub identity : Stored NodeIdentity
  pub config : Stored NodeConfig
  pub allowlist : Stored AllowList
  pub peers : Stored Peers

-- The surroundings: the clock, the GPUs, the cryptography and the serialisers, whether each file
-- can be written, the debugging text of a message, and `parse_size_to_mb` and `compute_perf_score`, which compute on `f64`.
pub record Env : Type 0 where
  pub now : ℤ
  pub hostname : String
  pub gpus : Result (List GpuInfo)
  pub crypto : Crypto
  pub hello_bytes : ProtocolHello → List ℕ
  pub listing_bytes : PublicListing → List ℕ
  pub unannounce_bytes : PublicUnannounce → List ℕ
  pub pairing_json : Json PairingPayload
  pub ensure_dirs : Result (Unit {0})
  pub write_config : Result (Unit {0})
  pub write_allowlist : Result (Unit {0})
  pub write_peers : Result (Unit {0})
  pub debug : Message → String
  pub parse_size_to_mb : String → Result ℕ
  pub compute_perf_score : ℕ → ℕ → Option ℕ → ℕ

-- A discovered peer of the local network.
pub record Discovered : Type 0 where
  pub node_id : String
  pub addr : String

-- The endpoint is kept as its local addresses, the discovery as the peers it has seen, and the
-- runtime as the names of its active containers.
pub record MeshNode : Type 0 where
  pub identity : NodeIdentity
  pub config : NodeConfig
  pub allowlist : AllowList
  pub peers : Peers
  pub active : List String
  pub endpoint : Option (List String)
  pub lan : Option (List Discovered)
  pub sharing : Bool
  pub sharing_since : Option ℤ
  pub desktop_sharing : Bool
  pub cuda_remote_sharing : Bool
  pub saved : Saved

abbrev pub read_or : {A : Type 0} → A → Stored A → Result A
read_or d missing = ok d
read_or d (unreadable e) = err e
read_or d (holds a) = ok a

abbrev pub is_missing : {A : Type 0} → Stored A → Bool
is_missing missing = true
is_missing _ = false

abbrev pub read_identity : Stored NodeIdentity → Result NodeIdentity
read_identity missing = err not_initialized
read_identity (unreadable e) = err e
read_identity (holds id) = ok id

-- `StateStore::load_config`, `StateStore::load_allowlist` and `PeerStore::load`: a file that is
-- not there stands for the default.
unfoldable pub load_config : Env → Saved → Result NodeConfig
load_config env saved = read_or (default_config env.hostname) saved.config

unfoldable pub load_allowlist : Saved → Result AllowList
load_allowlist saved = read_or default saved.allowlist

unfoldable pub load_peers : Saved → Result Peers
load_peers saved = read_or [] saved.peers

unfoldable pub save_config : Env → NodeConfig → Saved → Saved × Result (Unit {0})
save_config env cfg saved = elim (env.ensure_dirs >> env.write_config) [
  | err e ↦ (saved, err e)
  | ok _ ↦ (record saved { config = holds cfg }, ok tt)
]

unfoldable pub save_allowlist : Env → AllowList → Saved → Saved × Result (Unit {0})
save_allowlist env list saved = elim (env.ensure_dirs >> env.write_allowlist) [
  | err e ↦ (saved, err e)
  | ok _ ↦ (record saved { allowlist = holds list }, ok tt)
]

-- `PeerStore::save`.
unfoldable pub save_peers : Env → Peers → Saved → Saved × Result (Unit {0})
save_peers env peers saved = elim env.write_peers [
  | err e ↦ (saved, err e)
  | ok _ ↦ (record saved { peers = holds peers }, ok tt)
]

-- A save within an operation of the node.
abbrev pub on_files : (Saved → Saved × Result (Unit {0})) → MeshNode → MeshNode × Result (Unit {0})
on_files save node = let (after, r) = save node.saved in (record node { saved = after }, r)

abbrev pub with_name : Option String → NodeConfig → NodeConfig
with_name none cfg = cfg
with_name (some name) cfg = record cfg { node_name = name }

-- `init`. `created` is the answer of `NodeIdentity::load_or_create`, which leaves the identity in
-- its file. Whether the peers can be saved is not looked at.
unfoldable pub init :
    Env → Result NodeIdentity → Option String → Saved → Saved × Result (NodeIdentity × NodeConfig)
init env created node_name saved =
    and_then (saved, env.ensure_dirs >> created)
      λ s id.
        let cfg = with_name node_name (default_config env.hostname) in
        and_then (save_config env cfg (record s { identity = holds id })) λ s1 _.
          and_then (save_allowlist env default s1) λ s2 _.
            and_then (s2, load_peers s2) λ s3 peers. ((save_peers env peers s3).0, ok (id, cfg))

-- `bootstrap`.
unfoldable pub bootstrap : Env → Saved → Result MeshNode
unfolding load_config load_allowlist load_peers
bootstrap env saved = do
  env.ensure_dirs
  bail_if (is_missing saved.identity) not_initialized
  identity ← read_identity saved.identity
  config ← load_config env saved
  allowlist ← load_allowlist saved
  peers ← load_peers saved
  ok (record {
    identity = identity;
    config = config;
    allowlist = allowlist;
    peers = peers;
    active = [];
    endpoint = none;
    lan = none;
    sharing = false;
    sharing_since = none;
    desktop_sharing = false;
    cuda_remote_sharing = false;
    saved = saved;
  })

-- `start_network`: binding gives the local addresses, and the discovery may fail to start.
unfoldable pub start_network :
    Result (List String) → Option (List Discovered) → MeshNode → MeshNode × Result (Unit {0})
start_network bind lan node = elim node.endpoint [
  | some e ↦ (node, ok tt)
  | none ↦ elim bind [
    | err e ↦ (node, err e)
    | ok addrs ↦ (record node { endpoint = some addrs; lan = lan }, ok tt)
  ]
]

-- `ensure_dialer`.
unfoldable pub ensure_dialer : Result (List String) → MeshNode → MeshNode × Result (Unit {0})
ensure_dialer bind node = elim node.endpoint [
  | some e ↦ (node, ok tt)
  | none ↦ elim bind [
    | err e ↦ (node, err e)
    | ok addrs ↦ (record node { endpoint = some addrs }, ok tt)
  ]
]
