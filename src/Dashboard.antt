-- ===== src/Dashboard.antt =====
-- The local server of crates/gpumesh-control/src/local.rs for the dashboard of a node. Each request
-- starts the node from its files. HTTP, the random identifiers of jobs and the texts of times are
-- parameters.
pub mod Access
pub mod Logs
pub mod Runs
mod Tests
use gpu_share.Jobs.Records.{JobDirs}
use gpu_share.Node.Trust.{
  allow_desktop_peer, allow_peer, deny_peer, pair_with_code, pairing_code, allow_gpu_remote_peer,
}
use gpu_share.Storage.Peers.{PeerRecord}
use gpu_share.Security.AllowList.{
  is_gpu_remote_allowed, is_desktop_allowed, is_allowed, default, AllowList,
}
use gpu_share.Base.Int.{ℤ}
use gpu_share.Node.{load_allowlist, bootstrap, Env, Saved, MeshNode}
use mathlib.Core.Option
use gpu_share.Base.{
  take_bytes, trim, or_else, byte_len, leb, ℕ, zero, suc, String, Bool, true, false, Option, none,
  some, List, [], ◌∷◌, ◌++◌, inl, inr, ◌≡◌, ◌≢◌, refl, ap, sym, arith, if◌then◌else◌, ◌==◌, nat_eq,
  string_eq, ◌+◌, ◌-◌, ◌*◌, ◌≤◌, ◌<◌, min, max, ◌&&◌, ◌||◌, not, ◌&◌, ◌⊎◌, ◌↔◌, length,
}
use gpu_share.Common.{
  not_initialized, network, not_authorized, peer_denied, peer_not_found, display, GpuMeshError, ok,
  err, ◌>>=◌, ◌>>◌, Result,
}

-- The files and the shared set of running jobs.
pub record Local : Type 0 where
  pub saved : Saved
  pub dirs : JobDirs
  pub running : List String

-- What a request gets: a body, or a status with an error.
pub data Response (A : Type 0) : Type 0 where
  answer : A → Response A
  refusal : ℕ → String → Response A

-- `authorized`, with the text of the header, if there is one that can be read.
unfoldable pub authorized : Option String → Option String → Bool
authorized none header = true
authorized (some token) none = false
authorized (some token) (some value) = value == ("Bearer " & token)

-- `map_err`.
unfoldable pub status_of_error : GpuMeshError → ℕ
status_of_error not_initialized = 412
status_of_error (peer_not_found s) = 404
status_of_error (peer_denied s) = 403
status_of_error (not_authorized s) = 403
status_of_error (network s) = 502
status_of_error _ = 400

abbrev pub map_err : {A : Type 0} → GpuMeshError → Response A
map_err e = refusal (status_of_error e) (display e)

abbrev pub unauthorized : {A : Type 0} → Response A
unauthorized = refusal 401 "missing or invalid API token"

-- The sequence of a handler: `require_auth`, and then the rest of it.
abbrev pub require_auth :
    {A : Type 0} → Option String → Option String → Local → Local × Response A → Local × Response A
require_auth token header local rest =
    if authorized token header then rest else (local, unauthorized)

-- Starting the node and running one of its operations, whose saves stay in the files.
abbrev on_started :
    {A B : Type 0}
    → (A → B)
    → (MeshNode → MeshNode × Result A)
    → Local
    → Result MeshNode
    → Local × Response B
on_started body op local (err e) = (local, map_err e)
on_started body op local (ok node) = (
  record local { saved = (op node).0.saved },
  elim (op node).1 [ err e ↦ map_err e | ok a ↦ answer (body a) ],
)

abbrev pub on_node :
    {A B : Type 0} → Env → (A → B) → (MeshNode → MeshNode × Result A) → Local → Local × Response B
on_node env body op local = on_started body op local (bootstrap env local.saved)

-- A peer as the dashboard shows it; the short name is none where slicing panics.
pub record LocalPeer : Type 0 where
  pub node_id : String
  pub node_id_short : Option String
  pub node_name : String
  pub addrs : List String
  pub gpu_model : Option String
  pub vram_mb : Option ℕ
  pub vram_free_mb : Option ℕ
  pub utilization : Option ℕ
  pub last_seen : Option ℤ
  pub paired_at : ℤ
  pub allowed : Bool
  pub desktop_allowed : Bool
  pub gpu_remote_allowed : Bool
  pub live_status : Option String
  pub sharing : Option Bool

-- `short_fingerprint` of crates/gpumesh-security/src/lib.rs.
unfoldable pub short_fingerprint : String → Option String
short_fingerprint node_id =
    if leb (byte_len node_id) 8
    then some node_id
    else Option.map (λ (s : String). s & "…") (take_bytes 8 node_id)

-- What a probe of a peer gave.
pub record Probed : Type 0 where
  pub status : String
  pub sharing : Option Bool
  pub gpu_model : Option String
  pub vram_mb : Option ℕ
  pub vram_free_mb : Option ℕ
  pub utilization : Option ℕ

abbrev probed_field : {A : Type 0} → (Probed → Option A) → Option Probed → Option A
probed_field f none = none
probed_field f (some p) = f p

unfoldable pub local_peer : AllowList → Option Probed → PeerRecord → LocalPeer
local_peer list probed p = record {
  node_id = p.node_id;
  node_id_short = short_fingerprint p.node_id;
  node_name = p.node_name;
  addrs = p.addrs;
  gpu_model = or_else (probed_field (λ x. x.gpu_model) probed) p.gpu_model;
  vram_mb = or_else (probed_field (λ x. x.vram_mb) probed) p.vram_mb;
  vram_free_mb = probed_field (λ x. x.vram_free_mb) probed;
  utilization = probed_field (λ x. x.utilization) probed;
  last_seen = p.last_seen;
  paired_at = p.paired_at;
  allowed = is_allowed list p.node_id;
  desktop_allowed = is_desktop_allowed list p.node_id;
  gpu_remote_allowed = is_gpu_remote_allowed list p.node_id;
  live_status = Option.map (λ (x : Probed). x.status) probed;
  sharing = probed_field (λ x. x.sharing) probed;
}

abbrev saved_list : Saved → AllowList
saved_list saved = elim (load_allowlist saved) [ err e ↦ default | ok l ↦ l ]

-- `pair`: the list is read again from its file, which the pairing has just written.
abbrev shown_pair : Local × Response PeerRecord → Local × Response LocalPeer
shown_pair (local, refusal status why) = (local, refusal status why)
shown_pair (local, answer rec) = (local, answer (local_peer (saved_list local.saved) none rec))

unfoldable pub pair : Env → String → Local → Local × Response LocalPeer
unfolding local_peer
pair env code local = shown_pair (on_node env (λ rec. rec) (pair_with_code env (trim code)) local)

-- `allow`, `allow_desktop`, `allow_cuda` and `deny`.
unfoldable pub allow_handler : Env → String → Local → Local × Response String
allow_handler env peer local = on_node env (λ _. peer) (allow_peer env peer) local

unfoldable pub allow_desktop_handler : Env → String → Local → Local × Response String
allow_desktop_handler env peer local = on_node env (λ _. peer) (allow_desktop_peer env peer) local

unfoldable pub allow_cuda_handler : Env → String → Local → Local × Response String
allow_cuda_handler env peer local = on_node env (λ _. peer) (allow_gpu_remote_peer env peer) local

unfoldable pub deny_handler : Env → String → Local → Local × Response String
deny_handler env peer local = on_node env (λ _. peer) (deny_peer env peer) local

-- `pair_code`, which writes nothing.
unfoldable pub pair_code : Env → List String → Local → Local × Response String
pair_code env addrs local =
    on_node env (λ code. code) (λ node. (node, pairing_code env addrs node)) local
