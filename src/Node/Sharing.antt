-- ===== src/Node/Sharing.antt =====
-- The operations of `MeshNode` in crates/gpumesh-core/src/node.rs that start and stop sharing, with
-- what they send to the rendezvous server.
use gpu_share.Cuda.Gpu.{GpuInfo}
use gpu_share.Node.Greeting.{gpu_field}
use gpu_share.Security.Crypto.{public_key_hex, sign_b64}
use gpu_share.Node.Trust.{detected}
use gpu_share.Node.{on_files, MeshNode, save_config, Env}
use gpu_share.Security.Listing.{
  listing_payload, sign_public_listing, PublicUnannounce, PublicListing,
}
use gpu_share.Base.Int.{pos, ◌-ℤ◌, pos_part, ℤ}
use mathlib.Core.Option
use gpu_share.Base.{
  unwrap_or, leb, ℕ, String, Bool, true, false, Option, none, some, List, [], ◌∷◌, if◌then◌else◌,
  ◌==◌, nat_eq, string_eq, not,
}
use gpu_share.Common.{and_then, NodeConfig, ok, ◌>>=◌, Result}

pub record RendezvousAnnounce : Type 0 where
  pub node_id : String
  pub node_name : String
  pub public_key_hex : String
  pub addrs : List String
  pub sharing : Bool
  pub gpu_model : Option String
  pub vram_mb : Option ℕ
  pub vram_free_mb : Option ℕ
  pub utilization : Option ℕ

-- What goes out to the server at a URL. A failure there is only logged.
pub data Outgoing : Type 0 where
  announce : String → RendezvousAnnounce → Outgoing
  public_announce : String → PublicListing → Outgoing
  public_unannounce : String → PublicUnannounce → Outgoing

unfoldable pub availability_label : Bool → Option ℕ → String
availability_label sharing util =
    if not sharing then "offline" else if leb 50 (unwrap_or util 0) then "busy" else "idle"

-- `(now - t).max(0) as u64`.
abbrev pub elapsed_secs : ℤ → ℤ → ℕ
elapsed_secs now t = pos_part (now -ℤ t)

-- `build_public_listing_inner`.
unfoldable pub build_public_listing : Env → MeshNode → PublicListing
unfolding availability_label
build_public_listing env node =
    let g = detected env in
    let util = gpu_field (λ g. g.utilization_gpu) g in
    let vram_total = Option.map (λ (g : GpuInfo). g.vram_total_mb) g in
    let vram_free = Option.map (λ (g : GpuInfo). g.vram_free_mb) g in
    sign_public_listing env.crypto (listing_payload env.listing_bytes) env.now node.identity
      (record {
        node_id = node.identity.node_id;
        node_name = node.config.node_name;
        public_key_hex = public_key_hex env.crypto node.identity;
        addrs = [];
        gpu_model = Option.map (λ (g : GpuInfo). g.name) g;
        vram_mb = vram_total;
        vram_free_mb = vram_free;
        cuda_version = gpu_field (λ g. g.cuda_version) g;
        availability = availability_label node.sharing util;
        perf_score =
            some (env.compute_perf_score (unwrap_or vram_total 0) (unwrap_or vram_free 0) util);
        latency_ms = none;
        region = node.config.region;
        uptime_secs = Option.map (elapsed_secs env.now) node.sharing_since;
        sharing = node.sharing;
        is_public = true;
        utilization = util;
        issued_at = pos 0;
        signature = "";
      })

unfoldable pub build_announce : Env → MeshNode → RendezvousAnnounce
build_announce env node =
    let g = detected env in
    record {
      node_id = node.identity.node_id;
      node_name = node.config.node_name;
      public_key_hex = public_key_hex env.crypto node.identity;
      addrs = unwrap_or node.endpoint [];
      sharing = true;
      gpu_model = Option.map (λ (g : GpuInfo). g.name) g;
      vram_mb = Option.map (λ (g : GpuInfo). g.vram_total_mb) g;
      vram_free_mb = Option.map (λ (g : GpuInfo). g.vram_free_mb) g;
      utilization = gpu_field (λ g. g.utilization_gpu) g;
    }

abbrev pub set_vram : Env → Option String → NodeConfig → Result NodeConfig
set_vram env none cfg = ok cfg
set_vram env (some v) cfg =
    env.parse_size_to_mb v >>= λ mb. ok (record cfg { max_vram_mb = some mb })

abbrev pub set_util : Option ℕ → NodeConfig → NodeConfig
set_util none cfg = cfg
set_util (some u) cfg = record cfg { max_gpu_utilization = some u }

abbrev pub set_region : Option String → NodeConfig → NodeConfig
set_region none cfg = cfg
set_region (some r) cfg = record cfg { region = if r == "" then none else some r }

-- The configuration in memory keeps its change where it cannot be saved.
abbrev pub keep_config : Env → NodeConfig → MeshNode → MeshNode × Result (Unit {0})
keep_config env cfg node = on_files (save_config env cfg) (record node { config = cfg })

unfoldable pub announcements : Env → Bool → MeshNode → List Outgoing
announcements env is_public node = elim node.config.rendezvous_url [
  | none ↦ []
  | some url ↦
      announce url (build_announce env node)
      ∷ (if is_public then public_announce url (build_public_listing env node) ∷ [] else [])
]

unfoldable pub enable_share :
    Env
    → Option String
    → Option ℕ
    → Bool
    → Option String
    → MeshNode
    → MeshNode × Result (List Outgoing)
unfolding save_config announcements
enable_share env max_vram max_util is_public region node =
    and_then (node, set_vram env max_vram node.config)
      λ s cfg.
        let shared = record (set_region region (set_util max_util cfg)) {
          sharing_enabled = true;
          public_listing = is_public;
        } in
        and_then (keep_config env shared s) λ s1 _.
          let on = record s1 { sharing = true; sharing_since = some env.now } in
          (on, ok (announcements env is_public on))

abbrev farewell : Env → MeshNode → PublicUnannounce
farewell env node =
    let body : PublicUnannounce = record {
      node_id = node.identity.node_id;
      issued_at = env.now;
      signature = "";
    } in
    record body { signature = sign_b64 env.crypto node.identity (env.unannounce_bytes body) }

abbrev pub withdrawals : Env → Bool → Option String → MeshNode → List Outgoing
withdrawals env true (some url) node = public_unannounce url (farewell env node) ∷ []
withdrawals env _ _ node = []

unfoldable pub disable_share : Env → MeshNode → MeshNode × Result (List Outgoing)
unfolding save_config
disable_share env node =
    let was_public = node.config.public_listing in
    let cfg = record node.config { sharing_enabled = false; public_listing = false } in
    and_then (keep_config env cfg node) λ s _.
      let off = record s { sharing = false; sharing_since = none } in
      (off, ok (withdrawals env was_public node.config.rendezvous_url off))

unfoldable pub publish_public_listing : Env → MeshNode → List Outgoing
publish_public_listing env node = elim node.config.rendezvous_url [
  | none ↦ []
  | some url ↦
      if node.config.public_listing
      then public_announce url (build_public_listing env node) ∷ []
      else []
]

abbrev pub start_clock : Env → Option ℤ → Option ℤ
start_clock env none = some env.now
start_clock env (some t) = some t

unfoldable pub enable_desktop_share : Env → MeshNode → MeshNode × Result (Unit {0})
unfolding save_config
enable_desktop_share env node =
    let cfg = record node.config { desktop_sharing = true; sharing_enabled = true } in
    and_then (keep_config env cfg node) λ s _. (
      record s {
        desktop_sharing = true;
        sharing = true;
        sharing_since = start_clock env s.sharing_since;
      },
      ok tt,
    )

unfoldable pub enable_cuda_remote_share : Env → MeshNode → MeshNode × Result (Unit {0})
unfolding save_config
enable_cuda_remote_share env node =
    let cfg = record node.config { cuda_remote_sharing = true; sharing_enabled = true } in
    and_then (keep_config env cfg node) λ s _. (
      record s {
        cuda_remote_sharing = true;
        sharing = true;
        sharing_since = start_clock env s.sharing_since;
      },
      ok tt,
    )
