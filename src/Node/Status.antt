-- ===== src/Node/Status.antt =====
-- crates/gpumesh-core/src/status.rs: the status of a node and the table of its peers. A text is none
-- where slicing it panics.
pub mod Widths
use gpu_share.Node.Greeting.{is_sharing}
use gpu_share.Node.Trust.{found_gpus}
use gpu_share.Cuda.Gpu.{GpuInfo}
use gpu_share.Node.{MeshNode, Env}
use gpu_share.Storage.Peers.{PeerRecord}
use mathlib.Core.Option
use gpu_share.Base.{
  is_some, take_bytes, unwrap_or, byte_len, leb, is_empty, show, ◌/◌, ℕ, zero, suc, String, Bool,
  true, false, Option, none, some, List, [], ◌∷◌, ◌++◌, inl, inr, ◌≡◌, ◌≢◌, refl, ap, sym, arith,
  if◌then◌else◌, ◌==◌, nat_eq, string_eq, ◌+◌, ◌-◌, ◌*◌, ◌≤◌, ◌<◌, min, max, ◌&&◌, ◌||◌, not, ◌&◌,
  ◌⊎◌, ◌↔◌, length,
}
use gpu_share.Common.{unknown, display_status, PeerStatus, ok, err, ◌>>=◌, ◌>>◌, Result}
use gpu_share.Base.Map
use gpu_share.Base.Map.{values, get, Map}

pub record NodeStatusView : Type 0 where
  pub node_name : String
  pub node_id : String
  pub gpus : List GpuInfo
  pub p2p : Bool
  pub peers : ℕ
  pub sharing : Bool

unfoldable pub collect_status : Env → MeshNode → NodeStatusView
collect_status env node = record {
  node_name = node.config.node_name;
  node_id = node.identity.node_id;
  gpus = found_gpus env;
  p2p = is_some node.endpoint;
  peers = length (values node.peers);
  sharing = is_sharing node;
}

-- `(mb as f64 / 1024.0).round() as u64`: exact for the sizes below 2 ^ 53 that are whole numbers of
-- megabytes.
unfoldable pub rounded_gb : ℕ → ℕ
rounded_gb mb = (mb + 512) / 1024

abbrev temperature_line : Option ℕ → String
temperature_line none = ""
temperature_line (some t) = "  Temperature: " & show t & "°C\n"

unfoldable pub gpu_lines : List GpuInfo → String
unfolding rounded_gb
gpu_lines [] = ""
gpu_lines (g ∷ gs) =
    "  "
    & g.name
    & "\n  VRAM: "
    & show (rounded_gb g.vram_total_mb)
    & " GB\n  Utilization: "
    & show (unwrap_or g.utilization_gpu 0)
    & "%\n"
    & temperature_line g.temperature_c
    & "\n"
    & gpu_lines gs

unfoldable pub format_status : NodeStatusView → String
unfolding gpu_lines
format_status view =
    "GPUMesh Status\n\nNode: "
    & view.node_name
    & "\nNode ID: "
    & view.node_id
    & "\n\nGPU:\n"
    & (if is_empty view.gpus then "  (no NVIDIA GPU detected)\n\n" else gpu_lines view.gpus)
    & "Network:\n  P2P: "
    & (if view.p2p then "Connected" else "Idle")
    & "\n  Peers: "
    & show view.peers
    & "\n  Sharing: "
    & (if view.sharing then "enabled" else "disabled")
    & "\n"

unfoldable pub truncate : String → ℕ → Option String
truncate s max =
    if leb (byte_len s) max
    then some s
    else Option.map (λ (t : String). t & "…") (take_bytes (max - 1) s)

-- `{:<n}` fills up to n characters.
unfoldable pub count_chars : String → ℕ
count_chars String.[] = 0
count_chars (String.◌∷◌ c s) = suc (count_chars s)

unfoldable pub spaces : ℕ → String
spaces zero = ""
spaces (suc n) = " " & spaces n

unfoldable pub padded : ℕ → String → String
unfolding count_chars spaces
padded n s = s & spaces (n - count_chars s)

-- The live state of a peer, as a probe gave it.
pub record Live : Type 0 where
  pub status : PeerStatus
  pub gpu : Option String
  pub vram : Option ℕ

abbrev shown : Option Live → PeerRecord → Live
shown none p = record { status = unknown; gpu = p.gpu_model; vram = p.vram_mb }
shown (some live) p = live

abbrev vram_text : Option ℕ → String
vram_text none = "-"
vram_text (some mb) = show (rounded_gb mb) & "GB"

abbrev row : Live → Option String → Option String → Option String
row live none gpu = none
row live (some name) none = none
row live (some name) (some gpu) = some (
    padded 13 name
    & " "
    & padded 16 gpu
    & " "
    & padded 8 (vram_text live.vram)
    & " "
    & display_status live.status
    & "\n")

unfoldable pub peer_row : Option Live → PeerRecord → Option String
unfolding truncate padded display_status rounded_gb
peer_row live p =
    let l = shown live p in row l (truncate p.node_name 13) (truncate (unwrap_or l.gpu "-") 16)

abbrev append_text : Option String → Option String → Option String
append_text none t = none
append_text (some s) none = none
append_text (some s) (some t) = some (s & t)

unfoldable pub peer_rows : Map String Live → List PeerRecord → Option String
unfolding peer_row
peer_rows live [] = some ""
peer_rows live (p ∷ ps) = append_text (peer_row (get p.node_id live) p) (peer_rows live ps)

unfoldable pub format_peers_table : Map String Live → List PeerRecord → Option String
unfolding peer_rows
format_peers_table live peers =
    append_text (some "NAME          GPU              VRAM     STATUS\n") (
      append_text (peer_rows live peers)
        (some (if is_empty peers then "(no paired peers — run `gpumesh pair <code>`)\n" else "")))
