-- ===== src/Node/Sound/SharingKept.antt =====
-- Starting and stopping to share keep a node of crates/gpumesh-core/src/node.rs sound.
use gpu_share.Node.Sound.{keep_config-IsSound, and_then-IsSound, IsSound}
use gpu_share.Base.Int.{ℤ}
use gpu_share.Node.{MeshNode, Env}
use gpu_share.Node.Sharing.{
  withdrawals, announcements, start_clock, set_util, keep_config, set_vram, set_region,
  enable_cuda_remote_share, enable_share, disable_share, enable_desktop_share,
}
use gpu_share.Base.{
  ◌∙◌, is_some, ℕ, String, Bool, true, false, Option, none, some, ◌≡◌, refl, ap, sym, nat_eq,
  string_eq,
}
use gpu_share.Common.{>>=-eq-ok, ok_inj, NodeConfig, ok, Result}

set_vram_lem :
    (env : Env) (v : Option String) (cfg cfg' : NodeConfig)
    → set_vram env v cfg ≡ ok cfg'
    → (cfg'.desktop_sharing ≡ cfg.desktop_sharing)
      × (cfg'.cuda_remote_sharing ≡ cfg.cuda_remote_sharing)
set_vram_lem env none cfg cfg' h =
    let e : cfg' ≡ cfg = sym (ok_inj h) in
    (ap (λ (c : NodeConfig). c.desktop_sharing) e, ap (λ (c : NodeConfig). c.cuda_remote_sharing) e)
set_vram_lem env (some v) cfg cfg' h =
    let (mb, q, k) = >>=-eq-ok (env.parse_size_to_mb v) _ h in
    let e : cfg' ≡ record cfg { max_vram_mb = some mb } = sym (ok_inj k) in
    (ap (λ (c : NodeConfig). c.desktop_sharing) e, ap (λ (c : NodeConfig). c.cuda_remote_sharing) e)

set_region-flags :
    (region : Option String) (util : Option ℕ) (cfg : NodeConfig)
    → ((set_region region (set_util util cfg)).desktop_sharing ≡ cfg.desktop_sharing)
      × ((set_region region (set_util util cfg)).cuda_remote_sharing ≡ cfg.cuda_remote_sharing)
set_region-flags none none cfg = (refl, refl)
set_region-flags none (some u) cfg = (refl, refl)
set_region-flags (some r) none cfg = (refl, refl)
set_region-flags (some r) (some u) cfg = (refl, refl)

pub enable_share-IsSound :
    (env : Env) (vram : Option String) (util : Option ℕ) (is_public : Bool) (region : Option String)
    (node : MeshNode)
    → IsSound node
    → IsSound (enable_share env vram util is_public region node).0
unfolding enable_share
enable_share-IsSound env vram util is_public region node w =
    and_then-IsSound (node, set_vram env vram node.config) _ w
      λ s cfg q v.
        let shared : NodeConfig = record (set_region region (set_util util cfg)) {
          sharing_enabled = true;
          public_listing = is_public;
        } in
        let (d, c) =
          set_vram_lem env vram node.config cfg
            (ap (λ (r : MeshNode × Result NodeConfig). r.1) q) in
        let (d', c') = set_region-flags region util cfg in
        let same : s.config ≡ node.config =
          ap (λ (r : MeshNode × Result NodeConfig). r.0.config) (sym q) in
        and_then-IsSound (keep_config env shared s)
          (λ s1 u.
            let on = record s1 { sharing = true; sharing_since = some env.now } in
            (on, ok (announcements env is_public on)))
          (keep_config-IsSound env shared s
            (λ h. d' ∙ d ∙ ap (λ (k : NodeConfig). k.desktop_sharing) (sym same) ∙ h)
            (λ h. c' ∙ c ∙ ap (λ (k : NodeConfig). k.cuda_remote_sharing) (sym same) ∙ h) v)
          λ s1 u q1 v1. record {
            clock = refl;
            desktop = v1.desktop;
            cuda = v1.cuda;
            keyed = v1.keyed;
            own = v1.own;
          }

pub disable_share-IsSound :
    (env : Env) (node : MeshNode) → IsSound node → IsSound (disable_share env node).0
unfolding disable_share
disable_share-IsSound env node w =
    let cfg : NodeConfig = record node.config { sharing_enabled = false; public_listing = false } in
    and_then-IsSound (keep_config env cfg node)
      (λ s u.
        let off = record s { sharing = false; sharing_since = none } in
        (off, ok (withdrawals env node.config.public_listing node.config.rendezvous_url off)))
      (keep_config-IsSound env cfg node (λ h. h) (λ h. h) w)
      λ s u q v. record {
        clock = refl;
        desktop = v.desktop;
        cuda = v.cuda;
        keyed = v.keyed;
        own = v.own;
      }

start_clock-is_some : (env : Env) (t : Option ℤ) → is_some (start_clock env t) ≡ true
start_clock-is_some env none = refl
start_clock-is_some env (some t) = refl

keep_config-config :
    (env : Env) (cfg : NodeConfig) (node s : MeshNode) (u : Unit {0})
    → keep_config env cfg node ≡ (s, ok u)
    → s.config ≡ cfg
keep_config-config env cfg node s u q =
    ap (λ (r : MeshNode × Result (Unit {0})). r.0.config) (sym q)

pub enable_desktop_share-IsSound :
    (env : Env) (node : MeshNode) → IsSound node → IsSound (enable_desktop_share env node).0
unfolding enable_desktop_share
enable_desktop_share-IsSound env node w =
    let cfg : NodeConfig = record node.config { desktop_sharing = true; sharing_enabled = true } in
    and_then-IsSound (keep_config env cfg node)
      (λ s u. (
        record s {
          desktop_sharing = true;
          sharing = true;
          sharing_since = start_clock env s.sharing_since;
        },
        ok tt,
      ))
      (keep_config-IsSound env cfg node (λ h. refl) (λ h. h) w)
      λ s u q v. record {
        clock = start_clock-is_some env s.sharing_since;
        desktop =
            λ h. ap (λ (k : NodeConfig). k.desktop_sharing) (keep_config-config env cfg node s u q);
        cuda = v.cuda;
        keyed = v.keyed;
        own = v.own;
      }

pub enable_cuda_remote_share-IsSound :
    (env : Env) (node : MeshNode) → IsSound node → IsSound (enable_cuda_remote_share env node).0
unfolding enable_cuda_remote_share
enable_cuda_remote_share-IsSound env node w =
    let cfg : NodeConfig = record node.config {
      cuda_remote_sharing = true;
      sharing_enabled = true;
    } in
    and_then-IsSound (keep_config env cfg node)
      (λ s u. (
        record s {
          cuda_remote_sharing = true;
          sharing = true;
          sharing_since = start_clock env s.sharing_since;
        },
        ok tt,
      ))
      (keep_config-IsSound env cfg node (λ h. h) (λ h. refl) w)
      λ s u q v. record {
        clock = start_clock-is_some env s.sharing_since;
        desktop = v.desktop;
        cuda = λ h.
            ap (λ (k : NodeConfig). k.cuda_remote_sharing) (keep_config-config env cfg node s u q);
        keyed = v.keyed;
        own = v.own;
      }
