-- ===== src/Node/Sound.antt =====
-- What holds of a node of crates/gpumesh-core/src/node.rs at any time.
pub mod TrustKept
pub mod SharingKept
pub mod ConnectionsKept
use gpu_share.Storage.Peers.Removal.{AreKeyed}
use gpu_share.Node.Sharing.{keep_config}
use gpu_share.Storage.Peers.{Peers}
use gpu_share.Security.AllowList.{AllowList}
use gpu_share.Node.Trust.{change_list}
use gpu_share.Node.{holds, on_files, MeshNode, Env, save_allowlist, save_config, save_peers, Saved}
use gpu_share.Base.{
  ◌∙◌, is_some, ℕ, zero, suc, String, Bool, true, false, Option, none, some, List, [], ◌∷◌, ◌++◌,
  inl, inr, ◌≡◌, ◌≢◌, refl, ap, sym, arith, if◌then◌else◌, ◌==◌, nat_eq, string_eq, ◌+◌, ◌-◌, ◌*◌,
  ◌≤◌, ◌<◌, min, max, ◌&&◌, ◌||◌, not, ◌&◌, ◌⊎◌, ◌↔◌, length,
}
use gpu_share.Common.{Result-cases, and_then, NodeConfig, ok, err, ◌>>=◌, ◌>>◌, Result}

-- Time counts exactly while the node shares; desktops and GPUs are offered only as the configuration
-- says; every peer stands under its own identifier; and the identity is that of the file.
pub record IsSound (node : MeshNode) : Type 0 where
  pub clock : is_some node.sharing_since ≡ node.sharing
  pub desktop : node.desktop_sharing ≡ true → node.config.desktop_sharing ≡ true
  pub cuda : node.cuda_remote_sharing ≡ true → node.config.cuda_remote_sharing ≡ true
  pub keyed : AreKeyed node.peers
  pub own : node.saved.identity ≡ holds node.identity

pub and_then-IsSound :
    {A B : Type 0} (first : MeshNode × Result A) (next : MeshNode → A → MeshNode × Result B)
    → IsSound first.0
    → ((s : MeshNode) (a : A) → first ≡ (s, ok a) → IsSound s → IsSound (next s a).0)
    → IsSound (and_then first next).0
and_then-IsSound (s, err e) next w step = w
and_then-IsSound (s, ok a) next w step = step s a refl w

pub on_files-IsSound :
    (save : Saved → Saved × Result (Unit {0})) (node : MeshNode)
    → ((s : Saved) → (save s).0.identity ≡ s.identity)
    → IsSound node
    → IsSound (on_files save node).0
on_files-IsSound save node keeps w = record {
  clock = w.clock;
  desktop = w.desktop;
  cuda = w.cuda;
  keyed = w.keyed;
  own = keeps node.saved ∙ w.own;
}

save_config-identity :
    (env : Env) (cfg : NodeConfig) (s : Saved) → (save_config env cfg s).0.identity ≡ s.identity
unfolding save_config
save_config-identity env cfg s = elim (Result-cases (env.ensure_dirs >> env.write_config)) [
  | inl (e, q) ↦ rw (q, save_config) refl
  | inr (u, q) ↦ rw (q, save_config) refl
]

save_allowlist-identity :
    (env : Env) (l : AllowList) (s : Saved) → (save_allowlist env l s).0.identity ≡ s.identity
unfolding save_allowlist
save_allowlist-identity env l s = elim (Result-cases (env.ensure_dirs >> env.write_allowlist)) [
  | inl (e, q) ↦ rw (q, save_allowlist) refl
  | inr (u, q) ↦ rw (q, save_allowlist) refl
]

save_peers-identity :
    (env : Env) (p : Peers) (s : Saved) → (save_peers env p s).0.identity ≡ s.identity
unfolding save_peers
save_peers-identity env p s = elim (Result-cases env.write_peers) [
  | inl (e, q) ↦ rw (q, save_peers) refl
  | inr (u, q) ↦ rw (q, save_peers) refl
]

pub change_list-IsSound :
    (env : Env) (change : AllowList → AllowList) (node : MeshNode)
    → IsSound node
    → IsSound (change_list env change node).0
unfolding change_list
change_list-IsSound env change node w =
    on_files-IsSound (save_allowlist env (change node.allowlist))
      (record node { allowlist = change node.allowlist })
      (save_allowlist-identity env (change node.allowlist))
      (record { clock = w.clock; desktop = w.desktop; cuda = w.cuda; keyed = w.keyed; own = w.own })

pub with_peers-IsSound :
    (env : Env) (peers : Peers) (node : MeshNode)
    → AreKeyed peers
    → IsSound node
    → IsSound (on_files (save_peers env peers) (record node { peers = peers })).0
with_peers-IsSound env peers node k w =
    on_files-IsSound (save_peers env peers) (record node { peers = peers })
      (save_peers-identity env peers)
      (record { clock = w.clock; desktop = w.desktop; cuda = w.cuda; keyed = k; own = w.own })

pub keep_config-IsSound :
    (env : Env) (cfg : NodeConfig) (node : MeshNode)
    → (node.config.desktop_sharing ≡ true → cfg.desktop_sharing ≡ true)
    → (node.config.cuda_remote_sharing ≡ true → cfg.cuda_remote_sharing ≡ true)
    → IsSound node
    → IsSound (keep_config env cfg node).0
keep_config-IsSound env cfg node d c w =
    on_files-IsSound (save_config env cfg) (record node { config = cfg })
      (save_config-identity env cfg)
      (record {
        clock = w.clock;
        desktop = λ h. d (w.desktop h);
        cuda = λ h. c (w.cuda h);
        keyed = w.keyed;
        own = w.own;
      })
