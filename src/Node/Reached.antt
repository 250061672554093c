-- ===== src/Node/Reached.antt =====
-- The states that the operations of crates/gpumesh-core/src/node.rs bring a node to.
use gpu_share.Node.Sound.ConnectionsKept.{connect_peer-IsSound, handle_inbound-IsSound}
use gpu_share.Node.Sound.SharingKept.{
  enable_cuda_remote_share-IsSound, enable_desktop_share-IsSound, disable_share-IsSound,
  enable_share-IsSound,
}
use gpu_share.Node.Sound.TrustKept.{run_change-IsSound, pair_with_code-IsSound}
use gpu_share.Node.Outbound.{connect_peer}
use gpu_share.Node.Inbound.{handle_inbound}
use gpu_share.Network.{Conn}
use gpu_share.Node.Sharing.{
  enable_cuda_remote_share, enable_desktop_share, disable_share, enable_share,
}
use mathlib.Core.Path.{conn, subst}
use gpu_share.Storage.Peers.Removal.{AreKeyed}
use gpu_share.Node.Trust.Restart.{run_change, Change}
use gpu_share.Storage.Peers.{Peers}
use gpu_share.Node.Sound.{IsSound}
use gpu_share.Node.Trust.{pair_with_code}
use gpu_share.Security.Crypto.{NodeIdentity}
use gpu_share.Node.{
  load_allowlist, load_config, missing, is_missing, holds, unreadable, read_identity, read_or,
  load_peers, Saved, Discovered, ensure_dialer, Env, bootstrap, MeshNode, start_network, Stored,
}
use gpu_share.Base.{
  Option-cases, ℕ, String, Bool, Option, List, [], inl, inr, ◌≡◌, refl, ap, arith, nat_eq,
  string_eq,
}
use gpu_share.Common.{not_initialized, ok_inj, Result-cases, bail_if, >>=-eq-ok, ok, Result}

-- One operation, in any surroundings and whether it succeeds or not.
pub data Step (node : MeshNode) : MeshNode → Type 0 where
  pairs : (env : Env) (code : String) → Step node (pair_with_code env code node).0
  changes :
      (what : Change) (env : Env) (peer : String) → Step node (run_change what env peer node).0
  shares :
      (env : Env) (vram : Option String) (util : Option ℕ) (is_public : Bool)
      (region : Option String)
      → Step node (enable_share env vram util is_public region node).0
  stops : (env : Env) → Step node (disable_share env node).0
  shares_desktop : (env : Env) → Step node (enable_desktop_share env node).0
  shares_gpu : (env : Env) → Step node (enable_cuda_remote_share env node).0
  listens :
      (bind : Result (List String)) (lan : Option (List Discovered))
      → Step node (start_network bind lan node).0
  dials : (bind : Result (List String)) → Step node (ensure_dialer bind node).0
  accepts : (env : Env) (conn : Conn) → Step node (handle_inbound env node conn).0.0
  connects :
      (env : Env) (dial : List String → String → Result Conn) (peer : String)
      → Step node (connect_peer env dial peer node).0

-- The states after a start from the files.
pub data Reached (env : Env) (saved : Saved) : MeshNode → Type 0 where
  started : (node : MeshNode) → bootstrap env saved ≡ ok node → Reached env saved node
  next :
      {node node' : MeshNode} → Reached env saved node → Step node node' → Reached env saved node'

-- The peers in the file stand under their own identifiers.
abbrev pub AreFiled : Stored Peers → Type 0
AreFiled missing = Unit
AreFiled (unreadable e) = Unit
AreFiled (holds peers) = AreKeyed peers

read_peers-AreKeyed :
    (file : Stored Peers) (peers : Peers)
    → AreFiled file
    → read_or [] file ≡ ok peers
    → AreKeyed peers
read_peers-AreKeyed missing peers w h = subst AreKeyed (ok_inj h) tt
read_peers-AreKeyed (unreadable e) peers w h = absurd (ground arith)
read_peers-AreKeyed (holds m) peers w h = subst AreKeyed (ok_inj h) w

read_identity-holds :
    (file : Stored NodeIdentity) (id : NodeIdentity) → read_identity file ≡ ok id → file ≡ holds id
read_identity-holds missing id h = cc
read_identity-holds (unreadable e) id h = cc
read_identity-holds (holds i) id h = ap (λ (x : NodeIdentity). holds x) (ok_inj h)

bootstrap-IsSound :
    (env : Env) (saved : Saved) (node : MeshNode)
    → AreFiled saved.peers
    → bootstrap env saved ≡ ok node
    → IsSound node
unfolding bootstrap load_peers
bootstrap-IsSound env saved node w h =
    let (u0, e0, h0) = >>=-eq-ok env.ensure_dirs _ h in
    let (u1, e1, h1) = >>=-eq-ok (bail_if (is_missing saved.identity) not_initialized) _ h0 in
    let (id, e2, h2) = >>=-eq-ok (read_identity saved.identity) _ h1 in
    let (cfg, e3, h3) = >>=-eq-ok (load_config env saved) _ h2 in
    let (list, e4, h4) = >>=-eq-ok (load_allowlist saved) _ h3 in
    let (peers, e5, h5) = >>=-eq-ok (read_or [] saved.peers) _ h4 in
    subst IsSound (ok_inj h5) (record {
      clock = refl;
      desktop = λ e. absurd (ground arith);
      cuda = λ e. absurd (ground arith);
      keyed = read_peers-AreKeyed saved.peers peers w e5;
      own = read_identity-holds saved.identity id e2;
    })

start_network-IsSound :
    (bind : Result (List String)) (lan : Option (List Discovered)) (node : MeshNode)
    → IsSound node
    → IsSound (start_network bind lan node).0
unfolding start_network
start_network-IsSound bind lan node w = elim (Option-cases node.endpoint) [
  | inr (e, q) ↦ rw (q, start_network) w
  | inl q ↦ elim (Result-cases bind) [
    | inl (e, b) ↦ rw (q, b, start_network) w
    | inr (a, b) ↦
        rw (q, b, start_network)
          (record {
            clock = w.clock;
            desktop = w.desktop;
            cuda = w.cuda;
            keyed = w.keyed;
            own = w.own;
          })
  ]
]

ensure_dialer-IsSound :
    (bind : Result (List String)) (node : MeshNode)
    → IsSound node
    → IsSound (ensure_dialer bind node).0
unfolding ensure_dialer
ensure_dialer-IsSound bind node w = elim (Option-cases node.endpoint) [
  | inr (e, q) ↦ rw (q, ensure_dialer) w
  | inl q ↦ elim (Result-cases bind) [
    | inl (e, b) ↦ rw (q, b, ensure_dialer) w
    | inr (a, b) ↦
        rw (q, b, ensure_dialer)
          (record {
            clock = w.clock;
            desktop = w.desktop;
            cuda = w.cuda;
            keyed = w.keyed;
            own = w.own;
          })
  ]
]

Step-IsSound : {node node' : MeshNode} → Step node node' → IsSound node → IsSound node'
Step-IsSound {node} (pairs env code) w = pair_with_code-IsSound env code node w
Step-IsSound {node} (changes what env peer) w = run_change-IsSound what env peer node w
Step-IsSound {node} (shares env vram util is_public region) w =
    enable_share-IsSound env vram util is_public region node w
Step-IsSound {node} (stops env) w = disable_share-IsSound env node w
Step-IsSound {node} (shares_desktop env) w = enable_desktop_share-IsSound env node w
Step-IsSound {node} (shares_gpu env) w = enable_cuda_remote_share-IsSound env node w
Step-IsSound {node} (listens bind lan) w = start_network-IsSound bind lan node w
Step-IsSound {node} (dials bind) w = ensure_dialer-IsSound bind node w
Step-IsSound {node} (accepts env conn) w = handle_inbound-IsSound env node conn w
Step-IsSound {node} (connects env dial peer) w = connect_peer-IsSound env dial peer node w

-- In every state that a node comes to from its files, the time of sharing counts exactly while it
-- shares, desktops and GPUs are offered only as the configuration says, every peer stands under its
-- own identifier, and the identity is that of the file, if the peers of the file stand so.
pub Reached-IsSound :
    (env : Env) (saved : Saved) (node : MeshNode)
    → AreFiled saved.peers
    → Reached env saved node
    → IsSound node
Reached-IsSound env saved node w (started _ h) = bootstrap-IsSound env saved node w h
Reached-IsSound env saved _ w (next r s) = Step-IsSound s (Reached-IsSound env saved _ w r)
