-- ===== src/Node/Trust/Restart.antt =====
-- What a change of the allow list in crates/gpumesh-core/src/node.rs leaves for the next start.
use gpu_share.Storage.Peers.{lookup, PeerRecord}
use gpu_share.Node.{
  load_peers, read_or, load_config, read_identity, is_missing, holds, Saved, MeshNode,
  save_allowlist, load_allowlist, Env, bootstrap,
}
use gpu_share.Node.Trust.{
  deny_peer, allow_gpu_remote_peer, allow_desktop_peer, allow_peer, change_list, resolve,
}
use gpu_share.Security.AllowList.{default, deny, allow_gpu_remote, allow_desktop, allow, AllowList}
use gpu_share.Base.{
  none, ◌∙◌, Option-cases, String, some, inl, inr, ◌≡◌, refl, ap, sym, arith, nat_eq, string_eq,
}
use gpu_share.Common.{
  peer_not_found, err, not_initialized, ok_inj, and_then, bail_if, and_then-eq-ok, Result-cases,
  >>=-eq-ok, ok, ◌>>◌, Result,
}

-- The four operations, and what each does to the list.
pub data Change : Type 0 where
  allows allows_desktop allows_gpu_remote denies : Change

abbrev pub change_of : Change → AllowList → String → AllowList
change_of allows l id = allow l id
change_of allows_desktop l id = allow_desktop l id
change_of allows_gpu_remote l id = allow_gpu_remote l id
change_of denies l id = deny l id

abbrev pub run_change : Change → Env → String → MeshNode → MeshNode × Result (Unit {0})
run_change allows env peer node = allow_peer env peer node
run_change allows_desktop env peer node = allow_desktop_peer env peer node
run_change allows_gpu_remote env peer node = allow_gpu_remote_peer env peer node
run_change denies env peer node = deny_peer env peer node

-- All four resolve the peer and change the list.
pub run_change_lem :
    (what : Change) (env : Env) (peer : String) (node : MeshNode)
    → run_change what env peer node
      ≡ and_then (node, resolve peer node) (λ s id. change_list env (λ l. change_of what l id) s)
unfolding allow_peer allow_desktop_peer allow_gpu_remote_peer deny_peer
run_change_lem allows env peer node = refl
run_change_lem allows_desktop env peer node = refl
run_change_lem allows_gpu_remote env peer node = refl
run_change_lem denies env peer node = refl

-- A change that succeeds has changed the list, saved it, and nothing else.
pub change_list_lem :
    (env : Env) (change : AllowList → AllowList) (node node' : MeshNode)
    → change_list env change node ≡ (node', ok tt)
    → node' ≡ record node {
      allowlist = change node.allowlist;
      saved = record node.saved { allowlist = holds (change node.allowlist) };
    }
unfolding change_list save_allowlist
change_list_lem env change node node' h =
    elim (Result-cases (env.ensure_dirs >> env.write_allowlist)) [
      | inl (e, q) ↦ absurd (
          ground (
            arith,
            ap (λ (r : MeshNode × Result (Unit {0})). r.1)
                (rw (q, change_list, save_allowlist) at h),
          ))
      | inr (u, q) ↦ sym (
          ap (λ (r : MeshNode × Result (Unit {0})). r.0) (rw (q, change_list, save_allowlist) at h))
    ]

resolve-eq-ok :
    (peer : String) (node : MeshNode) (id : String)
    → resolve peer node ≡ ok id
    → (r : PeerRecord) × (lookup peer node.peers ≡ some r) × (r.node_id ≡ id)
unfolding resolve
resolve-eq-ok peer node id h = elim (Option-cases (lookup peer node.peers)) [
  | inl q ↦ absurd (ground (arith, rw (q, resolve) at h))
  | inr (r, q) ↦ (r, q, ok_inj (rw (q, resolve) at h))
]

pub bootstrap-allowlist :
    (env : Env) (saved : Saved) (l : AllowList) (node : MeshNode)
    → saved.allowlist ≡ holds l
    → bootstrap env saved ≡ ok node
    → node.allowlist ≡ l
unfolding bootstrap load_allowlist
bootstrap-allowlist env saved l node e h =
    let (u0, e0, h0) = >>=-eq-ok env.ensure_dirs _ h in
    let (u1, e1, h1) = >>=-eq-ok (bail_if (is_missing saved.identity) not_initialized) _ h0 in
    let (u2, e2, h2) = >>=-eq-ok (read_identity saved.identity) _ h1 in
    let (u3, e3, h3) = >>=-eq-ok (load_config env saved) _ h2 in
    let (list, e4, h4) = >>=-eq-ok (read_or default saved.allowlist) _ h3 in
    let (u5, e5, h5) = >>=-eq-ok (load_peers saved) _ h4 in
    ap (λ (n : MeshNode). n.allowlist) (sym (ok_inj h5))
    ∙ sym (ok_inj (ap (read_or default) (sym e) ∙ e4))

-- A change of the list for a peer that succeeds is one for the peer that the store finds under the
-- name given, and the next start of the node has the changed list.
pub bootstrap-run_change :
    (what : Change) (env later : Env) (peer : String) (node node' again : MeshNode)
    → run_change what env peer node ≡ (node', ok tt)
    → bootstrap later node'.saved ≡ ok again
    → (r : PeerRecord) × (lookup peer node.peers ≡ some r)
      × (node'.allowlist ≡ change_of what node.allowlist r.node_id)
      × (again.allowlist ≡ node'.allowlist)
bootstrap-run_change what env later peer node node' again h b =
    let (s, id, e, k) =
      and_then-eq-ok (node, resolve peer node)
        (λ s id. change_list env (λ l. change_of what l id) s) node' tt
        (sym (run_change_lem what env peer node) ∙ h) in
    let same : node ≡ s = ap (λ (r : MeshNode × Result String). r.0) e in
    let (r, found, named_) =
      resolve-eq-ok peer node id (ap (λ (r : MeshNode × Result String). r.1) e) in
    let after = change_list_lem env (λ l. change_of what l id) s node' k in
    let list : node'.allowlist ≡ change_of what node.allowlist r.node_id =
      ap (λ (n : MeshNode). n.allowlist) after
      ∙ ap (λ (n : MeshNode). change_of what n.allowlist id) (sym same)
      ∙ ap (change_of what node.allowlist) (sym named_) in
    (
      r,
      found,
      list,
      bootstrap-allowlist later node'.saved node'.allowlist again
          (ap (λ (n : MeshNode). n.saved.allowlist) after
            ∙ ap (λ (n : MeshNode). holds n.allowlist) (sym after))
          b,
    )

-- A name that the store does not find is an error.
pub run_change_unknown :
    (what : Change) (env : Env) (peer : String) (node : MeshNode)
    → lookup peer node.peers ≡ none
    → (run_change what env peer node).1 ≡ err (peer_not_found peer)
unfolding resolve
run_change_unknown what env peer node q =
    ap (λ (x : MeshNode × Result (Unit {0})). x.1) (run_change_lem what env peer node)
    ∙ rw (q, resolve) refl
