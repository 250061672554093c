-- ===== src/Dashboard/Access.antt =====
-- Changes of trust through the local server of crates/gpumesh-control/src/local.rs.
use gpu_share.Storage.Peers.{lookup, PeerRecord}
use gpu_share.Node.{bootstrap, MeshNode, Env}
use gpu_share.Dashboard.{
  Response, require_auth, authorized, answer, on_node, deny_handler, Local, allow_cuda_handler,
  allow_desktop_handler, allow_handler,
}
use gpu_share.Node.Trust.Restart.{
  denies, allows_gpu_remote, allows_desktop, allows, bootstrap-run_change, run_change_unknown,
  change_of, run_change, Change,
}
use gpu_share.Base.{
  Option-cases, ◌∙◌, Bool-cases, String, true, Option, some, inl, inr, ◌≡◌, refl, ap, sym, arith,
  nat_eq, string_eq,
}
use gpu_share.Common.{Result-cases, ok, Result}

-- The four handlers, behind the check of the token.
abbrev pub handler : Change → Env → String → Local → Local × Response String
handler allows env peer local = allow_handler env peer local
handler allows_desktop env peer local = allow_desktop_handler env peer local
handler allows_gpu_remote env peer local = allow_cuda_handler env peer local
handler denies env peer local = deny_handler env peer local

abbrev pub post_change :
    Option String → Option String → Change → Env → String → Local → Local × Response String
post_change token header what env peer local =
    require_auth token header local (handler what env peer local)

handler_lem :
    (what : Change) (env : Env) (peer : String) (local : Local)
    → handler what env peer local ≡ on_node env (λ _. peer) (run_change what env peer) local
unfolding allow_handler allow_desktop_handler allow_cuda_handler deny_handler
handler_lem allows env peer local = refl
handler_lem allows_desktop env peer local = refl
handler_lem allows_gpu_remote env peer local = refl
handler_lem denies env peer local = refl

-- What a change that is answered did: the request had the token, the node started, the peer is the
-- one that its store finds, and the next start has the changed list.
pub record IsChanged (what : Change) (env later : Env) (peer : String) (local local' : Local)
    : Type 0 where
  node : MeshNode
  started_as : bootstrap env local.saved ≡ ok node
  peer_record : PeerRecord
  found : lookup peer node.peers ≡ some peer_record
  next_list :
      (again : MeshNode)
      → bootstrap later local'.saved ≡ ok again
      → again.allowlist ≡ change_of what node.allowlist peer_record.node_id

on_node-answer :
    (what : Change) (env later : Env) (peer p : String) (local local' : Local)
    → on_node env (λ _. peer) (run_change what env peer) local ≡ (local', answer p)
    → IsChanged what env later peer local local'
on_node-answer what env later peer p local local' h =
    elim (Result-cases (bootstrap env local.saved)) [
      | inl (e, q) ↦ absurd (ground (arith, ap reply_of (rw q at h)))
      | inr (node, q) ↦ elim (Result-cases (run_change what env peer node).1) [
        | inl (e, r) ↦ absurd (ground (arith, ap reply_of (rw (q, r) at h)))
        | inr (u, r) ↦
            let whole : run_change what env peer node ≡ ((run_change what env peer node).0, ok tt) =
              ap (λ x. ((run_change what env peer node).0, x)) r in
            let files : (run_change what env peer node).0.saved ≡ local'.saved =
              ap (λ (x : Local × Response String). x.0.saved) (rw q at h) in
            let (rec, found) = resolved_record what env peer node _ whole in
            record {
              node = node;
              started_as = q;
              peer_record = rec;
              found = found;
              next_list = λ again b.
                  next what env later peer node _ again rec whole found
                    (ap (bootstrap later) files ∙ b);
            }
      ]
    ]
  where
    reply_of : Local × Response String → Response String
    reply_of x = x.1

    resolved_record :
        (what : Change) (env : Env) (peer : String) (node node' : MeshNode)
        → run_change what env peer node ≡ (node', ok tt)
        → (r : PeerRecord) × (lookup peer node.peers ≡ some r)
    resolved_record what env peer node node' h = elim (Option-cases (lookup peer node.peers)) [
      | inr (r, q) ↦ (r, q)
      | inl q ↦ absurd (
          ground (
            arith,
            run_change_unknown what env peer node q,
            ap (λ (x : MeshNode × Result (Unit {0})). x.1) h,
          ))
    ]

    next :
        (what : Change) (env later : Env) (peer : String) (node node' again : MeshNode)
        (rec : PeerRecord)
        → run_change what env peer node ≡ (node', ok tt)
        → lookup peer node.peers ≡ some rec
        → bootstrap later node'.saved ≡ ok again
        → again.allowlist ≡ change_of what node.allowlist rec.node_id
    next what env later peer node node' again rec h f b =
        let (r, found, changed, kept) =
          bootstrap-run_change what env later peer node node' again h b in
        let both : some r ≡ some rec = sym found ∙ f in
        let same : r ≡ rec = cc in
        kept ∙ changed ∙ ap (λ (x : PeerRecord). change_of what node.allowlist x.node_id) same

-- A change of the list that the server answers came with the token, if the server has one, and is
-- what the next start of the node finds, for the peer that the store finds under the name given.
pub post_change-IsChanged :
    (token header : Option String) (what : Change) (env later : Env) (peer p : String)
    (local local' : Local)
    → post_change token header what env peer local ≡ (local', answer p)
    → (authorized token header ≡ true) × IsChanged what env later peer local local'
post_change-IsChanged token header what env later peer p local local' h =
    elim (Bool-cases (authorized token header)) [
      | inr n ↦ absurd (ground (arith, ap (λ (x : Local × Response String). x.1) (rw n at h)))
      | inl y ↦ (
        y,
        on_node-answer what env later peer p local local'
            (sym (handler_lem what env peer local) ∙ rw y at h),
      )
    ]
