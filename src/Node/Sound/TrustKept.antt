-- ===== src/Node/Sound/TrustKept.antt =====
-- Pairing and the changes of the allow list keep a node of crates/gpumesh-core/src/node.rs sound.
use gpu_share.Security.AllowList.{allow}
use gpu_share.Storage.Peers.Removal.{upsert-AreKeyed}
use gpu_share.Storage.Peers.{upsert, PeerRecord}
use mathlib.Core.Path.{subst}
use gpu_share.Security.Pairing.{decode_code}
use gpu_share.Node.Sound.{with_peers-IsSound, change_list-IsSound, and_then-IsSound, IsSound}
use gpu_share.Node.{save_peers, on_files, MeshNode, Env}
use gpu_share.Node.Trust.Restart.{change_of, run_change_lem, run_change, Change}
use gpu_share.Node.Trust.{change_list, record_of, resolve, pair_with_code}
use gpu_share.Base.{String, sym, nat_eq, string_eq}
use gpu_share.Common.{Result}

pub run_change-IsSound :
    (what : Change) (env : Env) (peer : String) (node : MeshNode)
    → IsSound node
    → IsSound (run_change what env peer node).0
run_change-IsSound what env peer node w =
    subst (λ (r : MeshNode × Result (Unit {0})). IsSound r.0)
      (sym (run_change_lem what env peer node))
      (and_then-IsSound (node, resolve peer node) _ w
        (λ s id q v. change_list-IsSound env (λ l. change_of what l id) s v))

pub pair_with_code-IsSound :
    (env : Env) (code : String) (node : MeshNode)
    → IsSound node
    → IsSound (pair_with_code env code node).0
unfolding pair_with_code
pair_with_code-IsSound env code node w =
    and_then-IsSound (node, decode_code env.crypto env.pairing_json env.now code) _ w
      λ s payload q v.
        let rec : PeerRecord = record_of env.now payload in
        and_then-IsSound
          (on_files (save_peers env (upsert rec s.peers)) (record s { peers = upsert rec s.peers }))
          _ (with_peers-IsSound env (upsert rec s.peers) s (upsert-AreKeyed rec s.peers v.keyed) v)
          λ s1 u q1 v1.
            and_then-IsSound (change_list env (λ l. allow l rec.node_id) s1) _
              (change_list-IsSound env (λ l. allow l rec.node_id) s1 v1) (λ s2 u2 q2 v2. v2)
