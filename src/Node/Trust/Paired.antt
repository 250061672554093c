-- ===== src/Node/Trust/Paired.antt =====
-- What pairing in crates/gpumesh-core/src/node.rs establishes.
use mathlib.Core.Path.{subst}
use gpu_share.Node.Trust.Restart.{bootstrap-allowlist, change_list_lem}
use gpu_share.Security.Crypto.{node_id_from_public_hex, verify_signature}
use gpu_share.Base.Map.{get-insert_self}
use gpu_share.Security.Pairing.Exchange.{decode_code_sound, pairing_window}
use gpu_share.Base.Set.{contains-insert, contains-remove}
use gpu_share.Security.Pairing.{canonical_pairing_bytes, decode_code, PairingPayload}
use gpu_share.Security.AllowList.{AllowList, allow, is_allowed}
use gpu_share.Node.{holds, bootstrap, MeshNode, save_peers, Env}
use gpu_share.Storage.Peers.{Peers, PeerRecord, upsert, lookup}
use gpu_share.Node.Greeting.{is_permitted}
use gpu_share.Node.Trust.{change_list, pair_with_code, record_of}
use gpu_share.Base.{
  ◌∙◌, ==_refl, String, true, some, inl, inr, ◌≡◌, refl, ap, sym, arith, nat_eq, string_eq,
}
use gpu_share.Common.{Result-cases, ok_inj, and_then-eq-ok, and_then, ok, Result}

-- A pairing that succeeds read the code, stored the peer and allowed it.
pub pair_with_code-eq-ok :
    (env : Env) (code : String) (node node' : MeshNode) (rec : PeerRecord)
    → pair_with_code env code node ≡ (node', ok rec)
    → (p : PairingPayload) × (decode_code env.crypto env.pairing_json env.now code ≡ ok p)
      × (rec ≡ record_of env.now p)
      × (node' ≡ record node {
        peers = upsert rec node.peers;
        allowlist = allow node.allowlist rec.node_id;
        saved = record node.saved {
          peers = holds (upsert rec node.peers);
          allowlist = holds (allow node.allowlist rec.node_id);
        };
      })
unfolding pair_with_code save_peers change_list
pair_with_code-eq-ok env code node node' rec h =
    elim (Result-cases (decode_code env.crypto env.pairing_json env.now code)) [
      | inl (e, q) ↦ absurd (ground (arith, ap answer (rw (q, pair_with_code) at h)))
      | inr (p, q) ↦ elim (Result-cases env.write_peers) [
        | inl (e, w) ↦
            absurd (ground (arith, ap answer (rw (q, w, pair_with_code, save_peers) at h)))
        | inr (u, w) ↦ stored p q (rw (q, w, pair_with_code, save_peers) at h)
      ]
    ]
  where
    answer : MeshNode × Result PeerRecord → Result PeerRecord
    answer r = r.1

    with_peer : PeerRecord → MeshNode
    with_peer r = record node {
      peers = upsert r node.peers;
      saved = record node.saved { peers = holds (upsert r node.peers) };
    }

    stored :
        (p : PairingPayload)
        → decode_code env.crypto env.pairing_json env.now code ≡ ok p
        → and_then
            (change_list env
              (λ l. allow l (record_of env.now p).node_id)
              (with_peer (record_of env.now p)))
            (λ s2 _. (s2, ok (record_of env.now p)))
          ≡ (node', ok rec)
        → (p : PairingPayload) × (decode_code env.crypto env.pairing_json env.now code ≡ ok p)
          × (rec ≡ record_of env.now p)
          × (node' ≡ record node {
            peers = upsert rec node.peers;
            allowlist = allow node.allowlist rec.node_id;
            saved = record node.saved {
              peers = holds (upsert rec node.peers);
              allowlist = holds (allow node.allowlist rec.node_id);
            };
          })
    stored p q k =
        let r0 : PeerRecord = record_of env.now p in
        let (s, u, e, f) =
          and_then-eq-ok (change_list env (λ l. allow l r0.node_id) (with_peer r0))
            (λ s2 _. (s2, ok r0)) node' rec k in
        let same : r0 ≡ rec = ok_inj (ap answer f) in
        let after : s ≡ node' = ap (λ (r : MeshNode × Result PeerRecord). r.0) f in
        (
          p,
          q,
          sym same,
          rw (← same, ← after) (change_list_lem env (λ l. allow l r0.node_id) (with_peer r0) s e),
        )

pub allow-is_permitted : (l : AllowList) (id : String) → is_permitted (allow l id) id ≡ true
unfolding is_permitted is_allowed allow
allow-is_permitted l id =
    ground (arith, contains-remove id id l.denied, contains-insert id id l.allowed, ==_refl id)

pub lookup-upsert : (r : PeerRecord) (peers : Peers) → lookup r.node_id (upsert r peers) ≡ some r
unfolding lookup upsert
lookup-upsert r peers = rw (get-insert_self r.node_id r peers, lookup) refl

-- A pairing that succeeds was made from a code of the last hour, which the key in it signs and
-- whose node is that of the key. The peer is then the one that the store finds under its
-- identifier, with that key, it has a grant, and the next start of the node finds both.
pub pair_with_code_sound :
    (env later : Env) (code : String) (node node' again : MeshNode) (rec : PeerRecord)
    → pair_with_code env code node ≡ (node', ok rec)
    → bootstrap later node'.saved ≡ ok again
    → (p : PairingPayload) × (pairing_window env.now p.issued_at ≡ true)
      × (verify_signature env.crypto rec.public_key_hex
            (canonical_pairing_bytes env.crypto env.pairing_json p)
            p.signature
          ≡ ok tt)
      × (node_id_from_public_hex env.crypto rec.public_key_hex ≡ ok rec.node_id)
      × (lookup rec.node_id node'.peers ≡ some rec)
      × (is_permitted node'.allowlist rec.node_id ≡ true)
      × (is_permitted again.allowlist rec.node_id ≡ true)
unfolding record_of
pair_with_code_sound env later code node node' again rec h b =
    let (p, d, r, after) = pair_with_code-eq-ok env code node node' rec h in
    let (fresh, signed, names) = decode_code_sound env.crypto env.pairing_json env.now code p d in
    let key : p.public_key_hex ≡ rec.public_key_hex =
      ap (λ (q : PeerRecord). q.public_key_hex) (sym r) in
    let id : p.node_id ≡ rec.node_id = ap (λ (q : PeerRecord). q.node_id) (sym r) in
    let list : node'.allowlist ≡ allow node.allowlist rec.node_id =
      ap (λ (n : MeshNode). n.allowlist) after in
    let grant : is_permitted (allow node.allowlist rec.node_id) rec.node_id ≡ true =
      allow-is_permitted node.allowlist rec.node_id in
    let kept : again.allowlist ≡ allow node.allowlist rec.node_id =
      bootstrap-allowlist later node'.saved _ again (ap (λ (n : MeshNode). n.saved.allowlist) after)
        b in
    (
      p,
      fresh,
      subst
          (λ (k : String).
            verify_signature env.crypto k (canonical_pairing_bytes env.crypto env.pairing_json p)
              p.signature
            ≡ ok tt)
          key signed,
      ap (node_id_from_public_hex env.crypto) (sym key) ∙ names ∙ ap (λ (i : String). ok i) id,
      ap (λ (n : MeshNode). lookup rec.node_id n.peers) after ∙ lookup-upsert rec node.peers,
      ap (λ (l : AllowList). is_permitted l rec.node_id) list ∙ grant,
      ap (λ (l : AllowList). is_permitted l rec.node_id) kept ∙ grant,
    )
