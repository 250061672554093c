-- ===== src/Storage/Peers/Removal.antt =====
-- Look-ups and removals in `PeerStore` of crates/gpumesh-storage/src/store.rs.
use mathlib.Core.Path.{subst}
use gpu_share.Base.{
  find-eq-some, Option-cases, ◌⊎◌, true, ==_ne, str_iff, ◌∙◌, Bool-cases, find, String, Bool, false,
  none, some, [], ◌∷◌, inl, inr, ◌≡◌, refl, ap, sym, arith, if◌then◌else◌, ◌==◌, nat_eq, string_eq,
}
use gpu_share.Base.Map
use gpu_share.Base.Map.{Map}
use gpu_share.Storage.Peers.{
  answers_to, is_named, remove_peer, update, lookup, upsert, PeerRecord, Peers,
}

-- Every peer stands under its own identifier, and once.
abbrev pub AreKeyed : Peers → Type 0
AreKeyed [] = Unit
AreKeyed ((k, p) ∷ m) = (k ≡ p.node_id) × (Map.get k m ≡ none) × AreKeyed m

pub upsert-AreKeyed : (p : PeerRecord) (m : Peers) → AreKeyed m → AreKeyed (upsert p m)
unfolding upsert Map.insert Map.get
upsert-AreKeyed p [] w = (refl, refl, tt)
upsert-AreKeyed p ((k, q) ∷ m) (w1, w2, w3) = elim (Bool-cases (k == p.node_id)) [
  | inl y ↦
      let same : k ≡ p.node_id = (string_eq.beq_iff k p.node_id).0 y in
      rw y (refl, subst (λ (x : String). Map.get x m ≡ none) same w2, w3)
  | inr n ↦
      let apart : (p.node_id == k) ≡ false =
        ==_ne p.node_id k (λ e. ground (arith, str_iff k p.node_id, sym e)) in
      let absent : Map.get k (Map.insert p.node_id p m) ≡ none =
        Map.get-insert p.node_id k p m
        ∙ ap (λ (b : Bool). if b then some p else Map.get k m) apart
        ∙ w2 in
      rw n (w1, absent, upsert-AreKeyed p m w3)
]

-- A peer found among the values stands under its own identifier.
find-values :
    (t : PeerRecord → Bool) (m : Peers) (p : PeerRecord)
    → AreKeyed m
    → find t (Map.values m) ≡ some p
    → Map.get p.node_id m ≡ some p
unfolding Map.values Map.get
find-values t [] p w h = absurd (ground arith)
find-values t ((k, q) ∷ m) p (w1, w2, w3) h = elim (Bool-cases (t q)) [
  | inl y ↦
      let same : q ≡ p = some_inj q p (rw y at h) in
      let keyed : k ≡ p.node_id = w1 ∙ ap (λ (r : PeerRecord). r.node_id) same in
      rw ((str_iff k p.node_id).1 keyed) (ap some same)
  | inr n ↦
      let rest : Map.get p.node_id m ≡ some p = find-values t m p w3 (rw n at h) in
      elim (Bool-cases (k == p.node_id)) [
        | inr other ↦ rw other rest
        | inl y ↦
            let same : k ≡ p.node_id = (str_iff k p.node_id).0 y in
            absurd (clash (sym w2 ∙ subst (λ (x : String). Map.get x m ≡ some p) (sym same) rest))
      ]
]
  where
    some_inj : (a b : PeerRecord) → some a ≡ some b → a ≡ b
    some_inj a b e = cc

    clash : none ≡ some p → ⊥
    clash e = cc

get-node_id :
    (k : String) (m : Peers) (p : PeerRecord) → AreKeyed m → Map.get k m ≡ some p → p.node_id ≡ k
unfolding Map.get
get-node_id k [] p w h = absurd (ground arith)
get-node_id k ((j, q) ∷ m) p (w1, w2, w3) h = elim (Bool-cases (j == k)) [
  | inr n ↦ get-node_id k m p w3 (rw n at h)
  | inl y ↦
      let same : q ≡ p = some_inj q p (rw y at h) in
      let key : j ≡ k = (str_iff j k).0 y in
      ap (λ (r : PeerRecord). r.node_id) (sym same) ∙ sym w1 ∙ key
]
  where
    some_inj : (a b : PeerRecord) → some a ≡ some b → a ≡ b
    some_inj a b e = cc

lookup-get :
    (key : String) (m : Peers) (p : PeerRecord)
    → AreKeyed m
    → lookup key m ≡ some p
    → Map.get p.node_id m ≡ some p
unfolding lookup
lookup-get key m p w h = elim (Option-cases (Map.get key m)) [
  | inl unknown ↦ find-values (answers_to key) m p w (rw (unknown, lookup) at h)
  | inr (q, found) ↦
      let same : q ≡ p = some_inj q p (rw (found, lookup) at h) in
      let found' : Map.get key m ≡ some p = found ∙ ap some same in
      subst (λ (x : String). Map.get x m ≡ some p) (sym (get-node_id key m p w found')) found'
]
  where
    some_inj : (a b : PeerRecord) → some a ≡ some b → a ≡ b
    some_inj a b e = cc

-- In a store whose peers stand under their identifiers, a peer that a look-up finds, by identifier,
-- name or beginning of the identifier, is the one that a change through the same key replaces.
pub update_lem :
    (key : String) (change : PeerRecord → PeerRecord) (m : Peers) (p : PeerRecord)
    → AreKeyed m
    → lookup key m ≡ some p
    → update key change m ≡ some (Map.insert p.node_id (change p) m)
unfolding update
update_lem key change m p w h = rw (h, update) (rw (lookup-get key m p w h) refl)

-- What a removal did: it took off one peer, which had the key as its identifier or, but for case,
-- as its name, and no other; or it changed nothing, and no peer has that identifier or name.
abbrev pub IsRemoval : String → Peers → Bool × Peers → Type 0
IsRemoval key m (true, m') =
    (p : PeerRecord) × (Map.get p.node_id m ≡ some p)
    × ((p.node_id ≡ key) ⊎ (is_named key p ≡ true))
    × ((j : String) → Map.get j m' ≡ (if p.node_id == j then none else Map.get j m))
IsRemoval key m (false, m') =
    (m' ≡ m) × (Map.get key m ≡ none) × (find (is_named key) (Map.values m) ≡ none)

contained :
    (key : String) (m : Peers) (p : PeerRecord)
    → Map.get key m ≡ some p
    → Map.contains_key key m ≡ true
unfolding Map.contains_key
contained key m p h = rw h refl

absent : (key : String) (m : Peers) → Map.get key m ≡ none → Map.contains_key key m ≡ false
unfolding Map.contains_key
absent key m h = rw h refl

-- A removal from a store whose peers stand under their identifiers is an `IsRemoval`.
pub remove_peer-IsRemoval :
    (key : String) (m : Peers) → AreKeyed m → IsRemoval key m (remove_peer key m)
unfolding remove_peer
remove_peer-IsRemoval key m w = elim (Option-cases (Map.get key m)) [
  | inr (p, found) ↦
      let id : p.node_id ≡ key = get-node_id key m p w found in
      rw (contained key m p found, remove_peer)
        (
          p,
          subst (λ (x : String). Map.get x m ≡ some p) (sym id) found,
          inl id,
          λ j.
              Map.get-remove key j m
              ∙ ap (λ (x : String). if x == j then none else Map.get j m) (sym id),
        )
  | inl unknown ↦ elim (Option-cases (find (is_named key) (Map.values m))) [
    | inl none_named ↦
        rw (absent key m unknown, none_named, remove_peer) (refl, unknown, none_named)
    | inr (p, named) ↦
        let found : Map.get p.node_id m ≡ some p = find-values (is_named key) m p w named in
        rw (absent key m unknown, named, contained p.node_id m p found, remove_peer)
          (
            p,
            found,
            inr (find-eq-some (is_named key) (Map.values m) p named),
            λ j. Map.get-remove p.node_id j m,
          )
  ]
]

-- A change that leaves the identifier as it is keeps every peer under its own.
pub update-AreKeyed :
    (key : String) (change : PeerRecord → PeerRecord) (m m' : Peers)
    → ((p : PeerRecord) → (change p).node_id ≡ p.node_id)
    → AreKeyed m
    → update key change m ≡ some m'
    → AreKeyed m'
unfolding upsert update
update-AreKeyed key change m m' keeps w h = elim (Option-cases (lookup key m)) [
  | inl q ↦ absurd (ground (arith, rw (q, update) at h))
  | inr (p, q) ↦
      let made : Map.insert p.node_id (change p) m ≡ m' =
        some_same (sym (update_lem key change m p w q) ∙ h) in
      let under : AreKeyed (Map.insert (change p).node_id (change p) m) =
        upsert-AreKeyed (change p) m w in
      subst AreKeyed (ap (λ (k : String). Map.insert k (change p) m) (keeps p) ∙ made) under
]
  where
    some_same : {a b : Peers} → some a ≡ some b → a ≡ b
    some_same e = cc
