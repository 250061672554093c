-- ===== src/Storage/Groups/Members.antt =====
-- The members of the groups of crates/gpumesh-storage/src/groups.rs.
use gpu_share.Base.{
  any-append, str_iff, ◌∙◌, Bool-cases, retain, any, find, String, Bool, true, false, some, List,
  [], ◌∷◌, ◌++◌, inl, inr, ◌≡◌, refl, ap, sym, arith, ◌==◌, nat_eq, string_eq, ◌&&◌, not,
}
use gpu_share.Base.Map
use gpu_share.Base.Map.{Map}
use gpu_share.Storage.Groups.{has_id, Group, GroupMember, Groups}

-- No node is in the list twice.
abbrev pub distinct : List GroupMember → Bool
distinct [] = true
distinct (m ∷ ms) = not (any (has_id m.node_id) ms) && distinct ms

-- A group has its owner among its members, and no member twice.
abbrev pub is_sound : Group → Bool
is_sound g = any (has_id g.owner_node_id) g.members && distinct g.members

abbrev pub all_sound : Groups → Bool
all_sound [] = true
all_sound ((k, g) ∷ m) = is_sound g && all_sound m

pub distinct-append :
    (ms : List GroupMember) (m : GroupMember)
    → distinct ms ≡ true
    → any (has_id m.node_id) ms ≡ false
    → distinct (ms ++ m ∷ []) ≡ true
distinct-append [] m h a = refl
distinct-append (x ∷ ms) m h a =
    let rest : distinct (ms ++ m ∷ []) ≡ true =
      distinct-append ms m (ground arith) (ground arith) in
    let apart : (x.node_id == m.node_id) ≡ false = ground arith in
    let apart' : (m.node_id == x.node_id) ≡ false =
      ground (arith, str_iff m.node_id x.node_id, str_iff x.node_id m.node_id) in
    let fresh : any (has_id x.node_id) (ms ++ m ∷ []) ≡ false =
      any-append (has_id x.node_id) ms (m ∷ []) ∙ ground (arith, h, apart') in
    ground (arith, rest, fresh)

pub any-retain :
    (node_id other_id : String) (ms : List GroupMember)
    → any (has_id node_id) (retain (λ m. not (has_id other_id m)) ms)
      ≡ (any (has_id node_id) ms && not (other_id == node_id))
any-retain node_id other_id [] = refl
any-retain node_id other_id (m ∷ ms) = ground (
  arith,
  any-retain node_id other_id ms,
  str_iff m.node_id node_id,
  str_iff m.node_id other_id,
  str_iff other_id node_id,
)

pub distinct-retain :
    (other_id : String) (ms : List GroupMember)
    → distinct ms ≡ true
    → distinct (retain (λ m. not (has_id other_id m)) ms) ≡ true
distinct-retain other_id [] h = refl
distinct-retain other_id (m ∷ ms) h =
    let rest : distinct (retain (λ m. not (has_id other_id m)) ms) ≡ true =
      distinct-retain other_id ms (ground arith) in
    ground (arith, rest, any-retain m.node_id other_id ms, h)

pub all_sound-insert :
    (k : String) (g : Group) (m : Groups)
    → is_sound g ≡ true
    → all_sound m ≡ true
    → all_sound (Map.insert k g m) ≡ true
unfolding Map.insert
all_sound-insert k g [] h w = ground (arith, h)
all_sound-insert k g ((j, x) ∷ m) h w = elim (Bool-cases (j == k)) [
  | inl y ↦ rw y (ground (arith, h, w))
  | inr n ↦ rw n (ground (arith, w, all_sound-insert k g m h))
]

pub all_sound-remove :
    (k : String) (m : Groups) → all_sound m ≡ true → all_sound (Map.remove k m) ≡ true
unfolding Map.remove
all_sound-remove k [] w = refl
all_sound-remove k ((j, x) ∷ m) w = elim (Bool-cases (j == k)) [
  | inl y ↦ rw y (all_sound-remove k m (ground arith))
  | inr n ↦ rw n (ground (arith, w, all_sound-remove k m))
]

pub find-is_sound :
    (t : String × Group → Bool) (m : Groups) (k : String) (g : Group)
    → all_sound m ≡ true
    → find t m ≡ some (k, g)
    → is_sound g ≡ true
find-is_sound t [] k g w h = absurd (ground arith)
find-is_sound t ((j, x) ∷ m) k g w h = elim (Bool-cases (t (j, x))) [
  | inl y ↦
      let same : x ≡ g = some_inj (j, x) (k, g) (rw y at h) in ap is_sound (sym same) ∙ ground arith
  | inr n ↦ find-is_sound t m k g (ground arith) (rw n at h)
]
  where
    some_inj : (a b : String × Group) → some a ≡ some b → a.1 ≡ b.1
    some_inj a b e = cc
