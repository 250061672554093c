-- ===== src/Storage/Groups/Changes.antt =====
-- The operations of crates/gpumesh-storage/src/groups.rs and the members of the groups.
use gpu_share.Storage.Groups.Members.{
  distinct-append, distinct-retain, distinct, any-retain, all_sound-insert, all_sound-remove,
  find-is_sound, all_sound, is_sound,
}
use gpu_share.Base.{
  ◌∙◌, any-append, Option-cases, str_iff, any, ==_refl, retain, Bool-cases, ==_ne, String, true,
  false, some, [], ◌∷◌, ◌++◌, inl, inr, ◌≡◌, ◌≢◌, refl, arith, ◌==◌, nat_eq, string_eq, ◌&&◌, ◌||◌,
  not,
}
use gpu_share.Common.{Result}
use gpu_share.Base.Map
use gpu_share.Base.Map.{Map}
use gpu_share.Base.Int.{ℤ}
use gpu_share.Storage.Groups.{
  has_id, upsert_group, create, contains_member, delete, remove_member, find_entry, add_member,
  new_group, Group, GroupMember, GroupRole, Groups,
}

sound_parts :
    (g : Group)
    → is_sound g ≡ true
    → (any (has_id g.owner_node_id) g.members ≡ true) × (distinct g.members ≡ true)
sound_parts g h = ground arith

module _ (lower : String → String) (save : Groups → Result (Unit {0})) where
  new_group_sound :
      (now : ℤ) (name owner_id owner_name : String)
      → is_sound (new_group lower save now name owner_id owner_name) ≡ true
  unfolding new_group
  new_group_sound now name owner_id owner_name = rw (==_refl owner_id) refl

  created :
      (now : ℤ) (name owner_id owner_name : String) (m : Groups)
      → all_sound m ≡ true
      → all_sound (create lower save now name owner_id owner_name m).1 ≡ true
  unfolding create
  created now name owner_id owner_name m w = elim (Bool-cases (Map.contains_key (lower name) m)) [
    | inl y ↦ rw (y, create) w
    | inr n ↦
        rw (n, create)
          (all_sound-insert (lower name) (new_group lower save now name owner_id owner_name) m
            (new_group_sound now name owner_id owner_name) w)
  ]

  joined_sound :
      (g : Group) (m : GroupMember)
      → is_sound g ≡ true
      → contains_member g m.node_id ≡ false
      → is_sound (record g { members = g.members ++ m ∷ [] }) ≡ true
  unfolding contains_member
  joined_sound g m h a =
      let (owned, single) = sound_parts g h in
      let owned' : any (has_id g.owner_node_id) (g.members ++ m ∷ []) ≡ true =
        any-append (has_id g.owner_node_id) g.members (m ∷ []) ∙ ground (arith, owned) in
      let single' : distinct (g.members ++ m ∷ []) ≡ true = distinct-append g.members m single a in
      ground (arith, owned', single')

  entry_sound :
      (name : String) (m : Groups) (k : String) (g : Group)
      → all_sound m ≡ true
      → find_entry lower save name m ≡ some (k, g)
      → is_sound g ≡ true
  unfolding find_entry
  entry_sound name m k g w h = find-is_sound _ m k g w h

  left_sound :
      (g : Group) (node_id : String)
      → is_sound g ≡ true
      → (g.owner_node_id == node_id) ≡ false
      → is_sound (record g { members = retain (λ x. not (has_id node_id x)) g.members }) ≡ true
  left_sound g node_id h n =
      let (owned, single) = sound_parts g h in
      let apart : (node_id == g.owner_node_id) ≡ false =
        ground (arith, str_iff node_id g.owner_node_id, str_iff g.owner_node_id node_id) in
      let owned' : any (has_id g.owner_node_id) (retain (λ x. not (has_id node_id x)) g.members)
          ≡ true =
        any-retain g.owner_node_id node_id g.members ∙ ground (arith, owned, apart) in
      let single' : distinct (retain (λ x. not (has_id node_id x)) g.members) ≡ true =
        distinct-retain node_id g.members single in
      ground (arith, owned', single')

  added :
      (now : ℤ) (group node_id node_name : String) (role : GroupRole) (m : Groups)
      → all_sound m ≡ true
      → all_sound (add_member lower save now group node_id node_name role m).1 ≡ true
  unfolding add_member
  added now group node_id node_name role m w = elim (Option-cases (find_entry lower save group m)) [
    | inl unknown ↦ rw (unknown, add_member) w
    | inr ((key, g), found) ↦ elim (Bool-cases (contains_member g node_id)) [
      | inl y ↦ rw (found, y, add_member) w
      | inr n ↦
          let joined : GroupMember = record {
            node_id = node_id;
            node_name = node_name;
            role = role;
            joined_at = now;
          } in
          rw (found, n, add_member)
            (all_sound-insert key (record g { members = g.members ++ joined ∷ [] }) m
              (joined_sound g joined (entry_sound group m key g w found) n) w)
    ]
  ]

  removed :
      (group node_id : String) (m : Groups)
      → all_sound m ≡ true
      → all_sound (remove_member lower save group node_id m).1 ≡ true
  unfolding remove_member
  removed group node_id m w = elim (Option-cases (find_entry lower save group m)) [
    | inl unknown ↦ rw (unknown, remove_member) w
    | inr ((key, g), found) ↦ elim (Bool-cases (g.owner_node_id == node_id)) [
      | inl y ↦ rw (found, y, remove_member) w
      | inr n ↦
          rw (found, n, remove_member)
            (all_sound-insert key
              (record g { members = retain (λ x. not (has_id node_id x)) g.members }) m
              (left_sound g node_id (entry_sound group m key g w found) n) w)
    ]
  ]

  deleted :
      (name : String) (m : Groups)
      → all_sound m ≡ true
      → all_sound (delete lower save name m).1 ≡ true
  unfolding delete
  deleted name m w = elim (Bool-cases (Map.contains_key (lower name) m)) [
    | inl y ↦ rw (y, delete) (all_sound-remove (lower name) m w)
    | inr n ↦ rw (n, delete) w
  ]

  -- The stores that the operations make, whether writing the file succeeds or not; a group that is
  -- put in whole, as an invitation does, is sound.
  pub data Reached : Groups → Type 0 where
    empty : Reached []
    creates :
        (now : ℤ) (name owner_id owner_name : String) (m : Groups)
        → Reached m
        → Reached (create lower save now name owner_id owner_name m).1
    adds :
        (now : ℤ) (group node_id node_name : String) (role : GroupRole) (m : Groups)
        → Reached m
        → Reached (add_member lower save now group node_id node_name role m).1
    removes :
        (group node_id : String) (m : Groups)
        → Reached m
        → Reached (remove_member lower save group node_id m).1
    deletes : (name : String) (m : Groups) → Reached m → Reached (delete lower save name m).1
    upserts :
        (g : Group) (m : Groups)
        → is_sound g ≡ true
        → Reached m
        → Reached (upsert_group lower save g m).1

  -- In every store that the operations make, each group has its owner among its members and no
  -- node twice, if the groups that are put in whole do.
  pub Reached-all_sound : (m : Groups) → Reached m → all_sound m ≡ true
  unfolding upsert_group
  Reached-all_sound _ empty = refl
  Reached-all_sound _ (creates now name owner_id owner_name m r) =
      created now name owner_id owner_name m (Reached-all_sound m r)
  Reached-all_sound _ (adds now group node_id node_name role m r) =
      added now group node_id node_name role m (Reached-all_sound m r)
  Reached-all_sound _ (removes group node_id m r) = removed group node_id m (Reached-all_sound m r)
  Reached-all_sound _ (deletes name m r) = deleted name m (Reached-all_sound m r)
  Reached-all_sound _ (upserts g m h r) =
      all_sound-insert (lower g.name) g m h (Reached-all_sound m r)

  -- A node other than the owner is removed from a group that the store has under the key that the
  -- name leads to: the stored group then has the members that it had, without that node.
  pub remove_member_lem :
      (name node_id key : String) (g : Group) (m : Groups)
      → find_entry lower save name m ≡ some (key, g)
      → g.owner_node_id ≢ node_id
      → (kept : Group) × (Map.get key (remove_member lower save name node_id m).1 ≡ some kept)
        × ((x : String) → contains_member kept x ≡ (contains_member g x && not (node_id == x)))
  unfolding remove_member contains_member
  remove_member_lem name node_id key g m found other =
      let apart : (g.owner_node_id == node_id) ≡ false = ==_ne g.owner_node_id node_id other in
      let kept : Group = record g { members = retain (λ x. not (has_id node_id x)) g.members } in
      (
        kept,
        rw (found, apart, remove_member) (Map.get-insert_self key kept m),
        λ x. any-retain x node_id g.members,
      )

  -- A node that is added to a group that the store has is among the stored group's members, with
  -- those that it had and no others; this holds whether it was a member before or not.
  pub add_member_lem :
      (now : ℤ) (name node_id node_name key : String) (role : GroupRole) (g : Group) (m : Groups)
      → find_entry lower save name m ≡ some (key, g)
      → Map.get key m ≡ some g
      → (grown : Group) × (Map.get key (add_member lower save now name node_id node_name role m).1
          ≡ some grown)
        × ((x : String) → contains_member grown x ≡ (contains_member g x || node_id == x))
  unfolding add_member contains_member
  add_member_lem now name node_id node_name key role g m found stored =
      elim (Bool-cases (contains_member g node_id)) [
        | inl y ↦ (g, rw (found, y, add_member) stored, λ x. ground (arith, y, str_iff node_id x))
        | inr n ↦
            let joined : GroupMember = record {
              node_id = node_id;
              node_name = node_name;
              role = role;
              joined_at = now;
            } in
            let grown : Group = record g { members = g.members ++ joined ∷ [] } in
            (
              grown,
              rw (found, n, add_member) (Map.get-insert_self key grown m),
              λ x. any-append (has_id x) g.members (joined ∷ []) ∙ ground arith,
            )
      ]
