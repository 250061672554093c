-- ===== src/Storage/Groups.antt =====
-- `GroupStore` of crates/gpumesh-storage/src/groups.rs: the map from names in lower case to groups.
-- The lower case of a text, by Unicode's tables, and the writing of the file are parameters; the
-- time is an argument, in seconds, and is read once in an operation. An operation that fails to
-- write its file has still changed the map, so the new map stands beside the result.
pub mod Members
pub mod Changes
mod Tests
use gpu_share.Base.{
  retain, or_else, any, find, ℕ, zero, suc, String, Bool, true, false, Option, none, some, List, [],
  ◌∷◌, ◌++◌, inl, inr, ◌≡◌, ◌≢◌, refl, ap, sym, arith, if◌then◌else◌, ◌==◌, nat_eq, string_eq, ◌+◌,
  ◌-◌, ◌*◌, ◌≤◌, ◌<◌, min, max, ◌&&◌, ◌||◌, not, ◌&◌, ◌⊎◌, ◌↔◌, length,
}
use gpu_share.Common.{GpuMeshError, other, ok, err, ◌>>=◌, ◌>>◌, Result}
use gpu_share.Base.Map
use gpu_share.Base.Map.{Map}
use gpu_share.Base.Int.{ℤ}

pub data GroupRole : Type 0 where
  owner member : GroupRole

pub record GroupMember : Type 0 where
  pub node_id : String
  pub node_name : String
  pub role : GroupRole
  pub joined_at : ℤ

pub record Group : Type 0 where
  pub id : String
  pub name : String
  pub owner_node_id : String
  pub created_at : ℤ
  pub members : List GroupMember

abbrev pub Groups : Type 0
Groups = Map String Group

abbrev pub has_id : String → GroupMember → Bool
has_id node_id m = m.node_id == node_id

-- `Group::contains`.
unfoldable pub contains_member : Group → String → Bool
contains_member g node_id = any (has_id node_id) g.members

unfoldable pub member_ids : List GroupMember → List String
member_ids [] = []
member_ids (m ∷ ms) = m.node_id ∷ member_ids ms

-- The first characters of a text; identifiers are hexadecimal, so characters are bytes.
text_prefix : ℕ → String → String
text_prefix zero s = String.[]
text_prefix (suc n) String.[] = String.[]
text_prefix (suc n) (String.◌∷◌ c s) = String.◌∷◌ c (text_prefix n s)

abbrev not_found : String → GpuMeshError
not_found name = other ("group not found: " & name)

module _ (lower : String → String) (save : Groups → Result (Unit {0})) where
  unfoldable pub new_group : ℤ → String → String → String → Group
  unfolding text_prefix
  new_group now name owner_id owner_name = record {
    id = "grp-" & text_prefix 8 owner_id & "-" & lower name;
    name = name;
    owner_node_id = owner_id;
    created_at = now;
    members =
        record { node_id = owner_id; node_name = owner_name; role = owner; joined_at = now } ∷ [];
  }

  unfoldable pub create : ℤ → String → String → String → Groups → Result Group × Groups
  create now name owner_id owner_name groups =
      if Map.contains_key (lower name) groups
      then (err (other ("group already exists: " & name)), groups)
      else let group = new_group now name owner_id owner_name in
        let groups' = Map.insert (lower name) group groups in (save groups' >> ok group, groups')

  abbrev is_called : String → Group → Bool
  is_called name g = g.id == name || g.name == name

  unfoldable pub get_group : String → Groups → Option Group
  get_group name groups =
      or_else (Map.get (lower name) groups) (find (is_called name) (Map.values groups))

  -- The entry that `get_mut` finds: the first one with the key, the identifier or the name.
  unfoldable pub find_entry : String → Groups → Option (String × Group)
  find_entry name groups = find (λ e. e.0 == lower name || is_called name e.1) groups

  unfoldable pub add_member :
      ℤ → String → String → String → GroupRole → Groups → Result (Unit {0}) × Groups
  add_member now group node_id node_name role groups = elim (find_entry group groups) [
    | none ↦ (err (not_found group), groups)
    | some (key, g) ↦
        if contains_member g node_id
        then (ok tt, groups)
        else let joined : GroupMember = record {
          node_id = node_id;
          node_name = node_name;
          role = role;
          joined_at = now;
        } in
          let groups' = Map.insert key (record g { members = g.members ++ joined ∷ [] }) groups in
          (save groups', groups')
  ]

  unfoldable pub remove_member : String → String → Groups → Result (Unit {0}) × Groups
  remove_member group node_id groups = elim (find_entry group groups) [
    | none ↦ (err (not_found group), groups)
    | some (key, g) ↦
        if g.owner_node_id == node_id
        then (err (other "cannot remove group owner — delete the group instead"), groups)
        else let kept = retain (λ m. not (has_id node_id m)) g.members in
          let groups' = Map.insert key (record g { members = kept }) groups in
          (save groups', groups')
  ]

  unfoldable pub delete : String → Groups → Result (Unit {0}) × Groups
  delete name groups =
      if Map.contains_key (lower name) groups
      then (save (Map.remove (lower name) groups), Map.remove (lower name) groups)
      else (err (not_found name), groups)

  unfoldable pub upsert_group : Group → Groups → Result (Unit {0}) × Groups
  upsert_group group groups =
      let groups' = Map.insert (lower group.name) group groups in (save groups', groups')
