-- ===== src/Storage/Joins.antt =====
-- The arm of `serve_peer_session` in crates/gpumesh-core/src/remote.rs for `GroupJoinNotify`: a guest
-- tells the owner of a group that it joins.
pub mod Checks
mod Tests
use gpu_share.Protocol.{GroupJoin}
use gpu_share.Base.{
  good, bad, Parsed, ℕ, zero, suc, String, Bool, true, false, Option, none, some, List, [], ◌∷◌,
  ◌++◌, inl, inr, ◌≡◌, ◌≢◌, refl, ap, sym, arith, if◌then◌else◌, ◌==◌, nat_eq, string_eq, ◌+◌, ◌-◌,
  ◌*◌, ◌≤◌, ◌<◌, min, max, ◌&&◌, ◌||◌, not, ◌&◌, ◌⊎◌, ◌↔◌, length,
}
use gpu_share.Common.{protocol, bail_if, not_authorized, other, ok, err, ◌>>=◌, ◌>>◌, Result}
use gpu_share.Base.Int.{ℤ}
use gpu_share.Security.Crypto.{verify_signature, node_id_from_public_hex, Crypto}
use gpu_share.Storage.Groups.{get_group, member, add_member, Groups, Group}

abbrev or_protocol : {A : Type 0} → Parsed A → Result A
or_protocol (bad e) = err (protocol e)
or_protocol (good a) = ok a

-- The fields that a join signs, in the order of the tuple.
abbrev pub JoinFields : Type 0
JoinFields = String × String × String × String × String

abbrev pub join_fields : GroupJoin → JoinFields
join_fields j = (j.group_id, j.group_name, j.member_node_id, j.member_name, j.public_key_hex)

abbrev is_peer : Option String → String → Bool
is_peer none node_id = false
is_peer (some p) node_id = p == node_id

module _ (c : Crypto) (to_vec : JoinFields → Parsed (List ℕ)) (lower : String → String)
    (save : Groups → Result (Unit {0})) where
  -- The tests of the join itself: `peer` is the node that the connection has authenticated.
  unfoldable pub check_join : Option String → GroupJoin → Result (Unit {0})
  check_join peer j = do
    expected ← node_id_from_public_hex c j.public_key_hex
    bail_if (not (expected == j.member_node_id) || not (is_peer peer j.member_node_id))
        (not_authorized "group join identity mismatch")
    canonical ← or_protocol (to_vec (join_fields j))
    verify_signature c j.public_key_hex canonical j.signature

  -- `local` is the node's own identifier, and the groups are those that were loaded. The new groups
  -- stand beside the result.
  unfoldable pub handle_group_join :
      ℤ → String → Option String → GroupJoin → Groups → Result (Unit {0}) × Groups
  handle_group_join now local peer j groups = elim (check_join peer j) [
    | err e ↦ (err e, groups)
    | ok _ ↦ elim (get_group lower save j.group_id groups) [
      | none ↦ (err (other "group not found"), groups)
      | some group ↦
          if not (group.owner_node_id == local) || not (group.name == j.group_name)
          then (err (not_authorized "only the local group owner can accept joins"), groups)
          else add_member lower save now j.group_id j.member_node_id j.member_name member groups
    ]
  ]
