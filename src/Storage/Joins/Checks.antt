-- ===== src/Storage/Joins/Checks.antt =====
-- The joins that crates/gpumesh-core/src/remote.rs lets change a group.
use gpu_share.Base.Int.{ℤ}
use gpu_share.Protocol.{GroupJoin}
use gpu_share.Storage.Joins.{handle_group_join, join_fields, JoinFields}
use gpu_share.Base.{◌⊎◌, good, Parsed, ℕ, String, Option, some, List, ◌≡◌, nat_eq, string_eq}
use gpu_share.Common.{err, GpuMeshError, ok, Result}
use gpu_share.Security.Crypto.{verify_signature, node_id_from_public_hex, Crypto}
use gpu_share.Storage.Groups.{member, add_member, get_group, Group, Groups}

module _ (c : Crypto) (to_vec : JoinFields → Parsed (List ℕ)) (lower : String → String)
    (save : Groups → Result (Unit {0})) where
  -- What has been checked of a join that may change a group.
  pub record IsProven (peer : Option String) (j : GroupJoin) : Type 0 where
    pub authenticated : peer ≡ some j.member_node_id
    pub keyed : node_id_from_public_hex c j.public_key_hex ≡ ok j.member_node_id
    pub canonical : List ℕ
    pub spelled : to_vec (join_fields j) ≡ good canonical
    pub signed : verify_signature c j.public_key_hex canonical j.signature ≡ ok tt

  -- What came of a join: an error that left the groups as they were, or a proven join to a group
  -- that the node itself owns and that has the name in the join, which was added to that group.
  abbrev pub JoinOutcome : ℤ → String → Option String → GroupJoin → Groups → Type 0
  JoinOutcome now local peer j groups =
      ((e : GpuMeshError) × (handle_group_join c to_vec lower save now local peer j groups
          ≡ (err e, groups)))
      ⊎ (IsProven peer j
          × ((group : Group) × (get_group lower save j.group_id groups ≡ some group)
              × (group.owner_node_id ≡ local)
              × (group.name ≡ j.group_name)
              × (handle_group_join c to_vec lower save now local peer j groups
                  ≡ add_member lower save now j.group_id j.member_node_id j.member_name member
                      groups)))
