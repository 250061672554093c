-- ===== src/Storage/Joins/Tests.antt =====
-- The join of the toy node to a group of the node "me".
use gpu_share.Security.Crypto.{
  from_seed, node_id_from_verifying, sign_b64, public_key_hex, verify_signature,
  node_id_from_public_hex,
}
use gpu_share.Security.Crypto.Toy.{alice, toy_crypto}
use gpu_share.Protocol.{GroupJoin}
use gpu_share.Storage.Joins.{check_join, handle_group_join, JoinFields}
use gpu_share.Base.{good, Parsed, ℕ, String, some, List, [], ◌∷◌, ◌≡◌, refl, nat_eq, string_eq}
use gpu_share.Common.{ok, Result}
use gpu_share.Base.Map
use gpu_share.Base.Map.{Map}
use gpu_share.Base.Int.{pos}
use gpu_share.Storage.Groups.{contains_member, find_entry, add_member, get_group, Groups, Group}

abbrev lower : String → String
lower s = s

abbrev save : Groups → Result (Unit {0})
save m = ok tt

abbrev fields_bytes : JoinFields → Parsed (List ℕ)
fields_bytes f = good (5 ∷ [])

abbrev mine : Group
mine = record {
  id = "grp-me-lab";
  name = "lab";
  owner_node_id = "me";
  created_at = pos 5;
  members = [];
}

abbrev join : GroupJoin
join = record {
  group_id = "grp-me-lab";
  group_name = "lab";
  member_node_id = alice.node_id;
  member_name = "alice";
  public_key_hex = public_key_hex toy_crypto alice;
  signature = sign_b64 toy_crypto alice (5 ∷ []);
}

accepted :
    (handle_group_join toy_crypto fields_bytes lower save
      (pos 6)
      "me"
      (some alice.node_id)
      join
      (("lab", mine) ∷ [])).0
    ≡ ok tt
unfolding handle_group_join check_join node_id_from_public_hex verify_signature
    node_id_from_verifying from_seed public_key_hex sign_b64 toy_crypto get_group add_member
    find_entry contains_member Map.get Map.values
accepted = refl
