-- ===== src/Storage/Groups/Tests.antt =====
-- Runs of a store with one group, whose file can always be written and whose names are in lower
-- case already.
use gpu_share.Storage.Groups.Changes.{empty, creates, Reached-all_sound}
use gpu_share.Storage.Groups.Members.{all_sound}
use gpu_share.Base.{String, true, some, [], ◌∷◌, ◌≡◌, refl, nat_eq, string_eq}
use gpu_share.Common.{ok, Result}
use gpu_share.Base.Map
use gpu_share.Base.Map.{Map}
use gpu_share.Base.Int.{pos}
use gpu_share.Storage.Groups.{create, find_entry, owner, Group, Groups}

abbrev lower : String → String
lower s = s

abbrev save : Groups → Result (Unit {0})
save m = ok tt

abbrev owned : Group
owned = record {
  id = "grp-n1-lab";
  name = "lab";
  owner_node_id = "n1";
  created_at = pos 5;
  members = record { node_id = "n1"; node_name = "one"; role = owner; joined_at = pos 5 } ∷ [];
}

abbrev one_group : Groups
one_group = ("lab", owned) ∷ []

lab_found : find_entry lower save "lab" one_group ≡ some ("lab", owned)
unfolding find_entry
lab_found = refl

lab_stored : Map.get "lab" one_group ≡ some owned
unfolding Map.get
lab_stored = refl

Reached-all_sound_example : all_sound (create lower save (pos 5) "lab" "n1" "one" []).1 ≡ true
Reached-all_sound_example =
    Reached-all_sound lower save (create lower save (pos 5) "lab" "n1" "one" []).1
      (creates (pos 5) "lab" "n1" "one" [] empty)
