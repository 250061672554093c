-- ===== src/Storage/Peers/Tests.antt =====
-- Runs of a store of two peers.
use gpu_share.Storage.Peers.Removal.{AreKeyed}
use gpu_share.Base.{
  ascii_lower, eq_ignore_ascii_case, String, true, none, some, [], ◌∷◌, ◌≡◌, refl, nat_eq,
  string_eq,
}
use gpu_share.Base.Map
use gpu_share.Base.Map.{Map}
use gpu_share.Base.Int.{pos}
use gpu_share.Storage.Peers.{remove_peer, lookup, PeerRecord, Peers}

abbrev peer : String → String → PeerRecord
peer id name = record {
  node_id = id;
  node_name = name;
  public_key_hex = "";
  addrs = [];
  gpu_model = none;
  vram_mb = none;
  paired_at = pos 1000;
  last_seen = none;
}

abbrev two_peers : Peers
two_peers = ("n1", peer "n1" "Lab") ∷ ("n2", peer "n2" "Attic") ∷ []

two_keyed : AreKeyed two_peers
unfolding Map.get
two_keyed = (refl, refl, (refl, refl, tt))

attic_removed : remove_peer "attic" two_peers ≡ (true, ("n1", peer "n1" "Lab") ∷ [])
unfolding remove_peer Map.get Map.contains_key Map.values Map.remove eq_ignore_ascii_case
    ascii_lower
attic_removed = refl

lab_found : lookup "LAB" two_peers ≡ some (peer "n1" "Lab")
unfolding lookup Map.get Map.values eq_ignore_ascii_case ascii_lower
lab_found = refl
