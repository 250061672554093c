-- ===== src/Storage/Peers.antt =====
-- `PeerStore` of crates/gpumesh-storage/src/store.rs: the map from node identifiers to peers.
pub mod Removal
mod Tests
use gpu_share.Jobs.{strip_prefix}
use gpu_share.Base.Int.{ℤ}
use gpu_share.Base.{
  codes, eq_ignore_ascii_case, find, is_some, ℕ, zero, suc, String, Bool, true, false, Option, none,
  some, List, [], ◌∷◌, ◌++◌, inl, inr, ◌≡◌, ◌≢◌, refl, ap, sym, arith, if◌then◌else◌, ◌==◌, nat_eq,
  string_eq, ◌+◌, ◌-◌, ◌*◌, ◌≤◌, ◌<◌, min, max, ◌&&◌, ◌||◌, not, ◌&◌, ◌⊎◌, ◌↔◌, length,
}
use gpu_share.Common.{ok, err, ◌>>=◌, ◌>>◌, Result}
use gpu_share.Base.Map
use gpu_share.Base.Map.{Map}

pub record PeerRecord : Type 0 where
  pub node_id : String
  pub node_name : String
  pub public_key_hex : String
  pub addrs : List String
  pub gpu_model : Option String
  pub vram_mb : Option ℕ
  pub paired_at : ℤ
  pub last_seen : Option ℤ

abbrev pub Peers : Type 0
Peers = Map String PeerRecord

unfoldable pub upsert : PeerRecord → Peers → Peers
upsert record_ peers = Map.insert record_.node_id record_ peers

abbrev pub starts_with : String → String → Bool
starts_with s prefix = is_some (strip_prefix (codes prefix) (codes s))

abbrev pub answers_to : String → PeerRecord → Bool
answers_to key p = eq_ignore_ascii_case p.node_name key || starts_with p.node_id key

-- The identifier first, then the first peer in the table's order whose name or beginning of the
-- identifier it is.
unfoldable pub lookup : String → Peers → Option PeerRecord
lookup key peers = elim (Map.get key peers) [
  | some p ↦ some p
  | none ↦ find (answers_to key) (Map.values peers)
]

-- `get_mut` with the change that the caller makes.
unfoldable pub update : String → (PeerRecord → PeerRecord) → Peers → Option Peers
update key change peers = elim (lookup key peers) [
  | none ↦ none
  | some p ↦ elim (Map.get p.node_id peers) [
    | none ↦ none
    | some q ↦ some (Map.insert p.node_id (change q) peers)
  ]
]

abbrev pub is_named : String → PeerRecord → Bool
is_named key p = eq_ignore_ascii_case p.node_name key

-- `remove`: whether a peer was removed, and the new store.
unfoldable pub remove_peer : String → Peers → Bool × Peers
remove_peer key peers =
    if Map.contains_key key peers
    then (true, Map.remove key peers)
    else elim (find (is_named key) (Map.values peers)) [
      | none ↦ (false, peers)
      | some p ↦ (Map.contains_key p.node_id peers, Map.remove p.node_id peers)
    ]
