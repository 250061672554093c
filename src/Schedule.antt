-- ===== src/Schedule.antt =====
-- The choice of a peer in crates/gpumesh-core/src/scheduler.rs. Probing is a function from the
-- identifier of a peer to what it answers, or none where the probe fails or times out.
pub mod Choice
mod Tests
use gpu_share.Jobs.{strip_prefix}
use gpu_share.Base.Int.{◌+ℤ◌, sub_ℕ, leb_ℤ, pos, ℤ}
use gpu_share.Protocol.{PeerInfoMsg}
use gpu_share.Base.{
  codes, is_empty, unwrap_or, ltb, is_some, ℕ, zero, suc, String, Bool, true, false, Option, none,
  some, List, [], ◌∷◌, ◌++◌, inl, inr, ◌≡◌, ◌≢◌, refl, ap, sym, arith, if◌then◌else◌, ◌==◌, nat_eq,
  string_eq, ◌+◌, ◌-◌, ◌*◌, ◌≤◌, ◌<◌, min, max, ◌&&◌, ◌||◌, not, ◌&◌, ◌⊎◌, ◌↔◌, length,
}
use gpu_share.Common.{offline, other, busy, idle, PeerStatus, ok, err, ◌>>=◌, ◌>>◌, Result}

pub record ScheduleRequest : Type 0 where
  pub group : Option String
  pub gpu_memory_mb : Option ℕ
  pub prefer_peer : Option String

pub record ScheduleResult : Type 0 where
  pub peer_name : String
  pub peer_node_id : String
  pub gpu_model : Option String
  pub vram_free_mb : Option ℕ
  pub status : PeerStatus

abbrev is_prefix : String → String → Bool
is_prefix p s = is_some (strip_prefix (codes p) (codes s))

-- The peer that the request prefers, by name, identifier or a beginning of the identifier.
unfoldable pub is_preferred : ScheduleRequest → String → String → Bool
is_preferred req node_id name = elim req.prefer_peer [
  | none ↦ false
  | some prefer ↦ prefer == name || prefer == node_id || is_prefix prefer node_id
]

abbrev pub is_unavailable : PeerStatus → Bool
is_unavailable busy = true
is_unavailable offline = true
is_unavailable _ = false

abbrev pub is_idle : PeerStatus → Bool
is_idle idle = true
is_idle _ = false

abbrev lacks_memory : Option ℕ → ℕ → Bool
lacks_memory none free = false
lacks_memory (some need) free = ltb free need

-- The tests that drop a probed peer.
unfoldable pub is_eligible : ScheduleRequest → PeerInfoMsg → Bool
is_eligible req info =
    info.sharing
    && not (is_unavailable info.status)
    && not (lacks_memory req.gpu_memory_mb (unwrap_or info.vram_free_mb 0))

abbrev lower_utilization : Option ℕ → ℤ
lower_utilization none = pos 0
lower_utilization (some u) = sub_ℕ 1000 (u * 10)

-- The score is an `i64`; free memory and utilisation are far from its bounds.
unfoldable pub score : ScheduleRequest → String → String → PeerInfoMsg → ℤ
score req node_id name info =
    pos (unwrap_or info.vram_free_mb 0)
    +ℤ (if is_idle info.status then pos 10000 else pos 0)
    +ℤ lower_utilization info.utilization
    +ℤ (if is_preferred req node_id name then pos 50000 else pos 0)

abbrev pub result_of : String → String → PeerInfoMsg → ScheduleResult
result_of node_id name info = record {
  peer_name = name;
  peer_node_id = node_id;
  gpu_model = info.gpu_model;
  vram_free_mb = info.vram_free_mb;
  status = info.status;
}

-- The loop over the candidates, pairs of an identifier and a name.
unfoldable pub score_all :
    (String → Option PeerInfoMsg)
    → ScheduleRequest
    → List (String × String)
    → List (ℤ × ScheduleResult)
score_all probe req [] = []
score_all probe req ((node_id, name) ∷ cs) =
    let rest = score_all probe req cs in
    elim (probe node_id) [
      | none ↦ rest
      | some info ↦
          if is_eligible req info
          then (score req node_id name info, result_of node_id name info) ∷ rest
          else rest
    ]

-- `sort_by` with the larger score first: a stable sort, here by insertion.
abbrev pub insert_sorted :
    ℤ × ScheduleResult → List (ℤ × ScheduleResult) → List (ℤ × ScheduleResult)
insert_sorted x [] = x ∷ []
insert_sorted x (y ∷ ys) =
    let rest = insert_sorted x ys in if leb_ℤ y.0 x.0 then x ∷ y ∷ ys else y ∷ rest

unfoldable pub sort_scored : List (ℤ × ScheduleResult) → List (ℤ × ScheduleResult)
sort_scored [] = []
sort_scored (x ∷ xs) = insert_sorted x (sort_scored xs)

abbrev first_result : List (ℤ × ScheduleResult) → Result ScheduleResult
first_result [] =
    err (other "no idle peer with enough free VRAM — try a lower --gpu-memory or wait")
first_result (x ∷ xs) = ok x.1

unfoldable pub schedule_peer :
    (String → Option PeerInfoMsg) → ScheduleRequest → List (String × String) → Result ScheduleResult
schedule_peer probe req candidates =
    if is_empty candidates
    then err (other "no candidate peers — pair peers or join a group first")
    else first_result (sort_scored (score_all probe req candidates))
