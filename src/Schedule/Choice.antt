-- ===== src/Schedule/Choice.antt =====
-- The peer that crates/gpumesh-core/src/scheduler.rs chooses, among the scored candidates.
use gpu_share.Common.{ok, err, Result}
use gpu_share.Protocol.{PeerInfoMsg}
use gpu_share.Base.{
  ◌⊎◌, all, String, Bool, true, Option, some, List, [], ◌∷◌, ◌≡◌, nat_eq, string_eq,
}
use gpu_share.Base.Int.{ℤ, leb_ℤ}
use gpu_share.Schedule.{result_of, score, is_eligible, ScheduleRequest, ScheduleResult}

abbrev Scores : Type 0
Scores = List (ℤ × ScheduleResult)

abbrev all_at_most : ℤ → Scores → Bool
all_at_most s xs = all (λ x. leb_ℤ x.0 s) xs

-- A member of the list.
abbrev Member : ℤ × ScheduleResult → Scores → Type 0
Member y [] = ⊥
Member y (x ∷ xs) = (x ≡ y) ⊎ Member y xs

-- The first of the sorted list is a member with the best score.
IsBest : Scores → Scores → Type 0
IsBest [] xs = xs ≡ []
IsBest (h ∷ t) xs = Member h xs × (all_at_most h.0 xs ≡ true)

-- A candidate that answered its probe and passed the tests, with its score.
pub data Scored (probe : String → Option PeerInfoMsg) (req : ScheduleRequest)
    : List (String × String) → ℤ × ScheduleResult → Type 0 where
  here :
      (node_id name : String) (cs : List (String × String)) (info : PeerInfoMsg)
      → probe node_id ≡ some info
      → is_eligible req info ≡ true
      → Scored probe req
          ((node_id, name) ∷ cs)
          (score req node_id name info, result_of node_id name info)
  there :
      (c : String × String) (cs : List (String × String)) (x : ℤ × ScheduleResult)
      → Scored probe req cs x
      → Scored probe req (c ∷ cs) x

module _ (probe : String → Option PeerInfoMsg) (req : ScheduleRequest) where
  -- What a choice promises: the chosen peer answered its probe, shares, is neither busy nor
  -- offline and has the memory asked for, and no such candidate has a better score; without a
  -- choice, there is no such candidate.
  abbrev pub IsChoice : List (String × String) → Result ScheduleResult → Type 0
  IsChoice cs (err e) = (x : ℤ × ScheduleResult) → Scored probe req cs x → ⊥
  IsChoice cs (ok r) =
      (s : ℤ) × Scored probe req cs (s, r)
      × ((x : ℤ × ScheduleResult) → Scored probe req cs x → leb_ℤ x.0 s ≡ true)
