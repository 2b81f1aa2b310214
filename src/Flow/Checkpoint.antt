-- ===== src/Flow/Checkpoint.antt =====
-- flow/checkpoint.go and flow/resume.go: the checkpoint of a walk, its rule, and the outcomes that
-- Resume takes from it.
pub mod Restore
use mivia_ai_sdk.Base.{
  String, List, [], ◌∷◌, ◌++◌, Bool, true, false, ◌||◌, Option, none, some, str_eq, if◌then◌else◌,
  Assoc, insert, contains,
}
use mivia_ai_sdk.Base.Sort.{sort, is_sorted}
use mivia_ai_sdk.Flow.Step.{Step, Outcome, succeeded, failed, skipped}

pub record Checkpoint (R : Type 0) : Type 0 where
  pub status : String
  pub rec : R
  pub done : List String
  pub skipped_ids : List String
  pub failed_ids : List String

pub data CheckpointFault : Type 0 where
  empty_status named_twice unsorted unknown_step : CheckpointFault

-- The loop over one group: an ID that `seen` holds, of this group or one before it, is an error.
unfoldable pub any_seen : List String → List String → Bool
any_seen seen [] = false
any_seen seen (x ∷ xs) = contains seen x || any_seen (x ∷ seen) xs

unfoldable pub check_groups : List String → List (List String) → Option CheckpointFault
unfolding any_seen
check_groups seen [] = none
check_groups seen (g ∷ gs) =
    let rest = check_groups (g ++ seen) gs in
    if any_seen seen g then some named_twice else if is_sorted g then rest else some unsorted

-- `Checkpoint.Validate`.
unfoldable pub validate : {R : Type 0} → Checkpoint R → Option CheckpointFault
unfolding check_groups
validate c =
    if str_eq c.status ""
    then some empty_status
    else check_groups [] (c.done ∷ c.skipped_ids ∷ c.failed_ids ∷ [])

unfoldable pub outcome_eq : Outcome → Outcome → Bool
outcome_eq succeeded succeeded = true
outcome_eq failed failed = true
outcome_eq skipped skipped = true
outcome_eq _ _ = false

unfoldable pub ids_with : Assoc Outcome → Outcome → List String
unfolding outcome_eq
ids_with [] want = []
ids_with ((k, o) ∷ m) want =
    let rest = ids_with m want in if outcome_eq o want then k ∷ rest else rest

-- `idsWithOutcome`.
unfoldable pub ids_with_outcome : Assoc Outcome → Outcome → List String
unfolding ids_with
ids_with_outcome outcomes want = sort (ids_with outcomes want)

-- The checkpoint that `fireCheckpoint` builds.
unfoldable pub checkpoint_of : {R : Type 0} → String → R → Assoc Outcome → Checkpoint R
unfolding ids_with_outcome
checkpoint_of cur rec outcomes = record {
  status = cur;
  rec = rec;
  done = ids_with_outcome outcomes succeeded;
  skipped_ids = ids_with_outcome outcomes skipped;
  failed_ids = ids_with_outcome outcomes failed;
}

-- `hasStep`.
unfoldable pub has_step : List Step → String → Bool
has_step [] id = false
has_step (s ∷ ss) id = str_eq s.id id || has_step ss id

-- One of the three seeding loops of Resume; `none` where an ID is of no step.
unfoldable pub seed_ids : List Step → Outcome → List String → Assoc Outcome → Option (Assoc Outcome)
unfolding has_step
seed_ids steps o [] outcomes = some outcomes
seed_ids steps o (k ∷ ks) outcomes =
    let rest = seed_ids steps o ks (insert k o outcomes) in if has_step steps k then rest else none

-- The outcomes that Resume starts from.
unfoldable pub seed : {R : Type 0} → List Step → Checkpoint R → Option (Assoc Outcome)
unfolding seed_ids
seed steps c = elim (seed_ids steps succeeded c.done []) [
  | none ↦ none
  | some a ↦ elim (seed_ids steps skipped c.skipped_ids a) [
    | none ↦ none
    | some b ↦ seed_ids steps failed c.failed_ids b
  ]
]
