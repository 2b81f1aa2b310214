-- ===== src/Flow/Failures.antt =====
-- flow/failure.go: the failures that a fallback may still take up, and when they end.
-- `E` is Go's error type. The `pending` map is walked in the order of its entries; Go's order is not
-- defined.
pub mod Handled
use mivia_ai_sdk.Base.{
  String, List, [], ◌∷◌, Bool, true, false, ◌&&◌, Option, none, some, str_eq, if◌then◌else◌, Assoc,
  lookup, insert, contains,
}
use mivia_ai_sdk.Flow.Step.{Step, Outcome, failed, skipped, succeeded, direct_dependents}
use mivia_ai_sdk.Flow.Graph.{is_on_failed, is_some}
use mivia_ai_sdk.Flow.Admission.{mark_outcome}

-- `failureKind`.
pub data FailureKind : Type 0 where
  firing confirming transition_missing : FailureKind

-- `handledFailure`: the recorded error and the IDs of its fallbacks. The entry's key is the step.
pub record HandledFailure (E : Type 0) : Type 0 where
  pub error : E
  pub handlers : List String

unfoldable pub is_fallback : String → Step → Assoc Outcome → Bool
is_fallback id s outcomes = elim (lookup s.id outcomes) [
  | some o ↦ false
  | none ↦ is_on_failed s.when && contains s.needs id
]

-- `failureHandlersFor`: a set as a list.
unfoldable pub failure_handlers_for : String → List Step → Assoc Outcome → List String
unfolding is_fallback
failure_handlers_for id [] outcomes = []
failure_handlers_for id (s ∷ ss) outcomes =
    let rest = failure_handlers_for id ss outcomes in
    if is_fallback id s outcomes then s.id ∷ rest else rest

abbrev pub is_skipped : Option Outcome → Bool
is_skipped none = false
is_skipped (some skipped) = true
is_skipped (some failed) = false
is_skipped (some succeeded) = false

-- `delete(hf.handlers, id)`.
unfoldable pub delete : String → List String → List String
delete id [] = []
delete id (h ∷ hs) = let rest = delete id hs in if str_eq h id then rest else h ∷ rest

module _ {E : Type 0} where
  -- `failureForStep`: the entry of the first need that has one.
  unfoldable pub failure_for_step :
      List String → Assoc (HandledFailure E) → Option (String × HandledFailure E)
  failure_for_step [] pending = none
  failure_for_step (n ∷ ns) pending = elim (lookup n pending) [
    | some hf ↦ some (n, hf)
    | none ↦ failure_for_step ns pending
  ]

  -- `resolveCatchable`: the pending entries, and the error that stays.
  unfoldable pub resolve_catchable :
      FailureKind
      → E
      → String
      → List Step
      → Assoc Outcome
      → Assoc (HandledFailure E)
      → Assoc (HandledFailure E) × Option E
  unfolding failure_handlers_for
  resolve_catchable firing err id steps outcomes pending =
      elim (failure_handlers_for id steps outcomes) [
        | [] ↦ (pending, some err)
        | h ∷ hs ↦ (insert id (record { error = err; handlers = h ∷ hs }) pending, none)
      ]
  resolve_catchable _ err id steps outcomes pending = (pending, some err)

  -- The loop over the failed group: an entry per member, none where a member has no fallback.
  unfoldable pub group_entries :
      E
      → List Step
      → List Step
      → Assoc Outcome
      → Assoc (HandledFailure E)
      → Option (Assoc (HandledFailure E))
  unfolding failure_handlers_for
  group_entries err [] steps outcomes pending = some pending
  group_entries err (s ∷ ss) steps outcomes pending =
      elim (failure_handlers_for s.id steps outcomes) [
        | [] ↦ none
        | h ∷ hs ↦
            group_entries err ss steps outcomes
              (insert s.id (record { error = err; handlers = h ∷ hs }) pending)
      ]

  -- `resolvePanelFailure`: the outcomes, the pending entries and the error that stays.
  unfoldable pub resolve_panel_failure :
      E
      → List Step
      → List Step
      → Assoc Outcome
      → Assoc (HandledFailure E)
      → Assoc Outcome × (Assoc (HandledFailure E) × Option E)
  unfolding group_entries mark_outcome
  resolve_panel_failure err group steps outcomes pending =
      let outcomes' = mark_outcome outcomes group failed in
      elim (group_entries err group steps outcomes' pending) [
        | none ↦ (outcomes', (pending, some err))
        | some pending' ↦ (outcomes', (pending', none))
      ]

  -- `prunePendingHandler`.
  unfoldable pub prune_pending_handler :
      String → Assoc (HandledFailure E) → Assoc (HandledFailure E)
  prune_pending_handler id [] = []
  prune_pending_handler id ((k, hf) ∷ m) =
      let rest = prune_pending_handler id m in
      if contains hf.handlers id then rest else (k, hf) ∷ rest

  -- The inner loop of `prunePendingOnRoute`; it ends at the first entry that loses its last handler.
  unfoldable pub drop_handler :
      String → Assoc (HandledFailure E) → Assoc (HandledFailure E) × Option E
  unfolding delete
  drop_handler id [] = ([], none)
  drop_handler id ((k, hf) ∷ m) =
      let rest = drop_handler id m in
      if contains hf.handlers id
      then elim (delete id hf.handlers) [
        | [] ↦ (m, some hf.error)
        | h ∷ hs ↦ ((k, record { error = hf.error; handlers = h ∷ hs }) ∷ rest.0, rest.1)
      ]
      else ((k, hf) ∷ rest.0, rest.1)

  -- The loop of `prunePendingOnRoute` over the direct dependents.
  unfoldable pub prune_skipped :
      List Step → Assoc Outcome → Assoc (HandledFailure E) → Assoc (HandledFailure E) × Option E
  unfolding drop_handler
  prune_skipped [] outcomes pending = (pending, none)
  prune_skipped (d ∷ ds) outcomes pending = elim (is_skipped (lookup d.id outcomes)) [
    | false ↦ prune_skipped ds outcomes pending
    | true ↦ elim (drop_handler d.id pending).1 [
      | some e ↦ ((drop_handler d.id pending).0, some e)
      | none ↦ prune_skipped ds outcomes (drop_handler d.id pending).0
    ]
  ]

  -- `prunePendingOnRoute`.
  unfoldable pub prune_pending_on_route :
      Step
      → List Step
      → Assoc Outcome
      → Assoc (HandledFailure E)
      → Assoc (HandledFailure E) × Option E
  unfolding prune_skipped direct_dependents
  prune_pending_on_route next steps outcomes pending =
      prune_skipped (direct_dependents next.id steps) outcomes pending
