-- ===== src/Tests/Machine.antt =====
-- The package machine on a table of two rows: a ticket is opened, then closed.
use mivia_ai_sdk.Base.{
  ◌≡◌, ◌≢◌, ◌↔◌, refl, String, List, [], ◌∷◌, true, false, none, some, arith, contains,
}
use mivia_ai_sdk.Machine.{
  Transition, Definition, run_guard, validate, reachable, fire, guard_rejected,
}
use mivia_ai_sdk.Machine.Reachability.{RowIn, Reach, start, reachable-Reach}
use mivia_ai_sdk.Machine.Moves.{IsTable, validate_iff_IsTable, fire_failed, fire_moves, fire-Reach}

abbrev opening : Transition String String
opening = record {
  from = "new";
  to = "open";
  trigger = "start";
  check = none;
  on_exit = none;
  on_entry = some (λ r. (none, "opened"));
}

abbrev closing : Transition String String
closing = record {
  from = "open";
  to = "closed";
  trigger = "finish";
  check = some (none, false);
  on_exit = none;
  on_entry = none;
}

abbrev ticket : Definition String String
ticket = record { initial = "new"; transitions = opening ∷ closing ∷ [] }

validate_iff_IsTable_example : (validate ticket ≡ none) ↔ IsTable ticket
validate_iff_IsTable_example = validate_iff_IsTable ticket

ticket-valid : validate ticket ≡ none
unfolding validate contains
ticket-valid = refl

reachable-Reach_example :
    (r : List String) × (reachable ticket ≡ some r)
    × ((s : String) → (contains r s ≡ true) ↔ Reach ticket.transitions ticket.initial s)
reachable-Reach_example = reachable-Reach ticket

-- The guard of the second row refuses the move.
closing-rejected : (fire ticket "open" "finish" "draft").error ≡ some guard_rejected
unfolding fire
closing-rejected = refl

fire_failed_example :
    ((fire ticket "open" "finish" "draft").status ≡ "open")
    × ((fire ticket "open" "finish" "draft").rec ≡ "draft")
fire_failed_example =
    fire_failed ticket "open" "finish" "draft" (λ e. ground (arith, closing-rejected))

opening-moves : (fire ticket "new" "start" "draft").error ≡ none
unfolding fire
opening-moves = refl

fire_moves_example :
    (row : Transition String String) × RowIn row ticket.transitions
    × (row.from ≡ "new")
    × (row.trigger ≡ "start")
    × (run_guard row.check ≡ none)
    × ((fire ticket "new" "start" "draft").status ≡ row.to)
fire_moves_example = fire_moves ticket "new" "start" "draft" opening-moves

fire-Reach_example :
    ((fire ticket "new" "start" "draft").status ≢ "new")
    × Reach ticket.transitions ticket.initial (fire ticket "new" "start" "draft").status
fire-Reach_example = fire-Reach ticket "new" "start" "draft" ticket-valid start opening-moves
