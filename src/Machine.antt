-- ===== src/Machine.antt =====
-- The package machine: a validated transition table, and Fire.
-- `Record` is the type of the record (`InOut`) that a move carries; statuses and triggers are texts.
pub mod Reachability
pub mod Moves
use mivia_ai_sdk.Base.{
  ℕ, zero, suc, ◌+◌, String, List, [], ◌∷◌, Bool, true, false, ◌&&◌, ◌||◌, not, Option, none, some,
  str_eq, contains, length, if◌then◌else◌,
}

-- `Guard` and `Action` are the caller's functions. A guard answers or fails, an action returns its
-- error, if any, beside the record as it left it. `none` is a nil function; `E` is Go's error type.
pub record Transition (E R : Type 0) : Type 0 where
  pub from : String
  pub to : String
  pub trigger : String
  pub check : Option (Option E × Bool)
  pub on_exit : Option (R → Option E × R)
  pub on_entry : Option (R → Option E × R)

pub record Definition (E R : Type 0) : Type 0 where
  pub initial : String
  pub transitions : List (Transition E R)

pub data Invalid : Type 0 where
  empty_list self_loop unreachable duplicate : Invalid

pub data Failure (E : Type 0) : Type 0 where
  no_transition guard_rejected : Failure E
  caller_error : E → Failure E

pub data Built (E R : Type 0) : Type 0 where
  built : Definition E R → Built E R
  rejected : Invalid → Built E R

-- What Fire returns: the status, the record, and the error.
pub record Fired (E R : Type 0) : Type 0 where
  pub status : String
  pub rec : R
  pub error : Option (Failure E)

unfoldable pub run_guard : {E : Type 0} → Option (Option E × Bool) → Option (Failure E)
run_guard none = none
run_guard (some (some e, b)) = some (caller_error e)
run_guard (some (none, b)) = if b then none else some guard_rejected

module _ {E R : Type 0} where
  -- AllowedTransitions: the rows that leave `from`, in order.
  unfoldable pub allowed_transitions : List (Transition E R) → String → List (Transition E R)
  allowed_transitions [] from = []
  allowed_transitions (t ∷ ts) from =
      let rest = allowed_transitions ts from in if str_eq t.from from then t ∷ rest else rest

  unfoldable pub triggers_of : List (Transition E R) → List String
  triggers_of [] = []
  triggers_of (t ∷ ts) = t.trigger ∷ triggers_of ts

  -- AllowedTriggers.
  unfoldable pub allowed_triggers : List (Transition E R) → String → List String
  unfolding allowed_transitions triggers_of
  allowed_triggers ts from = triggers_of (allowed_transitions ts from)

  unfoldable pub has_self_loop : List (Transition E R) → Bool
  has_self_loop [] = false
  has_self_loop (t ∷ ts) = str_eq t.from t.to || has_self_loop ts

  -- One pass of the reachability loop: the statuses reached, and whether any is new.
  unfoldable pub reach_pass : List (Transition E R) → List String → Bool → List String × Bool
  reach_pass [] reached changed = (reached, changed)
  reach_pass (t ∷ ts) reached changed =
      let fires = contains reached t.from && not (contains reached t.to) in
      reach_pass ts (if fires then t.to ∷ reached else reached) (fires || changed)

  -- The loop `for changed := true; changed;`, with the number of passes as fuel.
  unfoldable pub reach_loop : ℕ → List (Transition E R) → List String → Option (List String)
  unfolding reach_pass
  reach_loop zero ts reached = none
  reach_loop (suc f) ts reached = elim (reach_pass ts reached false).1 [
    | true ↦ reach_loop f ts (reach_pass ts reached false).0
    | false ↦ some (reach_pass ts reached false).0
  ]

  -- Every pass but the last reaches the target of a further row.
  unfoldable pub reachable : Definition E R → Option (List String)
  unfolding reach_loop
  reachable d = reach_loop (length d.transitions + 1) d.transitions (d.initial ∷ [])

  unfoldable pub all_from : List (Transition E R) → List String → Bool
  all_from [] reached = true
  all_from (t ∷ ts) reached = contains reached t.from && all_from ts reached

  unfoldable pub same_row : Transition E R → Transition E R → Bool
  same_row t u = str_eq t.from u.from && str_eq t.trigger u.trigger

  unfoldable pub row_in : Transition E R → List (Transition E R) → Bool
  unfolding same_row
  row_in t [] = false
  row_in t (u ∷ us) = same_row t u || row_in t us

  unfoldable pub has_duplicate : List (Transition E R) → Bool
  unfolding row_in
  has_duplicate [] = false
  has_duplicate (t ∷ ts) = row_in t ts || has_duplicate ts

  -- The last two loops of Validate, on the set of reached statuses.
  unfoldable pub validate_rows : List (Transition E R) → Option (List String) → Option Invalid
  unfolding all_from has_duplicate
  validate_rows ts none = none
  validate_rows ts (some reached) =
      if not (all_from ts reached)
      then some unreachable
      else if has_duplicate ts
      then some duplicate
      else none

  unfoldable pub is_empty : List (Transition E R) → Bool
  is_empty [] = true
  is_empty (t ∷ ts) = false

  -- Validate; `none` is a nil error.
  unfoldable pub validate : Definition E R → Option Invalid
  unfolding is_empty has_self_loop validate_rows reachable
  validate d =
      if is_empty d.transitions
      then some empty_list
      else if has_self_loop d.transitions
      then some self_loop
      else validate_rows d.transitions (reachable d)

  -- New.
  unfoldable pub new : String → List (Transition E R) → Built E R
  unfolding validate
  new initial ts = elim (validate (record { initial = initial; transitions = ts })) [
    | none ↦ built (record { initial = initial; transitions = ts })
    | some e ↦ rejected e
  ]

  -- The row that Fire selects: the first that matches.
  unfoldable pub find_row : List (Transition E R) → String → String → Option (Transition E R)
  find_row [] from trigger = none
  find_row (t ∷ ts) from trigger =
      if str_eq t.from from && str_eq t.trigger trigger then some t else find_row ts from trigger

  unfoldable pub run_action : Option (R → Option E × R) → R → Option E × R
  run_action none rec = (none, rec)
  run_action (some f) rec = f rec

  unfoldable pub enter : Transition E R → String → R → Option E × R → Fired E R
  enter row from input (some e, rec) = record {
    status = from;
    rec = input;
    error = some (caller_error e);
  }
  enter row from input (none, rec) = record { status = row.to; rec = rec; error = none }

  unfoldable pub leave : Transition E R → String → R → Option E × R → Fired E R
  unfolding run_action enter
  leave row from input (some e, rec) = record {
    status = from;
    rec = input;
    error = some (caller_error e);
  }
  leave row from input (none, rec) = enter row from input (run_action row.on_entry rec)

  unfoldable pub fire_row : Transition E R → String → R → Fired E R
  unfolding run_guard run_action leave
  fire_row row from input = elim (run_guard row.check) [
    | some f ↦ record { status = from; rec = input; error = some f }
    | none ↦ leave row from input (run_action row.on_exit input)
  ]

  -- Fire.
  unfoldable pub fire : Definition E R → String → String → R → Fired E R
  unfolding find_row fire_row
  fire d from trigger input = elim (find_row d.transitions from trigger) [
    | none ↦ record { status = from; rec = input; error = some no_transition }
    | some row ↦ fire_row row from input
  ]
