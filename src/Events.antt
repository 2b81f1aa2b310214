-- ===== src/Events.antt =====
-- events/registry.go and events/point.go: the handlers of the lifecycle points, and Fire.
pub mod Order
use mivia_ai_sdk.Base.{
  ℕ, ◌++◌, String, List, [], ◌∷◌, Bool, true, false, ◌||◌, Option, none, some, str_eq,
  if◌then◌else◌,
}

-- A Point is an int: its three valid values, and all others.
pub data Point : Type 0 where
  pre_tool post_tool stop : Point
  invalid : Point

unfoldable pub point_eq : Point → Point → Bool
point_eq pre_tool pre_tool = true
point_eq post_tool post_tool = true
point_eq stop stop = true
point_eq invalid invalid = true
point_eq _ _ = false

-- `Point.Validate`: whether it returns nil.
unfoldable pub is_valid : Point → Bool
is_valid invalid = false
is_valid _ = true

-- What a handler answers: the error, if any, and whether it allows the action.
abbrev pub Answer : Type 0 → Type 0
Answer E = Option E × Bool

-- `P` is the type of payloads, `E` Go's error type.
pub record Entry (P E : Type 0) : Type 0 where
  pub name : String
  pub handler : P → Answer E

pub data Failure (E : Type 0) : Type 0 where
  invalid_point blank_name nil_handler duplicate_name : Failure E
  vetoed : String → Failure E
  handler_failed : String → E → Failure E

-- The map of a Registry: the handlers of each point, in the order of their registration.
abbrev pub Registry : Type 0 → Type 0 → Type 0
Registry P E = Point → List (Entry P E)

-- What one handler's answer makes of Fire; `none` goes on to the next.
unfoldable pub verdict : {E : Type 0} → String → Answer E → Option (Failure E)
verdict n (some e, b) = some (handler_failed n e)
verdict n (none, true) = none
verdict n (none, false) = some (vetoed n)

module _ {P E : Type 0} where
  unfoldable pub put : Point → List (Entry P E) → Registry P E → Registry P E
  put p es r q = if point_eq p q then es else r q

  unfoldable pub has_name : String → List (Entry P E) → Bool
  has_name n [] = false
  has_name n (e ∷ es) = str_eq e.name n || has_name n es

  -- `Add`. `trim` is `strings.TrimSpace`; `none` is a nil handler. A failing call changes nothing.
  unfoldable pub add :
      (String → String)
      → Point
      → String
      → Option (P → Answer E)
      → Registry P E
      → Registry P E × Option (Failure E)
  unfolding put has_name is_valid
  add trim p n none r =
      if is_valid p
      then if str_eq (trim n) "" then (r, some blank_name) else (r, some nil_handler)
      else (r, some invalid_point)
  add trim p n (some h) r =
      if is_valid p
      then if str_eq (trim n) ""
        then (r, some blank_name)
        else if has_name n (r p)
        then (r, some duplicate_name)
        else (put p (r p ++ record { name = n; handler = h } ∷ []) r, none)
      else (r, some invalid_point)

  -- The list without the first entry of that name.
  unfoldable pub without : String → List (Entry P E) → List (Entry P E)
  without n [] = []
  without n (e ∷ es) = let rest = without n es in if str_eq e.name n then es else e ∷ rest

  -- `Remove`.
  unfoldable pub remove : Point → String → Registry P E → Registry P E × Bool
  unfolding put has_name without
  remove p n r = if has_name n (r p) then (put p (without n (r p)) r, true) else (r, false)

  -- The loop of `Fire`: the names of the handlers that it calls, in order, and its result.
  unfoldable pub fire_loop : P → List (Entry P E) → List String × Option (Failure E)
  unfolding verdict
  fire_loop x [] = ([], none)
  fire_loop x (e ∷ es) =
      let rest = fire_loop x es in
      elim (verdict e.name (e.handler x)) [
        | some f ↦ (e.name ∷ [], some f)
        | none ↦ (e.name ∷ rest.0, rest.1)
      ]

  -- `Fire`.
  unfoldable pub fire : Point → P → Registry P E → List String × Option (Failure E)
  unfolding fire_loop is_valid
  fire p x r = if is_valid p then fire_loop x (r p) else ([], some invalid_point)
