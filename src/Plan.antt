-- ===== src/Plan.antt =====
-- context/plan/compact_units.go and provider/types.go: messages, and their units.
pub mod Units
pub mod Window
pub mod Compact
use mivia_ai_sdk.Base.{
  ℕ, zero, suc, String, List, [], ◌∷◌, Bool, true, false, ◌&&◌, ◌||◌, not, str_eq, if◌then◌else◌,
  contains,
}

abbrev pub role_system : String
role_system = "system"

abbrev pub role_user : String
role_user = "user"

abbrev pub role_assistant : String
role_assistant = "assistant"

abbrev pub role_tool : String
role_tool = "tool"

-- The fields that planning reads; `C` holds the others (the reasoning blocks and the time). Of a
-- tool call it reads the ID.
pub record Message (C : Type 0) : Type 0 where
  pub role : String
  pub content : String
  pub name : String
  pub tool_call_id : String
  pub tool_calls : List String
  pub rest : C

abbrev pub is_empty : List String → Bool
is_empty [] = true
is_empty (x ∷ xs) = false

-- Whether nothing is left of the IDs when those answered are deleted.
unfoldable pub all_answered : List String → List String → Bool
all_answered [] found = true
all_answered (id ∷ ids) found = contains found id && all_answered ids found

module _ {C : Type 0} where
  -- Whether a unit with further messages starts here: an assistant message that carries tool calls.
  unfoldable pub opens_unit : Message C → Bool
  opens_unit m = str_eq m.role role_assistant && not (is_empty m.tool_calls)

  -- The inner loop of `buildUnits`: the replies to `ids` that come first, and what is left.
  unfoldable pub replies : List String → List (Message C) → List (Message C) × List (Message C)
  replies ids [] = ([], [])
  replies ids (m ∷ ms) =
      let more = replies ids ms in
      if str_eq m.role role_tool && contains ids m.tool_call_id
      then (m ∷ more.0, more.1)
      else ([], m ∷ ms)

  -- `buildUnits`, with the number of messages as fuel.
  unfoldable pub build_units : ℕ → List (Message C) → List (List (Message C))
  unfolding opens_unit replies
  build_units fuel [] = []
  build_units zero (m ∷ ms) = []
  build_units (suc fuel) (m ∷ ms) =
      let more = replies m.tool_calls ms in
      let rest = build_units fuel more.1 in
      let next = build_units fuel ms in
      if opens_unit m then (m ∷ more.0) ∷ rest else (m ∷ []) ∷ next

  -- `isAssistantTool`.
  unfoldable pub is_assistant_tool : List (Message C) → Bool
  unfolding opens_unit
  is_assistant_tool [] = false
  is_assistant_tool (m ∷ ms) = opens_unit m

  -- The IDs that the messages answer.
  abbrev pub answers : List (Message C) → List String
  answers [] = []
  answers (m ∷ ms) = m.tool_call_id ∷ answers ms

  -- `isComplete`.
  unfoldable pub is_complete : List (Message C) → Bool
  unfolding is_assistant_tool all_answered
  is_complete [] = false
  is_complete (m ∷ ms) = is_assistant_tool (m ∷ ms) && all_answered m.tool_calls (answers ms)

  -- `hasName`.
  unfoldable pub has_name : List String → List (Message C) → Bool
  has_name preserve [] = false
  has_name preserve (m ∷ ms) = contains preserve m.name || has_name preserve ms

  -- `hasRole`, and `hasUserMessage`.
  unfoldable pub has_role : String → List (Message C) → Bool
  has_role role [] = false
  has_role role (m ∷ ms) = str_eq m.role role || has_role role ms
