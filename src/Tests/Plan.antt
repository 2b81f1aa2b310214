-- ===== src/Tests/Plan.antt =====
-- The package context/plan on five messages: a system message, an old question, a call of a tool with
-- its reply, and a new question.
use mathlib.Core.List.{Perm}
use mathlib.Core.List.{length as list_length}
use mathlib.Core.List.Perm
use mathlib.Core.Nat.{ℕ as Count, zero as no_count, suc as next_count}
use mivia_ai_sdk.Base.{
  contains, ℕ, suc, ◌≡◌, refl, sym, ◌∙◌, ap, String, List, [], ◌∷◌, true, Option, none, some,
  length, arith,
}
use mivia_ai_sdk.Base.Int.{ℤ, pos, ◌≤ℤ◌, ◌<ℤ◌}
use mivia_ai_sdk.Plan.{Message, role_system, role_user, role_assistant, role_tool, build_units}
use mivia_ai_sdk.Plan.Units.{concat}
use mivia_ai_sdk.Plan.Window.{Window, validate_window, budget, compact_trigger, compact_target}
use mivia_ai_sdk.Plan.Window.Thresholds.{validate_window-thresholds}
use mivia_ai_sdk.Plan.Compact.{CompactResult, compact, result}
use mivia_ai_sdk.Plan.Compact.Retention.{AreParts, compact-AreParts}
use mivia_ai_sdk.Plan.Compact.Mandatory.{Retains, compact-Retains}
use mivia_ai_sdk.Plan.Compact.Fits.{compact-le}

abbrev message : String → String → String → List String → Message String
message role content tool_call_id tool_calls = record {
  role = role;
  content = content;
  name = "";
  tool_call_id = tool_call_id;
  tool_calls = tool_calls;
  rest = "";
}

abbrev guiding : Message String
guiding = message role_system "be brief" "" []

abbrev asking : Message String
asking = message role_user "what is the time" "" []

abbrev calling : Message String
calling = message role_assistant "" "" ("clock" ∷ [])

abbrev answering : Message String
answering = message role_tool "noon" "clock" []

abbrev asking_again : Message String
asking_again = message role_user "and the day" "" []

abbrev history : List (Message String)
history = guiding ∷ asking ∷ calling ∷ answering ∷ asking_again ∷ []

-- One token for each message.
abbrev estimate : List (Message String) → Option ℤ
estimate ms = some (pos (length ms))

abbrev window : Window
window = record {
  max_tokens = pos 4;
  reserve = pos 0;
  compaction = record {
    trigger_percent = pos 50;
    target_percent = pos 25;
    target_tokens = pos 0;
    recent_tail = pos 0;
    preserve_names = [];
  };
}

abbrev shorter : CompactResult String
shorter = record {
  kept = guiding ∷ calling ∷ answering ∷ asking_again ∷ [];
  dropped = asking ∷ [];
  before_tokens = pos 5;
  after_tokens = pos 4;
  trigger_tokens = pos 2;
  target_tokens = pos 1;
  compacted = true;
}

history-compacted : compact estimate window history ≡ result shorter
unfolding compact contains
history-compacted = refl

window-accepted : validate_window window ≡ none
unfolding validate_window
window-accepted = refl

abbrev to_native : Count → ℕ
to_native no_count = 0
to_native (next_count n) = suc (to_native n)

to_native-length : (ms : List (Message String)) → to_native (list_length ms) ≡ length ms
to_native-length [] = refl
to_native-length (m ∷ ms) = ap suc (to_native-length ms)

estimate-unordered : (xs ys : List (Message String)) → Perm xs ys → estimate xs ≡ estimate ys
estimate-unordered xs ys p =
    ap (λ n. some (pos n))
      (sym (to_native-length xs) ∙ (ap to_native (Perm.length-eq p) ∙ to_native-length ys))

validate_window-thresholds_example :
    (pos 0 <ℤ budget window)
    × (pos 0 ≤ℤ compact_trigger window)
    × (compact_trigger window ≤ℤ budget window)
    × (pos 0 ≤ℤ compact_target window)
    × (compact_target window ≤ℤ budget window)
validate_window-thresholds_example = validate_window-thresholds window window-accepted (omega arith)

compact-AreParts_example :
    AreParts history shorter × (concat (build_units (length history) history) ≡ history)
compact-AreParts_example = compact-AreParts estimate window history shorter history-compacted

compact-Retains_example : Retains window history shorter
compact-Retains_example = compact-Retains estimate window history shorter history-compacted

compact-le_example :
    (estimate shorter.kept ≡ some shorter.after_tokens) × (shorter.after_tokens ≤ℤ budget window)
compact-le_example =
    compact-le estimate estimate-unordered window history shorter (omega arith) history-compacted
