-- ===== src/Tests/Events.antt =====
-- The package events with two handlers at one point, of which the second vetoes.
use mivia_ai_sdk.Base.{
  ℕ, ◌≡◌, refl, inl, inr, String, [], ◌∷◌, true, false, none, some, arith, eq_iff,
}
use mivia_ai_sdk.Events.{pre_tool, Entry, Registry, is_valid, add, remove, fire, vetoed}
use mivia_ai_sdk.Events.Order.{IsRegistry, add-IsRegistry, Runs, fire-Runs}

abbrev allowing : Entry ℕ String
allowing = record { name = "log"; handler = λ x. (none, true) }

abbrev vetoing : Entry ℕ String
vetoing = record { name = "deny"; handler = λ x. (none, false) }

abbrev registry : Registry ℕ String
registry p = allowing ∷ vetoing ∷ []

registry-IsRegistry : IsRegistry registry
registry-IsRegistry p = (
  (λ i. elim i [ inl e ↦ ground (arith, (eq_iff "log" "deny").1 e) | inr j ↦ j ]),
  ((λ j. j), tt),
)

add-IsRegistry_example :
    IsRegistry (add (λ s. s) pre_tool "trace" (some (λ x. (none, true))) registry).0
    × IsRegistry (remove pre_tool "trace" registry).0
add-IsRegistry_example =
    add-IsRegistry (λ s. s) pre_tool "trace" (some (λ x. (none, true))) registry registry-IsRegistry

-- Fire calls both, and returns the veto.
fire-vetoed : fire pre_tool 7 registry ≡ ("log" ∷ "deny" ∷ [], some (vetoed "deny"))
unfolding fire
fire-vetoed = refl

fire-Runs_example :
    Runs 7 (registry pre_tool) (fire pre_tool 7 registry).0 (fire pre_tool 7 registry).1
fire-Runs_example = fire-Runs pre_tool 7 registry (unfold is_valid in refl)
