-- ===== src/Base/Counting.antt =====
-- How many distinct texts a list can hold.
use Prim.Native.Nat.{suc, ◌≤◌}
use Prim.Native.String.{String}
use mathlib.Core.Path.{◌≡◌}
use mathlib.Core.Bool.{true, false}
use mathlib.Core.Logic.{inl, inr}
use mathlib.Core.List.{List, [], ◌∷◌}
use native.Mathlib.Omega.{arith}
use text.Mathlib.Text.{◌==◌ as str_eq}
use text.Mathlib.TextEquality.{eq_iff}
use mivia_ai_sdk.Base.Tests.{if◌then◌else◌, Bool-cases}
use mivia_ai_sdk.Base.Lists.{length, contains, contains-false, not-In}
use mivia_ai_sdk.Base.Keys.{Distinct}

-- The list without the first occurrence of a text.
unfoldable pub erase : String → List String → List String
erase a [] = []
erase a (x ∷ xs) = let rest = erase a xs in if str_eq x a then xs else x ∷ rest

length-erase :
    (a : String) (xs : List String) → contains xs a ≡ true → suc (length (erase a xs)) ≡ length xs
unfolding erase contains
length-erase a [] h = ground arith
length-erase a (x ∷ xs) h = ground (arith, length-erase a xs)

contains-erase :
    (a b : String) (xs : List String)
    → contains xs b ≡ true
    → str_eq a b ≡ false
    → contains (erase a xs) b ≡ true
unfolding erase contains
contains-erase a b [] h n = ground arith
contains-erase a b (x ∷ xs) h n =
    ground (arith, contains-erase a b xs, eq_iff x a, eq_iff x b, eq_iff a b)

-- Distinct texts that all stand in a list are no more than its length.
pub length-le-Distinct :
    (xs ys : List String)
    → Distinct xs
    → ((a : String) → contains xs a ≡ true → contains ys a ≡ true)
    → length xs ≤ length ys
unfolding contains
length-le-Distinct [] ys d h = omega arith
length-le-Distinct (x ∷ xs) ys d h = ground (
  arith,
  length-erase x ys (h x (ground (arith, eq_iff x x))),
  length-le-Distinct xs (erase x ys) d.1 (λ a i.
      contains-erase x a ys (h a (ground arith))
        (ground (arith, eq_iff x a, contains-false xs x d.0))),
)

-- Where they are as many, each text of the list is among them.
pub contains-Distinct :
    (xs ys : List String)
    → Distinct xs
    → ((a : String) → contains xs a ≡ true → contains ys a ≡ true)
    → length ys ≤ length xs
    → (a : String) → contains ys a ≡ true
    → contains xs a ≡ true
contains-Distinct xs ys d h l a i = elim (Bool-cases (contains xs a)) [
  | inl e ↦ e
  | inr e ↦ absurd (
      ground (
        arith,
        length-le-Distinct (a ∷ xs) ys (not-In xs a e, d)
            (λ b j. unfold contains in ground (arith, eq_iff a b, h b)),
      ))
]
