-- ===== src/Base/Sort.antt =====
-- Go's `sort.Strings` and `sort.StringsAreSorted`, by the order of texts: an insertion sort.
use Prim.Native.Nat.{ℕ, Ordering, compare as compare_ℕ}
use Prim.Native.Char.{code}
use Prim.Native.String.{String, compare, then as lexicographic}
use Prim.Native.String.compare
use mathlib.Core.Path.{◌≡◌, refl, sym, ap, ◌∙◌}
use mathlib.Core.Logic.{inl, inr}
use mathlib.Core.Bool.{Bool, true, false, ◌&&◌, ◌||◌}
use mathlib.Core.List.{List, [], ◌∷◌}
use text.Mathlib.Text.{◌==◌ as str_eq}
use native.Mathlib.Omega.{arith}
use mivia_ai_sdk.Base.Tests.{if◌then◌else◌, Bool-cases}
use mivia_ai_sdk.Base.Lists.{contains, In, In→contains, contains-false, not-In}
use mivia_ai_sdk.Base.Keys.{Distinct}
use text.Mathlib.TextEquality.{eq_iff}

unfoldable pub str_leb : String → String → Bool
str_leb a b = elim (compare a b) [ Ordering.gt ↦ false | _ ↦ true ]

unfoldable pub insert_sorted : String → List String → List String
unfolding str_leb
insert_sorted k [] = k ∷ []
insert_sorted k (j ∷ js) = if str_leb k j then k ∷ j ∷ js else j ∷ insert_sorted k js

unfoldable pub sort : List String → List String
unfolding insert_sorted
sort [] = []
sort (k ∷ ks) = insert_sorted k (sort ks)

-- Whether no text is smaller than the one before it.
unfoldable pub is_sorted : List String → Bool
unfolding str_leb
is_sorted [] = true
is_sorted (x ∷ []) = true
is_sorted (x ∷ y ∷ ys) = str_leb x y && is_sorted (y ∷ ys)

contains-cons :
    (x : String) (xs : List String) (a : String)
    → contains (x ∷ xs) a ≡ (str_eq x a || contains xs a)
unfolding contains
contains-cons x xs a = refl

contains-insert_sorted :
    (k : String) (xs : List String) (a : String)
    → contains (insert_sorted k xs) a ≡ contains (k ∷ xs) a
unfolding insert_sorted contains
contains-insert_sorted k [] a = refl
contains-insert_sorted k (x ∷ xs) a = ground (arith, contains-insert_sorted k xs a)

-- Sorting keeps the members.
pub contains-sort : (xs : List String) (a : String) → contains (sort xs) a ≡ contains xs a
unfolding sort
contains-sort [] a = refl
contains-sort (x ∷ xs) a = ground (
  arith,
  contains-insert_sorted x (sort xs) a,
  contains-sort xs a,
  contains-cons x (sort xs) a,
  contains-cons x xs a,
)

-- The comparison the other way round.
opposite : Ordering → Ordering
opposite Ordering.lt = Ordering.gt
opposite Ordering.eq = Ordering.eq
opposite Ordering.gt = Ordering.lt

number-opposite : (m n : ℕ) → compare_ℕ n m ≡ opposite (compare_ℕ m n)
unfolding opposite
number-opposite m n = ground arith

lexicographic-opposite :
    (o o' r r' : Ordering)
    → o' ≡ opposite o
    → r' ≡ opposite r
    → lexicographic o' r' ≡ opposite (lexicographic o r)
unfolding opposite
lexicographic-opposite Ordering.lt o' r r' p q = rw p refl
lexicographic-opposite Ordering.eq o' r r' p q = rw p q
lexicographic-opposite Ordering.gt o' r r' p q = rw p refl

text-opposite : (s t : String) → compare t s ≡ opposite (compare s t)
unfolding opposite
text-opposite String.[] String.[] = refl
text-opposite String.[] (String.◌∷◌ d t) =
    compare.cons-nil d t ∙ ap opposite (sym (compare.nil-cons d t))
text-opposite (String.◌∷◌ c s) String.[] =
    compare.nil-cons c s ∙ ap opposite (sym (compare.cons-nil c s))
text-opposite (String.◌∷◌ c s) (String.◌∷◌ d t) =
    compare.cons-cons d c t s
    ∙ lexicographic-opposite (compare_ℕ (code c) (code d)) _ (compare s t) _
        (number-opposite (code c) (code d)) (text-opposite s t)
    ∙ ap opposite (sym (compare.cons-cons c d s t))

pub str_leb_total : (s t : String) → str_leb s t ≡ false → str_leb t s ≡ true
unfolding str_leb
str_leb_total s t h = ground (arith, text-opposite s t, opposite_gt (compare s t))
  where
    opposite_gt : (o : Ordering) → (o ≡ Ordering.gt) → opposite o ≡ Ordering.lt
    opposite_gt o e = unfold opposite in ground arith

insert_sorted-is_sorted :
    (k : String) (xs : List String) → is_sorted xs ≡ true → is_sorted (insert_sorted k xs) ≡ true
unfolding insert_sorted is_sorted
insert_sorted-is_sorted k [] h = refl
insert_sorted-is_sorted k (x ∷ []) h = elim (Bool-cases (str_leb k x)) [
  | inl e ↦ rw (e, insert_sorted) (ground arith)
  | inr e ↦ rw (e, insert_sorted) (ground (arith, str_leb_total k x e))
]
insert_sorted-is_sorted k (x ∷ y ∷ ys) h = elim (Bool-cases (str_leb k x)) [
  | inl e ↦ rw (e, insert_sorted) (ground arith)
  | inr e ↦ elim (Bool-cases (str_leb k y)) [
    | inl d ↦ rw (e, d, insert_sorted) (ground (arith, str_leb_total k x e))
    | inr d ↦
        rw (e, d, insert_sorted)
          (ground
            (arith, rw (d, insert_sorted) at (insert_sorted-is_sorted k (y ∷ ys) (ground arith))))
  ]
]

-- Sorting sorts.
pub sort-is_sorted : (xs : List String) → is_sorted (sort xs) ≡ true
unfolding sort is_sorted
sort-is_sorted [] = refl
sort-is_sorted (x ∷ xs) = insert_sorted-is_sorted x (sort xs) (sort-is_sorted xs)

insert_sorted-Distinct :
    (k : String) (xs : List String) → ¬ In k xs → Distinct xs → Distinct (insert_sorted k xs)
unfolding insert_sorted
insert_sorted-Distinct k [] n d = ((λ i. i), tt)
insert_sorted-Distinct k (x ∷ xs) n d = elim (Bool-cases (str_leb k x)) [
  | inl e ↦ rw (e, insert_sorted) (n, d)
  | inr e ↦
      rw (e, insert_sorted)
        (
          (λ i. n (
              inl (
                (eq_iff k x).0 (
                  ground (
                    arith,
                    In→contains (insert_sorted k xs) x i,
                    contains-insert_sorted k xs x,
                    contains-false xs x d.0,
                    contains-cons k xs x,
                  ))))),
          insert_sorted-Distinct k xs (λ i. n (inr i)) d.1,
        )
]

pub sort-Distinct : (xs : List String) → Distinct xs → Distinct (sort xs)
unfolding sort
sort-Distinct [] d = tt
sort-Distinct (x ∷ xs) d =
    insert_sorted-Distinct x (sort xs)
      (not-In (sort xs) x (contains-sort xs x ∙ contains-false xs x d.0)) (sort-Distinct xs d.1)
