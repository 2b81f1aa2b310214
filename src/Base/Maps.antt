-- ===== src/Base/Maps.antt =====
-- A Go map with string keys, as an association list in the order of insertion.
use Prim.Native.String.{String}
use mathlib.Core.Path.{◌≡◌, refl}
use mathlib.Core.Logic.{inl, inr}
use mathlib.Core.Option.{Option, none, some}
use mathlib.Core.List.{List, [], ◌∷◌}
use native.Mathlib.Omega.{arith}
use text.Mathlib.Text.{◌==◌ as str_eq}
use text.Mathlib.TextEquality.{eq_iff}
use mivia_ai_sdk.Base.Tests.{if◌then◌else◌, Bool-cases}

abbrev pub Assoc {ℓ} : Type ℓ → Type ℓ
Assoc V = List (String × V)

module _ {ℓ} {V : Type ℓ} where
  unfoldable pub insert : String → V → Assoc V → Assoc V
  insert k v [] = (k, v) ∷ []
  insert k v ((j, w) ∷ m) = if str_eq j k then (j, v) ∷ m else (j, w) ∷ insert k v m

  unfoldable pub lookup : String → Assoc V → Option V
  lookup k [] = none
  lookup k ((j, v) ∷ m) = if str_eq j k then some v else lookup k m

  unfoldable pub remove : String → Assoc V → Assoc V
  remove k [] = []
  remove k ((j, v) ∷ m) = let rest = remove k m in if str_eq j k then rest else (j, v) ∷ rest

  abbrev pub keys : Assoc V → List String
  keys [] = []
  keys ((j, v) ∷ m) = j ∷ keys m

  -- Writing a key changes what is read under that key, and nothing else.
  pub lookup-insert :
      (written read : String) (v : V) (m : Assoc V)
      → lookup read (insert written v m) ≡ (if str_eq written read then some v else lookup read m)
  unfolding insert lookup
  lookup-insert written read v [] = refl
  lookup-insert written read v ((at, w) ∷ rest) = elim (Bool-cases (str_eq at written)) [
    | inl here ↦
        rw (here, insert)
          (ground (arith, (eq_iff at written).0 here, eq_iff at read, eq_iff written read))
    | inr there ↦
        rw (there, insert)
          (ground (
            arith,
            lookup-insert written read v rest,
            eq_iff written read,
            eq_iff at read,
            eq_iff at written,
          ))
  ]

  -- After a removal the key reads as missing; the other keys read as before.
  pub lookup-remove :
      (gone read : String) (m : Assoc V)
      → lookup read (remove gone m) ≡ (if str_eq gone read then none else lookup read m)
  unfolding remove lookup
  lookup-remove gone read [] = ground arith
  lookup-remove gone read ((at, w) ∷ rest) = elim (Bool-cases (str_eq at gone)) [
    | inl here ↦
        rw (here, remove)
          (ground (arith, lookup-remove gone read rest, (eq_iff at gone).0 here, eq_iff at read))
    | inr there ↦
        rw (there, remove)
          (ground
            (arith, eq_iff at gone, lookup-remove gone read rest, eq_iff gone read, eq_iff at read))
  ]
