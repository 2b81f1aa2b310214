-- ===== src/Base/Keys.antt =====
-- The keys of an association list: distinct keys, and how insertion and removal change them.
use mathlib.Core.List.{Perm}
use mathlib.Core.List.Perm
use Prim.Native.Nat.{◌+◌}
use Prim.Native.String.{String}
use mathlib.Core.Path.{◌≡◌, refl, sym, subst}
use mathlib.Core.Logic.{◌⊎◌, inl, inr}
use mathlib.Core.Option.{none, some}
use mathlib.Core.List.{List, [], ◌∷◌, ◌++◌}
use native.Mathlib.Omega.{arith}
use text.Mathlib.Text.{◌==◌ as str_eq}
use text.Mathlib.TextEquality.{eq_iff}
use mivia_ai_sdk.Base.Tests.{Bool-cases, str_eq→eq}
use mivia_ai_sdk.Base.Lists.{length, In, In-append}
use mivia_ai_sdk.Base.Maps.{Assoc, lookup, insert, remove, keys}

abbrev pub Distinct : List String → Type 0
Distinct [] = Unit
Distinct (x ∷ xs) = ¬ In x xs × Distinct xs

pub Distinct-append_one :
    (xs : List String) (a : String) → Distinct xs → ¬ In a xs → Distinct (xs ++ a ∷ [])
Distinct-append_one [] a d n = ((λ h. h), tt)
Distinct-append_one (x ∷ xs) a d n = (
  (λ h. elim (In-append x xs (a ∷ []) h) [
    | inl p ↦ d.0 p
    | inr p ↦ elim p [ inl e ↦ n (inl (sym e)) | inr q ↦ q ]
  ]),
  Distinct-append_one xs a d.1 (λ h. n (inr h)),
)

module _ {ℓ} {V : Type ℓ} where
  pub In-keys : (k : String) (v : V) (m : Assoc V) → lookup k m ≡ some v → In k (keys m)
  unfolding lookup
  In-keys k v [] h = ground arith
  In-keys k v ((j, w) ∷ m) h = ground (arith, eq_iff j k, In-keys k v m)

  pub lookup-some : (k : String) (m : Assoc V) → In k (keys m) → (v : V) × (lookup k m ≡ some v)
  unfolding lookup
  lookup-some k [] h = elim h [ ]
  lookup-some k ((j, w) ∷ m) h = elim (Bool-cases (str_eq j k)) [
    | inl e ↦ (w, rw e)
    | inr e ↦ elim h [
      | inl p ↦ absurd (ground (arith, eq_iff j k))
      | inr p ↦ rw e (lookup-some k m p)
    ]
  ]

  pub not-In-keys : (k : String) (m : Assoc V) → lookup k m ≡ none → ¬ In k (keys m)
  not-In-keys k m e h = let found = lookup-some k m h in ground (arith, found.1)

  pub keys-insert_new :
      (k : String) (v : V) (m : Assoc V)
      → lookup k m ≡ none
      → keys (insert k v m) ≡ keys m ++ k ∷ []
  unfolding lookup insert
  keys-insert_new k v [] h = refl
  keys-insert_new k v ((j, w) ∷ m) h = ground (arith, keys-insert_new k v m)

  pub keys-insert_old :
      (k : String) (v w : V) (m : Assoc V) → lookup k m ≡ some w → keys (insert k v m) ≡ keys m
  unfolding lookup insert
  keys-insert_old k v w [] h = ground arith
  keys-insert_old k v w ((j, u) ∷ m) h = ground (arith, keys-insert_old k v w m)

  pub remove_absent : (k : String) (m : Assoc V) → ¬ In k (keys m) → remove k m ≡ m
  unfolding remove
  remove_absent k [] h = refl
  remove_absent k ((j, w) ∷ m) h = elim (Bool-cases (str_eq j k)) [
    | inl e ↦ absurd (h (inl (sym (str_eq→eq j k e))))
    | inr e ↦ rw (e, remove_absent k m (λ p. h (inr p)))
  ]

  pub In-keys-remove : (a k : String) (m : Assoc V) → In a (keys (remove k m)) → In a (keys m)
  unfolding remove
  In-keys-remove a k [] h = h
  In-keys-remove a k ((j, w) ∷ m) h = elim (Bool-cases (str_eq j k)) [
    | inl e ↦ inr (In-keys-remove a k m (rw (e, remove) at h))
    | inr e ↦ elim (keep (rw (e, remove) at h)) [
      | inl p ↦ inl p
      | inr p ↦ inr (In-keys-remove a k m p)
    ]
  ]
    where
      keep : (a ≡ j) ⊎ In a (keys (remove k m)) → (a ≡ j) ⊎ In a (keys (remove k m))
      keep x = x

  pub Distinct-remove :
      (k : String) (m : Assoc V) → Distinct (keys m) → Distinct (keys (remove k m))
  unfolding remove
  Distinct-remove k [] d = tt
  Distinct-remove k ((j, w) ∷ m) d = elim (Bool-cases (str_eq j k)) [
    | inl e ↦ rw e (Distinct-remove k m d.1)
    | inr e ↦ rw e ((λ h. d.0 (In-keys-remove j k m h)), Distinct-remove k m d.1)
  ]

  pub keys-remove-perm :
      (k : String) (m : Assoc V)
      → Distinct (keys m)
      → In k (keys m)
      → Perm (keys m) (k ∷ keys (remove k m))
  unfolding remove
  keys-remove-perm k [] d h = elim h [ ]
  keys-remove-perm k ((j, w) ∷ m) d h = elim (Bool-cases (str_eq j k)) [
    | inl e ↦
        rw (e, remove_absent k m (subst (λ x. ¬ In x (keys m)) (str_eq→eq j k e) d.0))
          (Perm.cons' (str_eq→eq j k e) Perm.rfl)
    | inr e ↦ elim h [
      | inl p ↦ absurd (ground (arith, eq_iff j k))
      | inr p ↦ rw e (Perm.trans (Perm.cons j (keys-remove-perm k m d.1 p)) (Perm.swap k j _))
    ]
  ]

  pub length-remove :
      (k : String) (m : Assoc V)
      → Distinct (keys m)
      → In k (keys m)
      → length m ≡ length (remove k m) + 1
  unfolding remove
  length-remove k [] d h = elim h [ ]
  length-remove k ((j, w) ∷ m) d h = elim (Bool-cases (str_eq j k)) [
    | inl e ↦
        rw (e, remove_absent k m (subst (λ x. ¬ In x (keys m)) (str_eq→eq j k e) d.0)) (omega arith)
    | inr e ↦ elim h [
      | inl p ↦ absurd (ground (arith, eq_iff j k))
      | inr p ↦ rw e (omega (arith, length-remove k m d.1 p))
    ]
  ]
