-- ===== src/Events/Order.antt =====
-- events/registry.go: one handler per name and point, and the order in which Fire calls them.
use mivia_ai_sdk.Base.{
  ◌≡◌, ◌↔◌, refl, sym, ap, subst, inl, inr, String, List, [], ◌∷◌, ◌++◌, true, false, Option, none,
  some, str_eq, eq_iff, Bool-cases, Option-cases, arith, In,
}
use mivia_ai_sdk.Base.Keys.{Distinct, Distinct-append_one}
use mivia_ai_sdk.Events.{
  Point, point_eq, is_valid, Answer, Entry, Failure, Registry, put, has_name, add, without, remove,
  verdict, fire_loop, fire,
}

point_eq_iff : (p q : Point) → (point_eq p q ≡ true) ↔ (p ≡ q)
unfolding point_eq
point_eq_iff p q = ground arith

module _ {P E : Type 0} where
  abbrev pub names : List (Entry P E) → List String
  names [] = []
  names (e ∷ es) = e.name ∷ names es

  -- No two handlers of a point share a name.
  abbrev pub IsRegistry : Registry P E → Type 0
  IsRegistry r = (p : Point) → Distinct (names (r p))

  names-append :
      (es : List (Entry P E)) (e : Entry P E) → names (es ++ e ∷ []) ≡ names es ++ e.name ∷ []
  names-append [] e = refl
  names-append (d ∷ es) e = ap (λ l. d.name ∷ l) (names-append es e)

  has_name_iff : (n : String) (es : List (Entry P E)) → (has_name n es ≡ true) ↔ In n (names es)
  unfolding has_name
  has_name_iff n [] = ((λ h. absurd (ground arith)), (λ i. elim i [ ]))
  has_name_iff n (e ∷ es) =
      let (to, from) = has_name_iff n es in
      (
        (λ h. elim (Bool-cases (str_eq e.name n)) [
          | inl q ↦ inl (sym ((eq_iff e.name n).0 q))
          | inr q ↦ inr (to (ground arith))
        ]),
        (λ i. elim i [
          | inl q ↦ ground (arith, (eq_iff e.name n).1 (sym q))
          | inr j ↦ ground (arith, from j)
        ]),
      )

  without-In :
      (n x : String) (es : List (Entry P E)) → In x (names (without n es)) → In x (names es)
  unfolding without
  without-In n x [] i = i
  without-In n x (e ∷ es) i = elim (Bool-cases (str_eq e.name n)) [
    | inl q ↦ inr (rw (q, without) at i)
    | inr q ↦ elim (rw (q, without) at i) [ inl d ↦ inl d | inr j ↦ inr (without-In n x es j) ]
  ]

  without-Distinct :
      (n : String) (es : List (Entry P E)) → Distinct (names es) → Distinct (names (without n es))
  unfolding without
  without-Distinct n [] d = tt
  without-Distinct n (e ∷ es) d = elim (Bool-cases (str_eq e.name n)) [
    | inl q ↦ rw (q, without) d.1
    | inr q ↦ rw (q, without) ((λ i. d.0 (without-In n e.name es i)), without-Distinct n es d.1)
  ]

  put-IsRegistry :
      (p : Point) (es : List (Entry P E)) (r : Registry P E)
      → IsRegistry r
      → Distinct (names es)
      → IsRegistry (put p es r)
  unfolding put
  put-IsRegistry p es r w d q = elim (Bool-cases (point_eq p q)) [
    | inl e ↦ rw (e, put) d
    | inr e ↦ rw (e, put) (w q)
  ]

  -- Add and Remove, whatever they return, keep the names at every point distinct.
  pub add-IsRegistry :
      (trim : String → String) (p : Point) (n : String) (h : Option (P → Answer E))
      (r : Registry P E)
      → IsRegistry r
      → IsRegistry (add trim p n h r).0 × IsRegistry (remove p n r).0
  unfolding add remove
  add-IsRegistry trim p n h r w = (added h, removed)
    where
      fresh :
          (f : P → Answer E)
          → has_name n (r p) ≡ false
          → Distinct (names (r p ++ record { name = n; handler = f } ∷ []))
      fresh f e = subst Distinct (sym (names-append (r p) (record { name = n; handler = f }))) (
          Distinct-append_one (names (r p)) n (w p)
            (λ i. ground (arith, (has_name_iff n (r p)).1 i)))

      added : (o : Option (P → Answer E)) → IsRegistry (add trim p n o r).0
      added none = elim (Bool-cases (is_valid p)) [
        | inl v ↦ elim (Bool-cases (str_eq (trim n) "")) [
          | inl b ↦ rw (v, b, add) w
          | inr b ↦ rw (v, b, add) w
        ]
        | inr v ↦ rw (v, add) w
      ]
      added (some f) = elim (Bool-cases (is_valid p)) [
        | inl v ↦ elim (Bool-cases (str_eq (trim n) "")) [
          | inl b ↦ rw (v, b, add) w
          | inr b ↦ elim (Bool-cases (has_name n (r p))) [
            | inl e ↦ rw (v, b, e, add) w
            | inr e ↦ rw (v, b, e, add) (put-IsRegistry p _ r w (fresh f e))
          ]
        ]
        | inr v ↦ rw (v, add) w
      ]

      removed : IsRegistry (remove p n r).0
      removed = elim (Bool-cases (has_name n (r p))) [
        | inl e ↦ rw (e, remove) (put-IsRegistry p _ r w (without-Distinct n (r p) (w p)))
        | inr e ↦ rw (e, remove) w
      ]

  -- Every handler allows the action.
  abbrev pub AllAllow : P → List (Entry P E) → Type 0
  AllAllow x [] = Unit
  AllAllow x (e ∷ es) = (verdict e.name (e.handler x) ≡ none) × AllAllow x es

  -- How a run of Fire over the handlers can go: through all of them, or up to the first that fails.
  pub data Runs (x : P) : List (Entry P E) → List String → Option (Failure E) → Type 0 where
    through : (es : List (Entry P E)) → AllAllow x es → Runs x es (names es) none
    stopped :
        (before after : List (Entry P E)) (e : Entry P E) (f : Failure E)
        → AllAllow x before
        → verdict e.name (e.handler x) ≡ some f
        → Runs x (before ++ e ∷ after) (names before ++ e.name ∷ []) (some f)

  Runs-cons :
      (x : P) (e : Entry P E) (es : List (Entry P E)) (ns : List String) (o : Option (Failure E))
      → verdict e.name (e.handler x) ≡ none
      → Runs x es ns o
      → Runs x (e ∷ es) (e.name ∷ ns) o
  Runs-cons x e _ _ _ v (through es a) = through (e ∷ es) (v, a)
  Runs-cons x e _ _ _ v (stopped before after d f a h) = stopped (e ∷ before) after d f (v, a) h

  -- Fire over a valid point calls its handlers in the order of registration, each once, up to and
  -- with the first that fails or vetoes, whose failure it returns; where none does, it calls all.
  pub fire-Runs :
      (p : Point) (x : P) (r : Registry P E)
      → is_valid p ≡ true
      → Runs x (r p) (fire p x r).0 (fire p x r).1
  unfolding fire
  fire-Runs p x r v = rw (v, fire) (loop (r p))
    where
      loop : (es : List (Entry P E)) → Runs x es (fire_loop x es).0 (fire_loop x es).1
      loop [] = through [] tt
      loop (e ∷ es) = elim (Option-cases (verdict e.name (e.handler x))) [
        | inl v ↦ rw (v, fire_loop) (Runs-cons x e es _ _ v (loop es))
        | inr (f, q) ↦ rw (q, fire_loop) (stopped [] es e f tt q)
      ]
