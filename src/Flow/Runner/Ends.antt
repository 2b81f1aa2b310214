-- ===== src/Flow/Runner/Ends.antt =====
-- flow/runner.go: a walk over steps whose retries and loops are bounded ends.
use mivia_ai_sdk.Base.{
  ℕ, zero, suc, ◌+◌, ◌≤◌, ◌<◌, ◌≡◌, ◌≢◌, refl, sym, subst, ◌⊎◌, inl, inr, String, List, [], ◌∷◌,
  Option, none, some, Assoc, lookup, insert, keys, contains→In, In→contains, length, leb,
  Bool-cases, Option-cases, arith, In, All,
}
use mivia_ai_sdk.Base.Keys.{
  Distinct, Distinct-append_one, not-In-keys, keys-insert_new, keys-insert_old,
}
use mivia_ai_sdk.Base.Lists.{In-append}
use mivia_ai_sdk.Base.Counting.{contains-Distinct}
use mivia_ai_sdk.Machine.{Transition}
use mivia_ai_sdk.Flow.Step.{Step, Outcome}
use mivia_ai_sdk.Flow.Graph.{ids_of}
use mivia_ai_sdk.Flow.Cycles.Search.{length-ids_of}
use mivia_ai_sdk.Flow.Rules.{AreKnown}
use mivia_ai_sdk.Flow.Execution.{RunError, Turn, paused}
use mivia_ai_sdk.Flow.Execution.Fuel.{IsBounded}
use mivia_ai_sdk.Flow.Runner.{Walk, advance, next_round, run_loop}
use mivia_ai_sdk.Flow.Runner.Finds.{next_ready_group-IsFound}
use mivia_ai_sdk.Flow.Runner.Progress.{Turned, advance-Turned}
use mivia_ai_sdk.Flow.Runner.Writes.{Written, advance_group-Writes}

-- The outcomes are a map whose keys are steps.
abbrev pub IsTracked : List Step → Assoc Outcome → Type 0
IsTracked steps m = Distinct (keys m) × ((k : String) → In k (keys m) → In k (ids_of steps))

-- Every step has an outcome.
abbrev pub AreResolved : List Step → Assoc Outcome → Type 0
AreResolved steps m = (id : String) → In id (ids_of steps) → lookup id m ≢ none

insert-IsTracked :
    (steps : List Step) (k : String) (o : Outcome) (m : Assoc Outcome)
    → In k (ids_of steps)
    → IsTracked steps m
    → IsTracked steps (insert k o m)
insert-IsTracked steps k o m i (d, known) = elim (Option-cases (lookup k m)) [
  | inl e ↦
      subst (λ ks. Distinct ks × ((j : String) → In j ks → In j (ids_of steps)))
        (sym (keys-insert_new k o m e))
        (
          Distinct-append_one (keys m) k d (not-In-keys k m e),
          (λ j h. elim (In-append j (keys m) (k ∷ []) h) [
            | inl a ↦ known j a
            | inr a ↦ elim a [
              | inl q ↦ subst (λ x. In x (ids_of steps)) (sym q) i
              | inr b ↦ elim b [ ]
            ]
          ]),
        )
  | inr (v, e) ↦
      subst (λ ks. Distinct ks × ((j : String) → In j ks → In j (ids_of steps)))
        (sym (keys-insert_old k o v m e)) (d, known)
]

length-keys : (m : Assoc Outcome) → length (keys m) ≡ length m
length-keys [] = refl
length-keys ((k, o) ∷ m) = omega (arith, length-keys m)

-- With as many outcomes as steps, every step has one.
pub IsTracked-AreResolved :
    (steps : List Step) (m : Assoc Outcome)
    → IsTracked steps m
    → length steps ≤ length m
    → AreResolved steps m
IsTracked-AreResolved steps m (d, known) l id i e = not-In-keys id m e (
    contains→In (keys m) id (
      contains-Distinct (keys m) (ids_of steps) d
        (λ a c. In→contains (ids_of steps) a (known a (contains→In (keys m) a c)))
        (omega (arith, length-keys m, length-ids_of steps)) id (In→contains (ids_of steps) id i)))

module _ {E R : Type 0} where
  pub advance-IsTracked :
      (fuel : ℕ) (turn : Turn E R) (table : List (Transition E R)) (steps : List Step)
      (panels : List (List String)) (w : Walk E R)
      → AreKnown steps panels
      → IsTracked steps w.outcomes
      → Written (IsTracked steps) (advance fuel turn table steps panels w)
  unfolding advance
  advance-IsTracked fuel turn table steps panels w known t =
      advance_group-Writes steps (IsTracked steps) (insert-IsTracked steps) fuel turn table panels w
        _ known (next_ready_group-IsFound steps steps panels w.outcomes (λ s i. i)) t

  -- How a walk may end: with an error, or with an outcome for every step.
  abbrev pub Ends : List Step → Option (Walk E R × Option (RunError E)) → Type 0
  Ends steps o =
      (r : Walk E R × Option (RunError E)) × (o ≡ some r)
      × ((r.1 ≢ none) ⊎ AreResolved steps r.0.outcomes)

  next_round-Ends :
      (steps : List Step) (w : Walk E R) (p : Option E)
      (r : Option (Walk E R × Option (RunError E)))
      (k : Walk E R → Option (Walk E R × Option (RunError E)))
      → Turned w r
      → Written (IsTracked steps) r
      → ((w' : Walk E R)
          → length w.outcomes < length w'.outcomes
          → IsTracked steps w'.outcomes
          → Ends steps (k w'))
      → Ends steps (next_round p r k w)
  unfolding next_round
  next_round-Ends steps w (some x) r k t a h = ((w, some (paused x)), refl, inl (λ q. cc))
  next_round-Ends steps w none none k t a h = elim t [ ]
  next_round-Ends steps w none (some (w', some e)) k t a h = ((w', some e), refl, inl (λ q. cc))
  next_round-Ends steps w none (some (w', none)) k t a h = elim t [
    | inl n ↦ absurd (n refl)
    | inr l ↦ h w' l a
  ]

  -- A walk over panels that name steps ends without a panic: with an error of the run, or with an outcome for every
  -- step. It takes one round for each step that has no outcome yet, and within a round as much fuel,
  -- one at least, as the largest number of attempts and of iterations that a step's policies allow; a
  -- loop with a zero Max, which is unbounded, is excluded. The outcomes at the start are of steps, no
  -- two of one step.
  pub run_loop-Ends :
      (rounds fuel : ℕ) (turns : ℕ → Turn E R) (table : List (Transition E R)) (steps : List Step)
      (panels : List (List String)) (w : Walk E R)
      → AreKnown steps panels
      → 1 ≤ fuel
      → All (IsBounded fuel) steps
      → IsTracked steps w.outcomes
      → length steps ≤ length w.outcomes + rounds
      → Ends steps (run_loop rounds fuel turns table steps panels w)
  unfolding run_loop
  run_loop-Ends zero fuel turns table steps panels w known f b t h =
      ((w, none), ground arith, inr (IsTracked-AreResolved steps w.outcomes t (omega arith)))
  run_loop-Ends (suc k) fuel turns table steps panels w known f b t h =
      elim (Bool-cases (leb (length steps) (length w.outcomes))) [
        | inl e ↦ (
          (w, none),
          rw (e, run_loop) refl,
          inr (IsTracked-AreResolved steps w.outcomes t (ground (arith, e))),
        )
        | inr e ↦
            rw (e, run_loop)
              (next_round-Ends steps w (turns k).is_paused _ _
                (advance-Turned fuel (turns k) table steps panels w known f b)
                (advance-IsTracked fuel (turns k) table steps panels w known t)
                (λ w' l t'.
                  run_loop-Ends k fuel turns table steps panels w' known f b t' (omega arith)))
      ]
