-- ===== src/Flow/Execution/Fuel.antt =====
-- flow/retry.go and flow/loop.go: the fuel with which a step's retries and loop end.
use mivia_ai_sdk.Base.{
  ℕ, zero, suc, ◌+◌, ◌≤◌, ◌≡◌, ◌≢◌, refl, inl, inr, String, List, Option, none, some, Bool-cases,
  Option-cases, arith,
}
use mathlib.Core.Option.{map-eq-none_iff}
use mivia_ai_sdk.Base.Int.{ℤ, pos, leb_int, ◌≤ℤ◌, ◌<ℤ◌}
use mivia_ai_sdk.Machine.{Transition, allowed_transitions}
use mivia_ai_sdk.Flow.Step.{Step, Sub, no_sub, child, RetryPolicy}
use mivia_ai_sdk.Flow.Execution.{
  Turn, Picked, row, missing, ambiguous, error_of, at_max, pick_transition, fire_step, retry_loop,
  fire_with_retry, fire_from_child, looped_child, run_sub, run_plain, run_singleton,
}

-- The step's policies bound its attempts and its iterations by `fuel`; a loop with a zero Max, which
-- is unbounded, does not.
pub record IsBounded (fuel : ℕ) (s : Step) : Type 0 where
  pub attempts : (p : RetryPolicy) → s.retry ≡ some p → p.max_attempts ≤ℤ pos fuel
  pub iterations : (m : ℤ) → s.loop_max ≡ some m → (pos 1 ≤ℤ m) × (m ≤ℤ pos fuel)

module _ {E R : Type 0} where
  retry_loop-ne-none :
      (f n : ℕ) (turn : Turn E R) (p : RetryPolicy) (cur : String) (rec : R) (t : Transition E R)
      → 1 ≤ f
      → p.max_attempts <ℤ pos (f + n)
      → retry_loop f n turn p cur rec t ≢ none
  unfolding retry_loop
  retry_loop-ne-none zero n turn p cur rec t h l = absurd (omega arith)
  retry_loop-ne-none (suc f) n turn p cur rec t h l =
      elim (Option-cases (fire_step (turn.fire n cur t.trigger rec)).error) [
        | inl e ↦ rw (e, retry_loop) (λ q. cc)
        | inr (x, e) ↦ elim (Bool-cases (leb_int p.max_attempts (pos n))) [
          | inl a ↦ rw (e, a, retry_loop) (λ q. cc)
          | inr a ↦ elim (Bool-cases (turn.is_retryable (error_of x))) [
            | inr b ↦ rw (e, a, b, retry_loop) (λ q. cc)
            | inl b ↦ elim (Option-cases (turn.after_sleep n)) [
              | inr (y, c) ↦ rw (e, a, b, c, retry_loop) (λ q. cc)
              | inl c ↦
                  rw (e, a, b, c, retry_loop)
                    (retry_loop-ne-none f (n + 1) turn p cur rec t (ground (arith, a))
                      (omega arith))
            ]
          ]
        ]
      ]

  looped_child-ne-none :
      (f n : ℕ) (turn : Turn E R) (table : List (Transition E R)) (max : ℤ) (cur : String) (rec : R)
      → 1 ≤ f
      → pos 1 ≤ℤ max
      → max ≤ℤ pos (f + n)
      → looped_child f n turn table max cur rec ≢ none
  unfolding looped_child
  looped_child-ne-none zero n turn table max cur rec h m l = absurd (omega arith)
  looped_child-ne-none (suc f) n turn table max cur rec h m l =
      let r = fire_from_child n turn table cur rec (turn.run_child n rec).0 in
      elim (Option-cases (turn.loop_canceled n)) [
        | inr (x, e) ↦ rw (e, looped_child) (λ q. cc)
        | inl e ↦ elim (Option-cases (turn.run_child n rec).1) [
          | inr (x, a) ↦ rw (e, a, looped_child) (λ q. cc)
          | inl a ↦ elim (Option-cases r.error) [
            | inr (x, b) ↦ rw (e, a, b, looped_child) (λ q. cc)
            | inl b ↦ elim (Bool-cases (at_max max (n + 1))) [
              | inl c ↦ rw (e, a, b, c, looped_child) (λ q. cc)
              | inr c ↦
                  let more : 1 ≤ f = unfold at_max in ground (arith, c) in
                  let again =
                    looped_child-ne-none f (n + 1) turn table max r.status r.rec more m
                      (omega arith) in
                  elim (Option-cases turn.loop_guard) [
                    | inl d ↦ rw (e, a, b, c, d, looped_child) again
                    | inr (g, d) ↦ elim (Option-cases (g n r.rec).0) [
                      | inr (x, i) ↦ rw (e, a, b, c, d, i, looped_child) (λ q. cc)
                      | inl i ↦ elim (Bool-cases (g n r.rec).1) [
                        | inr j ↦ rw (e, a, b, c, d, i, j, looped_child) (λ q. cc)
                        | inl j ↦ rw (e, a, b, c, d, i, j, looped_child) again
                      ]
                    ]
                  ]
            ]
          ]
        ]
      ]

  fire_with_retry-ne-none :
      (fuel : ℕ) (turn : Turn E R) (o : Option RetryPolicy) (cur : String) (rec : R)
      (t : Transition E R)
      → 1 ≤ fuel
      → ((p : RetryPolicy) → o ≡ some p → p.max_attempts ≤ℤ pos fuel)
      → fire_with_retry fuel turn o cur rec t ≢ none
  unfolding fire_with_retry
  fire_with_retry-ne-none fuel turn none cur rec t h b = λ q. cc
  fire_with_retry-ne-none fuel turn (some p) cur rec t h b =
      let l = b p refl in retry_loop-ne-none fuel 1 turn p cur rec t h (omega (arith, l))

  run_plain-ne-none :
      (fuel : ℕ) (turn : Turn E R) (table : List (Transition E R)) (s : Step) (cur : String)
      (rec : R)
      → 1 ≤ fuel
      → IsBounded fuel s
      → run_plain fuel turn table s cur rec ≢ none
  unfolding run_plain
  run_plain-ne-none fuel turn table s cur rec h b =
      of_pick (pick_transition (allowed_transitions table cur) s.to) refl
    where
      of_pick :
          (x : Picked E R)
          → pick_transition (allowed_transitions table cur) s.to ≡ x
          → run_plain fuel turn table s cur rec ≢ none
      of_pick missing e = rw (e, run_plain) (λ q. cc)
      of_pick ambiguous e = rw (e, run_plain) (λ q. cc)
      of_pick (row t) e =
          rw (e, run_plain) (fire_with_retry-ne-none fuel turn s.retry cur rec t h b.attempts)

  run_sub-ne-none :
      (fuel : ℕ) (turn : Turn E R) (table : List (Transition E R)) (o : Option ℤ) (cur : String)
      (rec : R)
      → 1 ≤ fuel
      → ((m : ℤ) → o ≡ some m → (pos 1 ≤ℤ m) × (m ≤ℤ pos fuel))
      → run_sub fuel turn table o cur rec ≢ none
  unfolding run_sub
  run_sub-ne-none fuel turn table (some m) cur rec h b =
      let (lo, hi) = b m refl in
      looped_child-ne-none fuel 0 turn table m cur rec h lo (omega (arith, hi))
  run_sub-ne-none fuel turn table none cur rec h b = elim (Option-cases (turn.run_child 0 rec).1) [
    | inl e ↦ rw (e, run_sub) (λ q. cc)
    | inr (x, e) ↦ rw (e, run_sub) (λ q. cc)
  ]

  -- With at least one unit of fuel, and as many as the step's policies ask for, the step's execution
  -- has a result.
  pub run_singleton-ne-none :
      (fuel : ℕ) (turn : Turn E R) (table : List (Transition E R)) (s : Step) (cur : String)
      (rec : R)
      → 1 ≤ fuel
      → IsBounded fuel s
      → run_singleton fuel turn table s cur rec ≢ none
  unfolding run_singleton
  run_singleton-ne-none fuel turn table s cur rec h b = of_sub s.sub refl
    where
      of_sub : (x : Sub) → s.sub ≡ x → run_singleton fuel turn table s cur rec ≢ none
      of_sub (child c) e =
          rw (e, run_singleton)
            (λ q.
              run_sub-ne-none fuel turn table s.loop_max cur rec h b.iterations
                ((map-eq-none_iff _ _).0 q))
      of_sub no_sub e =
          rw (e, run_singleton)
            (λ q. run_plain-ne-none fuel turn table s cur rec h b ((map-eq-none_iff _ _).0 q))
