-- ===== src/Plan/Compact/Fits.antt =====
-- context/plan/compact.go: the estimate of what Compact keeps.
use mathlib.Core.List.{Perm, perm_append_comm, append_assoc, append-nil}
use mathlib.Core.List.Perm
use mathlib.Core.Option.{some_inj}
use mivia_ai_sdk.Base.{
  ℕ, ◌+◌, ◌*◌, ◌^◌, ◌<◌, ◌≡◌, refl, sym, ◌∙◌, ap, subst, inl, inr, List, [], ◌∷◌, ◌++◌, true, false,
  Option, some, length, Bool-cases, Option-cases, arith,
}
use mivia_ai_sdk.Base.Int.{ℤ, pos, pos_part, ◌≤ℤ◌, ltb_int}
use mivia_ai_sdk.Plan.{Message}
use mivia_ai_sdk.Plan.Window.{Window, compact_target, recent_tail_bound, budget}
use mivia_ai_sdk.Plan.Window.Thresholds.{validate_window-thresholds}
use mivia_ai_sdk.Plan.Compact.{
  Marked, CompactResult, Compacted, failure, result, collect_selected, put_back, fill_tail, compact,
}
use mivia_ai_sdk.Plan.Compact.Cases.{
  IsCompact, refused, passed, shrunk, mandatory_of, compact-IsCompact,
}
use mivia_ai_sdk.Plan.Compact.Retention.{put_back-mandatory}

module _ {C : Type 0} where
  collect_selected-put_back :
      (older visited : List (Marked C))
      → collect_selected (put_back older visited)
        ≡ collect_selected (put_back older []) ++ collect_selected visited
  unfolding put_back collect_selected
  collect_selected-put_back [] visited = refl
  collect_selected-put_back ((true, u) ∷ older) visited =
      collect_selected-put_back older ((true, u) ∷ visited)
      ∙ (sym (append_assoc (collect_selected (put_back older [])) u (collect_selected visited))
          ∙ ap (λ x. x ++ collect_selected visited)
              (sym (
                collect_selected-put_back older ((true, u) ∷ [])
                ∙ ap (λ x. collect_selected (put_back older []) ++ x) (append-nil u))))
  collect_selected-put_back ((false, u) ∷ older) visited =
      collect_selected-put_back older ((false, u) ∷ visited)
      ∙ ap (λ x. x ++ collect_selected visited)
          (sym (
            collect_selected-put_back older ((false, u) ∷ [])
            ∙ append-nil (collect_selected (put_back older []))))

  -- A marked unit moves from the end of the candidate to its place.
  candidate-Perm :
      (older visited : List (Marked C)) (u : List (Message C))
      → Perm
          (collect_selected (put_back older ((false, u) ∷ visited)) ++ u)
          (collect_selected (put_back older ((true, u) ∷ visited)))
  unfolding collect_selected
  candidate-Perm older visited u =
      let a = collect_selected (put_back older []) in
      let b = collect_selected visited in
      subst (λ x. Perm (x ++ u) (collect_selected (put_back older ((true, u) ∷ visited))))
        (sym (collect_selected-put_back older ((false, u) ∷ visited)))
        (subst (Perm ((a ++ b) ++ u)) (sym (collect_selected-put_back older ((true, u) ∷ visited)))
          (subst (λ x. Perm x (a ++ (u ++ b))) (sym (append_assoc a b u))
            (Perm.append_left a (perm_append_comm b u))))

module _ {C : Type 0} (estimate : List (Message C) → Option ℤ)
    (unordered : (xs ys : List (Message C)) → Perm xs ys → estimate xs ≡ estimate ys) where
  -- The estimate of the messages is at most the limit.
  abbrev Fits : ℤ → List (Message C) → Type 0
  Fits limit ms = (n : ℤ) × (estimate ms ≡ some n) × (n ≤ℤ limit)

  fill_tail-Fits :
      (limit bound target : ℤ) (tail : ℕ) (older visited us : List (Marked C))
      → target ≤ℤ limit
      → Fits limit (collect_selected (put_back older visited))
      → fill_tail estimate bound target tail older visited ≡ some us
      → Fits limit (collect_selected us)
  unfolding fill_tail put_back
  fill_tail-Fits limit bound target tail [] visited us l f h =
      subst (λ x. Fits limit (collect_selected x)) (some_inj.0 h) f
  fill_tail-Fits limit bound target tail ((true, u) ∷ older) visited us l f h =
      fill_tail-Fits limit bound target tail older ((true, u) ∷ visited) us l f h
  fill_tail-Fits limit bound target tail ((false, u) ∷ older) visited us l f h =
      let here = put_back older ((false, u) ∷ visited) in
      elim (Bool-cases (ltb_int bound (pos (tail + length u)))) [
        | inl e ↦
            subst (λ x. Fits limit (collect_selected x)) (some_inj.0 (rw (e, fill_tail) at h)) f
        | inr e ↦ elim (Option-cases (estimate (collect_selected here ++ u))) [
          | inl q ↦ absurd (ground (arith, rw (e, q, fill_tail) at h))
          | inr (n, q) ↦ elim (Bool-cases (ltb_int target n)) [
            | inl g ↦
                subst (λ x. Fits limit (collect_selected x))
                  (some_inj.0 (rw (e, q, g, fill_tail) at h)) f
            | inr g ↦
                fill_tail-Fits limit bound target (tail + length u) older ((true, u) ∷ visited) us l
                  (
                    n,
                    sym (unordered _ _ (candidate-Perm older visited u)) ∙ q,
                    ground (arith, g, l),
                  )
                  (rw (e, q, g, fill_tail) at h)
          ]
        ]
      ]

  -- For an estimator that does not read the order of the messages, and a window that Validate accepts
  -- and of whose tokens a hundred times the number is an int: what Compact keeps is estimated at
  -- `after_tokens`, which is at most the budget.
  pub compact-le :
      (w : Window) (ms : List (Message C)) (r : CompactResult C)
      → pos_part w.max_tokens * 100 < 2 ^ 63
      → compact estimate w ms ≡ result r
      → (estimate r.kept ≡ some r.after_tokens) × (r.after_tokens ≤ℤ budget w)
  compact-le w ms r small h = of_case (compact estimate w ms) (compact-IsCompact estimate w ms) h
    where
      of_case :
          (c : Compacted C)
          → IsCompact estimate w ms c
          → c ≡ result r
          → (estimate r.kept ≡ some r.after_tokens) × (r.after_tokens ≤ℤ budget w)
      of_case (failure x) refused e = absurd (cc)
      of_case (result r') (passed v o n q k d) e =
          let f : r' ≡ r = cc in
          let (b, t0, t1, g0, g1) = validate_window-thresholds w v small in
          subst (λ x. (estimate x.kept ≡ some x.after_tokens) × (x.after_tokens ≤ℤ budget w)) f
            (ap estimate k ∙ n, ground (arith, q, t1))
      of_case (result r') (shrunk us m v o a b g q k d) e =
          let f : r' ≡ r = cc in
          let (b0, t0, t1, g0, g1) = validate_window-thresholds w v small in
          let (n, en, ln) =
            fill_tail-Fits (budget w) (recent_tail_bound w.compaction) (compact_target w) 0
              (put_back (mandatory_of w ms) []) [] us g1
              (subst (λ x. Fits (budget w) (collect_selected x))
                (sym (put_back-mandatory (mandatory_of w ms))) (m, a, ground (arith, b)))
              g in
          subst (λ x. (estimate x.kept ≡ some x.after_tokens) × (x.after_tokens ≤ℤ budget w)) f
            (ap estimate k ∙ q, subst (λ x. x ≤ℤ budget w) (some_inj.0 (sym en ∙ q)) ln)
