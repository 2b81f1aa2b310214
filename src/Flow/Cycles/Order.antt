-- ===== src/Flow/Cycles/Order.antt =====
-- flow/validate.go: what findRoots accepts.
use mivia_ai_sdk.Base.{
  ℕ, suc, ◌≤◌, ◌≡◌, ◌≢◌, ◌↔◌, ◌==◌, refl, sym, ◌∙◌, subst, inl, inr, String, List, [], ◌∷◌, true,
  none, some, str_eq, length, contains, contains→In, In→contains, All, In, Bool-cases, arith,
}
use mivia_ai_sdk.Base.Counting.{length-le-Distinct, contains-Distinct}
use mivia_ai_sdk.Flow.Step.{Step, zero_step, step_by_id}
use mivia_ai_sdk.Flow.Graph.{ids_of}
use mivia_ai_sdk.Flow.Rules.{IsGraph}
use mivia_ai_sdk.Flow.Cycles.{indegree, search_order, roots_of, find_roots}
use mivia_ai_sdk.Flow.Cycles.Counts.{zero_missing}
use mivia_ai_sdk.Flow.Cycles.Search.{
  needs_of, own_needs, contains-own_needs, IsOrder, IsAcyclic, IsSearch, IsSearch-start,
  search_order-IsSearch, length-ids_of,
}

All-step_by_id :
    (P : Step → Type 0) (steps : List Step) (id : String)
    → All P steps
    → P zero_step
    → P (step_by_id steps id)
unfolding step_by_id
All-step_by_id P [] id a z = z
All-step_by_id P (s ∷ ss) id a z = elim (Bool-cases (str_eq s.id id)) [
  | inl e ↦ rw (e, step_by_id) a.0
  | inr e ↦ rw (e, step_by_id) (All-step_by_id P ss id a.1 z)
]

All-In : (P : String → Type 0) (xs : List String) (x : String) → All P xs → In x xs → P x
All-In P [] x a i = elim i [ ]
All-In P (y ∷ ys) x a (inl e) = subst P (sym e) a.0
All-In P (y ∷ ys) x a (inr i) = All-In P ys x a.1 i

pub needs_of-known :
    (steps : List Step)
    → IsGraph steps
    → (id n : String) → In n (needs_of steps id)
    → In n (ids_of steps)
needs_of-known steps g id n i =
    All-In (λ x. In x (ids_of steps)) (needs_of steps id) n
      (All-step_by_id (λ s. All (λ x. In x (ids_of steps)) s.needs) steps id g.known tt) i

-- Where the queue is empty, the loop took every step that stands in an order.
IsOrder-done :
    (steps : List Step) (d : String → ℕ) (done order : List String)
    → IsGraph steps
    → IsSearch steps [] d done
    → IsOrder steps order
    → (id : String) → In id order
    → In id (ids_of steps)
    → In id done
unfolding contains
IsOrder-done steps d done [] g h o id i k = elim i [ ]
IsOrder-done steps d done (v ∷ earlier) g h o id (inr i) k =
    IsOrder-done steps d done earlier g h o.1 id i k
IsOrder-done steps d done (v ∷ earlier) g h o id (inl e) k = elim (Bool-cases (contains done id)) [
  | inl c ↦ contains→In done id c
  | inr c ↦ absurd (
      h.positive id (In→contains (ids_of steps) id k) c (
        h.counted id (In→contains (ids_of steps) id k) c
        ∙ zero_missing done (own_needs steps id) (λ n i.
          let need =
            contains→In (needs_of steps id) n
              (sym (contains-own_needs steps id n) ∙ In→contains (own_needs steps id) n i) in
          IsOrder-done steps d done earlier g h o.1 n
            (o.0 n (subst (λ x. In n (needs_of steps x)) e need))
            (needs_of-known steps g id n need))))
]

module _ (steps : List Step) (g : IsGraph steps) where
  abbrev Found : List String → Type 0
  Found done =
      search_order (suc (length steps)) steps (roots_of (indegree steps) steps) (indegree steps) []
      ≡ some done

  ends : (d : String → ℕ) × (done : List String) × Found done × IsSearch steps [] d done
  ends =
      search_order-IsSearch (suc (length steps)) steps (roots_of (indegree steps) steps)
        (indegree steps) [] g.distinct (IsSearch-start steps g.distinct) (omega arith)

  whole : (done : List String) → Found done → find_roots steps ≢ none → length done ≡ length steps
  unfolding find_roots
  whole done e q = elim (Bool-cases (length done == length steps)) [
    | inl c ↦ ground arith
    | inr c ↦ absurd (q (rw (e, c, find_roots) refl))
  ]

  whole-find_roots :
      (done : List String) → Found done → length done ≡ length steps → find_roots steps ≢ none
  unfolding find_roots
  whole-find_roots done e l q =
      let c : (length done == length steps) ≡ true = ground arith in
      ground (arith, rw (e, c, find_roots) at q)

  -- A graph that findRoots accepts has an order that is no longer than the steps.
  pub find_roots-IsOrder :
      find_roots steps ≢ none
      → (order : List String) × IsOrder steps order
        × ((id : String) → In id (ids_of steps) → In id order)
        × (length order ≤ length steps)
  find_roots-IsOrder q =
      let (d, done, e, h) = ends in
      let l = whole done e q in
      (
        done,
        h.order,
        (λ id i. contains→In done id (
            contains-Distinct done (ids_of steps) h.done_once h.done_known
              (ground (arith, length-ids_of steps)) id (In→contains (ids_of steps) id i))),
        ground arith,
      )

-- With distinct IDs and known needs, findRoots accepts exactly the graphs without a cycle: those
-- whose steps stand in an order in which each comes after the steps that it needs.
pub find_roots_iff :
    (steps : List Step) → IsGraph steps → (find_roots steps ≢ none) ↔ IsAcyclic steps
find_roots_iff steps g =
    let (d, done, e, h) = ends steps g in
    (
      (λ q. let (order, o, all, l) = find_roots-IsOrder steps g q in (order, o, all)),
      (λ (order, o, all). whole-find_roots steps g done e (
          ground (
            arith,
            length-ids_of steps,
            length-le-Distinct done (ids_of steps) h.done_once h.done_known,
            length-le-Distinct (ids_of steps) done g.distinct (λ id i.
                let k = contains→In (ids_of steps) id i in
                In→contains done id (IsOrder-done steps d done order g h o id (all id k) k)),
          ))),
    )
