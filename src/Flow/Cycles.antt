-- ===== src/Flow/Cycles.antt =====
-- flow/validate.go and flow/definition.go: the search for a cycle, the panels' independence, and New.
-- The arrays `indeg` and `next` are read by a step's ID in place of its index; IDs are distinct here.
pub mod Counts
pub mod Search
pub mod Order
pub mod Closure
pub mod Fellows
use mivia_ai_sdk.Base.{
  ℕ, zero, suc, ◌-◌, String, List, [], ◌∷◌, ◌++◌, Bool, true, false, ◌&&◌, ◌||◌, not, Option, none,
  some, str_eq, if◌then◌else◌, ◌==◌, length, contains, Assoc, lookup, insert,
}
use mivia_ai_sdk.Flow.Step.{Step, step_by_id, direct_dependents}
use mivia_ai_sdk.Flow.Graph.{Fault, cyclic, related_members, ids_of, check_rules}

-- The needs of a step, each once.
unfoldable pub dedup : List String → List String → List String
dedup seen [] = []
dedup seen (n ∷ ns) =
    let fresh = dedup (n ∷ seen) ns in if contains seen n then dedup seen ns else n ∷ fresh

unfoldable pub indegree : List Step → String → ℕ
unfolding dedup
indegree steps id = length (dedup [] (step_by_id steps id).needs)

-- `next[v]`.
unfoldable pub next_of : List Step → String → List String
unfolding direct_dependents
next_of steps v = ids_of (direct_dependents v steps)

unfoldable pub roots_of : (String → ℕ) → List Step → List String
roots_of indeg [] = []
roots_of indeg (s ∷ ss) =
    let rest = roots_of indeg ss in if indeg s.id == 0 then s.id ∷ rest else rest

abbrev pub set_at : String → ℕ → (String → ℕ) → String → ℕ
set_at id n f j = if str_eq id j then n else f j

-- The inner loop of the search: the IDs that it appends to the queue, and the counts.
unfoldable pub relax : List String → (String → ℕ) → List String × (String → ℕ)
relax [] indeg = ([], indeg)
relax (t ∷ ts) indeg =
    let rest = relax ts (set_at t (indeg t - 1) indeg) in
    (if indeg t - 1 == 0 then t ∷ rest.0 else rest.0, rest.1)

-- The loop over the queue, with its length as fuel: the IDs that it took from it, the last first.
unfoldable pub search_order :
    ℕ → List Step → List String → (String → ℕ) → List String → Option (List String)
unfolding relax next_of
search_order zero steps queue indeg done = none
search_order (suc f) steps [] indeg done = some done
search_order (suc f) steps (v ∷ queue) indeg done =
    let r = relax (next_of steps v) indeg in search_order f steps (queue ++ r.0) r.1 (v ∷ done)

-- `findRoots`; none is the error of a cycle.
unfoldable pub find_roots : List Step → Option (List String)
unfolding search_order roots_of indegree
find_roots steps =
    elim (search_order (suc (length steps)) steps (roots_of (indegree steps) steps) (indegree steps)
      []) [
        | none ↦ none
        | some done ↦
            if length done == length steps then some (roots_of (indegree steps) steps) else none
      ]

-- The closures that `ancestorsOf` keeps, by ID; a set of IDs is the list of its members.
abbrev pub Memo : Type 0
Memo = Assoc (List String)

-- The loop of `ancestorsOf` over the needs, where `walk` is the recursive call.
unfoldable pub ancestors_of_all :
    (String → Memo → Option (List String × Memo)) → List String → Memo → Option (List String × Memo)
ancestors_of_all walk [] memo = some ([], memo)
ancestors_of_all walk (n ∷ ns) memo = elim (walk n memo) [
  | none ↦ none
  | some a ↦ elim (ancestors_of_all walk ns a.1) [
    | none ↦ none
    | some b ↦ some (n ∷ a.0 ++ b.0, b.1)
  ]
]

-- `ancestorsOf` with the number of steps and one as fuel; none where it runs out.
unfoldable pub ancestors_of : ℕ → List Step → String → Memo → Option (List String × Memo)
unfolding ancestors_of_all
ancestors_of zero steps id memo = none
ancestors_of (suc f) steps id memo = elim (lookup id memo) [
  | some a ↦ some (a, memo)
  | none ↦ elim (ancestors_of_all (ancestors_of f steps) (step_by_id steps id).needs memo) [
    | none ↦ none
    | some a ↦ some (a.0, insert id a.0 a.1)
  ]
]

-- Whether a fellow member is among the ancestors of the member `id`.
unfoldable pub needs_fellow : String → List String → List String → Bool
needs_fellow id [] ancestors = false
needs_fellow id (other ∷ p) ancestors =
    not (str_eq other id) && contains ancestors other || needs_fellow id p ancestors

-- What a check that may run out of fuel finds.
pub data Checked (A : Type 0) : Type 0 where
  accepted : A → Checked A
  rejected : Fault → Checked A
  exhausted : Checked A

-- The loop over the members `ms` of the panel `p`.
unfoldable pub check_fellows : ℕ → List Step → List String → List String → Memo → Checked Memo
unfolding ancestors_of needs_fellow
check_fellows fuel steps p [] memo = accepted memo
check_fellows fuel steps p (id ∷ ms) memo = elim (ancestors_of fuel steps id memo) [
  | none ↦ exhausted
  | some a ↦ elim (needs_fellow id p a.0) [
    | true ↦ rejected related_members
    | false ↦ check_fellows fuel steps p ms a.1
  ]
]

-- `validatePanelIndependence`.
unfoldable pub validate_independence : ℕ → List Step → List (List String) → Memo → Checked Memo
unfolding check_fellows
validate_independence fuel steps [] memo = accepted memo
validate_independence fuel steps (p ∷ ps) memo = elim (check_fellows fuel steps p p memo) [
  | accepted memo' ↦ validate_independence fuel steps ps memo'
  | rejected e ↦ rejected e
  | exhausted ↦ exhausted
]

-- `New`: the roots of the definition that it builds.
unfoldable pub new : List Step → List (List String) → Checked (List String)
unfolding check_rules find_roots validate_independence
new steps panels = elim (check_rules steps panels) [
  | some e ↦ rejected e
  | none ↦ elim (find_roots steps) [
    | none ↦ rejected cyclic
    | some roots ↦ elim (validate_independence (suc (length steps)) steps panels []) [
      | accepted memo ↦ accepted roots
      | rejected e ↦ rejected e
      | exhausted ↦ exhausted
    ]
  ]
]
