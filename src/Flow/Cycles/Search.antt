-- ===== src/Flow/Cycles/Search.antt =====
-- flow/validate.go: the loop over the queue in findRoots.
use mivia_ai_sdk.Base.{
  ℕ, zero, suc, ◌+◌, ◌-◌, ◌<◌, ◌≡◌, ◌≢◌, refl, sym, ◌∙◌, subst, inl, inr, String, List, [], ◌∷◌,
  ◌++◌, true, false, ◌&&◌, ◌||◌, some, eq_iff, if◌then◌else◌, ◌==◌, length, contains, contains→In,
  In→contains, contains-false, contains-append, not-In, In, Bool-cases, arith,
}
use mivia_ai_sdk.Base.Keys.{Distinct}
use mivia_ai_sdk.Base.Counting.{length-le-Distinct}
use mivia_ai_sdk.Flow.Step.{Step, step_by_id}
use mivia_ai_sdk.Flow.Graph.{ids_of}
use mivia_ai_sdk.Flow.Cycles.{dedup, indegree, next_of, relax, search_order, roots_of}
use mivia_ai_sdk.Flow.Cycles.Counts.{
  contains-dedup, dedup-Distinct, missing, missing-none, missing_zero, missing-cons, relax-counts,
  relax-news, news-Distinct, contains-next_of, next_of-Distinct,
}

abbrev pub needs_of : List Step → String → List String
needs_of steps id = (step_by_id steps id).needs

abbrev pub own_needs : List Step → String → List String
own_needs steps id = dedup [] (step_by_id steps id).needs

-- Each ID comes after those that its step needs; the last is first.
abbrev pub IsOrder : List Step → List String → Type 0
IsOrder steps [] = Unit
IsOrder steps (v ∷ earlier) =
    ((n : String) → In n (needs_of steps v) → In n earlier) × IsOrder steps earlier

-- The steps can be put in an order.
abbrev pub IsAcyclic : List Step → Type 0
IsAcyclic steps =
    (order : List String) × IsOrder steps order
    × ((id : String) → In id (ids_of steps) → In id order)

-- What the loop over the queue keeps.
pub record IsSearch (steps : List Step) (queue : List String) (d : String → ℕ) (done : List String)
    : Type 0 where
  pub queue_once : Distinct queue
  pub done_once : Distinct done
  pub apart : (id : String) → contains queue id ≡ true → contains done id ≡ false
  pub queue_known : (id : String) → contains queue id ≡ true → contains (ids_of steps) id ≡ true
  pub done_known : (id : String) → contains done id ≡ true → contains (ids_of steps) id ≡ true
  pub order : IsOrder steps done
  pub settled :
      (id : String)
      → (contains queue id || contains done id) ≡ true
      → missing done (own_needs steps id) ≡ 0
  pub counted :
      (id : String)
      → contains (ids_of steps) id ≡ true
      → (contains queue id || contains done id) ≡ false
      → d id ≡ missing done (own_needs steps id)
  pub positive :
      (id : String)
      → contains (ids_of steps) id ≡ true
      → (contains queue id || contains done id) ≡ false
      → d id ≢ 0

pub contains-own_needs :
    (steps : List Step) (id v : String)
    → contains (own_needs steps id) v ≡ contains (needs_of steps id) v
unfolding contains
contains-own_needs steps id v = ground (arith, contains-dedup [] (needs_of steps id) v)

Distinct-append :
    (xs ys : List String)
    → Distinct xs
    → Distinct ys
    → ((a : String) → contains xs a ≡ true → contains ys a ≡ false)
    → Distinct (xs ++ ys)
unfolding contains
Distinct-append [] ys d e h = e
Distinct-append (x ∷ xs) ys d e h = (
  not-In (xs ++ ys) x (
      ground (
        arith,
        contains-append xs ys x,
        contains-false xs x d.0,
        h x (ground (arith, eq_iff x x)),
      )),
  Distinct-append xs ys d.1 e (λ a i. h a (ground arith)),
)

-- The loop takes the head of the queue.
module _ (steps : List Step) (v : String) (queue : List String) (d : String → ℕ)
    (done : List String) (ids : Distinct (ids_of steps))
    (h : IsSearch steps (v ∷ queue) d done) where
  abbrev news : List String
  news = (relax (next_of steps v) d).0

  abbrev counts : String → ℕ
  counts = (relax (next_of steps v) d).1

  pending : contains done v ≡ false
  pending = h.apart v (unfold contains in ground (arith, eq_iff v v))

  falls :
      (id : String)
      → missing (v ∷ done) (own_needs steps id) + (if contains (needs_of steps id) v then 1 else 0)
        ≡ missing done (own_needs steps id)
  falls id =
      subst
        (λ b.
          missing (v ∷ done) (own_needs steps id) + (if b then 1 else 0)
          ≡ missing done (own_needs steps id))
        (contains-own_needs steps id v)
        (missing-cons done v (own_needs steps id) (dedup-Distinct [] (needs_of steps id)) pending)

  next :
      (id : String)
      → contains (next_of steps v) id
        ≡ (contains (ids_of steps) id && contains (needs_of steps id) v)
  next id = contains-next_of steps v id ids

  news_of : (id : String) → contains news id ≡ (contains (next_of steps v) id && (d id - 1 == 0))
  news_of id = relax-news (next_of steps v) d id (next_of-Distinct steps v ids)

  counts_of : (id : String) → counts id ≡ (if contains (next_of steps v) id then d id - 1 else d id)
  counts_of id = relax-counts (next_of steps v) d id (next_of-Distinct steps v ids)

  -- A new ID was in neither list.
  fresh :
      (id : String)
      → contains news id ≡ true
      → (contains (v ∷ queue) id || contains done id) ≡ false
  fresh id i = ground (arith, h.settled id, falls id, next id, news_of id)

  IsSearch-next : IsSearch steps (queue ++ news) counts (v ∷ done)
  unfolding contains
  IsSearch-next = record {
    queue_once =
        Distinct-append queue news h.queue_once.1
          (news-Distinct (next_of steps v) d (next_of-Distinct steps v ids))
          (λ a i. ground (arith, fresh a));
    done_once = (not-In done v pending, h.done_once);
    apart = λ id i. ground (
      arith,
      contains-append queue news id,
      fresh id,
      h.apart id,
      eq_iff v id,
      contains-false queue v h.queue_once.0,
    );
    queue_known = λ id i.
        ground (arith, contains-append queue news id, h.queue_known id, news_of id, next id);
    done_known = λ id i. ground (arith, h.queue_known id, h.done_known id);
    order = (
      (λ n i. missing_zero done (own_needs steps v) (h.settled v (ground (arith, eq_iff v v))) n (
          contains→In (own_needs steps v) n
            (contains-own_needs steps v n ∙ In→contains (needs_of steps v) n i))),
      h.order,
    );
    settled = λ id i. ground (
      arith,
      contains-append queue news id,
      h.settled id,
      falls id,
      news_of id,
      next id,
      fresh id,
      h.counted id,
    );
    counted = λ id k i.
        ground
          (arith, contains-append queue news id, h.counted id, falls id, next id, counts_of id);
    positive = λ id k i.
        ground (arith, contains-append queue news id, h.positive id, news_of id, counts_of id);
  }

pub length-ids_of : (steps : List Step) → length (ids_of steps) ≡ length steps
length-ids_of [] = refl
length-ids_of (s ∷ ss) = omega (arith, length-ids_of ss)

-- The loop ends, with an empty queue.
pub search_order-IsSearch :
    (f : ℕ) (steps : List Step) (queue : List String) (d : String → ℕ) (done : List String)
    → Distinct (ids_of steps)
    → IsSearch steps queue d done
    → length steps < length done + f
    → (d' : String → ℕ) × (done' : List String) × (search_order f steps queue d done ≡ some done')
      × IsSearch steps [] d' done'
unfolding search_order
search_order-IsSearch zero steps queue d done ids h l = absurd (
    ground
      (arith, length-le-Distinct done (ids_of steps) h.done_once h.done_known, length-ids_of steps))
search_order-IsSearch (suc f) steps [] d done ids h l = (d, done, refl, h)
search_order-IsSearch (suc f) steps (v ∷ queue) d done ids h l =
    search_order-IsSearch f steps (queue ++ (relax (next_of steps v) d).0)
      (relax (next_of steps v) d).1 (v ∷ done) ids (IsSearch-next steps v queue d done ids h)
      (omega arith)

contains-roots_of :
    (f : String → ℕ) (steps : List Step) (id : String)
    → Distinct (ids_of steps)
    → contains (roots_of f steps) id ≡ (contains (ids_of steps) id && (f id == 0))
unfolding roots_of contains
contains-roots_of f [] id d = refl
contains-roots_of f (s ∷ ss) id d =
    ground
      (arith, contains-roots_of f ss id d.1, eq_iff s.id id, contains-false (ids_of ss) s.id d.0)

roots_of-Distinct :
    (f : String → ℕ) (steps : List Step) → Distinct (ids_of steps) → Distinct (roots_of f steps)
unfolding roots_of
roots_of-Distinct f [] d = tt
roots_of-Distinct f (s ∷ ss) d = elim (Bool-cases (f s.id == 0)) [
  | inl e ↦
      rw (e, roots_of)
        (
          not-In (roots_of f ss) s.id (
              ground (arith, contains-roots_of f ss s.id d.1, contains-false (ids_of ss) s.id d.0)),
          roots_of-Distinct f ss d.1,
        )
  | inr e ↦ rw (e, roots_of) (roots_of-Distinct f ss d.1)
]

pub IsSearch-start :
    (steps : List Step)
    → Distinct (ids_of steps)
    → IsSearch steps (roots_of (indegree steps) steps) (indegree steps) []
unfolding contains indegree
IsSearch-start steps ids = record {
  queue_once = roots_of-Distinct (indegree steps) steps ids;
  done_once = tt;
  apart = λ id i. refl;
  queue_known = λ id i. ground (arith, contains-roots_of (indegree steps) steps id ids);
  done_known = λ id i. ground arith;
  order = tt;
  settled = λ id i.
      ground
        (arith, contains-roots_of (indegree steps) steps id ids, missing-none (own_needs steps id));
  counted = λ id k i. sym (missing-none (own_needs steps id));
  positive = λ id k i. ground (arith, contains-roots_of (indegree steps) steps id ids);
}
