-- ===== src/Ledger/Guarantee/Methods.antt =====
-- Every method of the ledger makes only the moves of its kind.
use mivia_ai_sdk.Base.{
  ℕ, zero, suc, ◌≡◌, refl, ◌⊎◌, inl, inr, String, List, [], ◌∷◌, Bool, true, false, Option, none,
  some, arith, Option-cases, Bool-cases, eq_iff, if◌then◌else◌, ◌||◌,
}
use mivia_ai_sdk.Base.Int.{ℤ}
use mivia_ai_sdk.Ledger.Task.{
  TaskState, Status, pending, claimed, completed, failed, blocked, other, validate, status_eq,
  is_terminal_status, task_done, task_failed, task_blocked,
}
use mivia_ai_sdk.Ledger.Store.{is_insert}
use mivia_ai_sdk.Ledger.Program.{Program, Result, ok, err, return, fail, attempt, ◌>>=◌}
use mivia_ai_sdk.Ledger.Blocking.{blocking_ancestor, block_one, blocking_need}
use mivia_ai_sdk.Ledger.Leases.{
  claim, claim_loop, renew, renew_loop, release, takeover, takeover_loop,
}
use mivia_ai_sdk.Ledger.Completion.{
  complete, complete_loop, block_dependents, block_each, by_key, transitive_dependents,
}
use mivia_ai_sdk.Ledger.Admission.{
  Submission, admit, admit_loop, admitted_record, old_record, lets_in, after_admit, recheck_needs,
  state,
}
use mivia_ai_sdk.Ledger.TaskRun.{Options, Task, run, check_open, outcome, submission, body_status}
use mivia_ai_sdk.Ledger.Guarantee.{
  Guarantee, IsSafe, IsSafe-bind, IsSafe-attempt, Keyed, admits, claims, renews, releases,
  takes_over, completes, returns, loads, swaps, ranges, polls, emits,
}
use mivia_ai_sdk.Ledger.Guarantee.Rules.{
  check_valid-IsSafe, guard-IsSafe, or_no_key-IsSafe, claimable-IsSafe, write_or_retry-IsSafe,
  blocking_need-IsSafe, blocking_ancestor-IsSafe, block_one-IsSafe,
}

status_eq→eq : (s : Status) → status_eq s claimed ≡ true → s ≡ claimed
unfolding status_eq
status_eq→eq claimed h = refl
status_eq→eq _ h = ground arith

claimed_live : (s : Status) → (s ≡ pending) ⊎ (s ≡ claimed) → is_terminal_status s ≡ false
unfolding is_terminal_status
claimed_live s h = ground arith

claim_loop-IsSafe :
    (walks r : ℕ) (actor key owner : String) (lease : ℤ) (now : ℕ)
    → IsSafe (claim_loop walks r actor key owner lease now)
unfolding claim_loop
claim_loop-IsSafe walks zero actor key owner lease now = returns _
claim_loop-IsSafe walks (suc r) actor key owner lease now = loads key _ (λ o d.
    or_no_key-IsSafe key o _ d (λ cur kd. claimable-IsSafe cur.status cur.lease_until now _ (λ st.
      IsSafe-bind (blocking_ancestor walks cur.needs) _ (blocking_ancestor-IsSafe walks cur.needs)
        (elim [
          | some cause ↦
              IsSafe-bind (block_one (suc r) actor now key cur cause) _
                (block_one-IsSafe (suc r) actor now key cur cause kd (claimed_live cur.status st))
                (λ _. returns _)
          | none ↦
              write_or_retry-IsSafe key cur _ _ _ _
                (λ v. record {
                  kind = claims;
                  allowed = (st, refl, refl, refl);
                  keyed = kd;
                  valid = v;
                })
                (returns _) (claim_loop-IsSafe walks r actor key owner lease now)
        ]))))

pub claim-IsSafe :
    (walks r : ℕ) (actor key owner : String) (lease : ℤ) (now : ℕ)
    → IsSafe (claim walks r actor key owner lease now)
unfolding claim
claim-IsSafe walks r actor key owner lease now =
    guard-IsSafe _ _ _
      (λ _. guard-IsSafe _ _ _ (λ _. claim_loop-IsSafe walks r actor key owner lease now))

renew_loop-IsSafe :
    (r : ℕ) (actor key : String) (fence : ℕ) (lease : ℤ) (now : ℕ)
    → IsSafe (renew_loop r actor key fence lease now)
unfolding renew_loop
renew_loop-IsSafe zero actor key fence lease now = returns _
renew_loop-IsSafe (suc r) actor key fence lease now = loads key _ (λ o d.
    or_no_key-IsSafe key o _ d (λ cur kd. guard-IsSafe _ _ _ (λ st. guard-IsSafe _ _ _ (λ _.
      let st' = status_eq→eq cur.status st in
      write_or_retry-IsSafe key cur _ _ _ _
        (λ v. record { kind = renews; allowed = (st', st', refl, refl); keyed = kd; valid = v })
        (returns _) (renew_loop-IsSafe r actor key fence lease now)))))

pub renew-IsSafe :
    (r : ℕ) (actor key owner : String) (fence : ℕ) (lease : ℤ) (now : ℕ)
    → IsSafe (renew r actor key owner fence lease now)
unfolding renew
renew-IsSafe r actor key owner fence lease now =
    guard-IsSafe _ _ _ (λ _. renew_loop-IsSafe r actor key fence lease now)

pub release-IsSafe :
    (r : ℕ) (actor key owner : String) (fence now : ℕ)
    → IsSafe (release r actor key owner fence now)
unfolding release
release-IsSafe zero actor key owner fence now = returns _
release-IsSafe (suc r) actor key owner fence now = loads key _ (λ o d.
    or_no_key-IsSafe key o _ d (λ cur kd. guard-IsSafe _ _ _ (λ _. guard-IsSafe _ _ _ (λ st.
      write_or_retry-IsSafe key cur _ _ _ _
        (λ v. record {
          kind = releases;
          allowed = (status_eq→eq cur.status st, refl, refl, refl);
          keyed = kd;
          valid = v;
        })
        (returns _) (release-IsSafe r actor key owner fence now)))))

takeover_loop-IsSafe :
    (walks r : ℕ) (actor key owner : String) (lease : ℤ) (now : ℕ)
    → IsSafe (takeover_loop walks r actor key owner lease now)
unfolding takeover_loop
takeover_loop-IsSafe walks zero actor key owner lease now = returns _
takeover_loop-IsSafe walks (suc r) actor key owner lease now = loads key _ (λ o d.
    or_no_key-IsSafe key o _ d (λ cur kd. guard-IsSafe _ _ _ (λ st. guard-IsSafe _ _ _ (λ _.
      let st' = status_eq→eq cur.status st in
      IsSafe-bind (blocking_ancestor walks cur.needs) _ (blocking_ancestor-IsSafe walks cur.needs)
        (elim [
          | some cause ↦
              IsSafe-bind (block_one (suc r) actor now key cur cause) _
                (block_one-IsSafe (suc r) actor now key cur cause kd
                  (claimed_live cur.status (inr st')))
                (λ _. returns _)
          | none ↦
              write_or_retry-IsSafe key cur _ _ _ _
                (λ v. record {
                  kind = takes_over;
                  allowed = (st', st', refl, refl);
                  keyed = kd;
                  valid = v;
                })
                (returns _) (takeover_loop-IsSafe walks r actor key owner lease now)
        ])))))

pub takeover-IsSafe :
    (walks r : ℕ) (actor key owner : String) (lease : ℤ) (now : ℕ)
    → IsSafe (takeover walks r actor key owner lease now)
unfolding takeover
takeover-IsSafe walks r actor key owner lease now =
    guard-IsSafe _ _ _
      (λ _. guard-IsSafe _ _ _ (λ _. takeover_loop-IsSafe walks r actor key owner lease now))

pub key-by_key : (k : String) (l : List TaskState) (t : TaskState) → by_key k l ≡ some t → t.key ≡ k
unfolding by_key
key-by_key k [] t h = ground arith
key-by_key k (u ∷ us) t h = ground (arith, eq_iff u.key k, key-by_key k us t)

block_each-IsSafe :
    (r : ℕ) (actor : String) (now : ℕ) (l : List TaskState) (cause : String) (ks : List String)
    → IsSafe (block_each r actor now l cause ks)
unfolding block_each
block_each-IsSafe r actor now l cause [] = returns _
block_each-IsSafe r actor now l cause (k ∷ ks) = elim (Option-cases (by_key k l)) [
  | inl e ↦ rw (e, block_each) (block_each-IsSafe r actor now l cause ks)
  | inr (t, e) ↦ elim (Bool-cases (is_terminal_status t.status)) [
    | inl q ↦ rw (e, q, block_each) (block_each-IsSafe r actor now l cause ks)
    | inr q ↦
        rw (e, q, block_each)
          (IsSafe-bind (block_one r actor now k t cause) _
            (block_one-IsSafe r actor now k t cause (key-by_key k l t e) q)
            (λ _. block_each-IsSafe r actor now l cause ks))
  ]
]

block_dependents-IsSafe :
    (r : ℕ) (actor : String) (now : ℕ) (cause : String)
    → IsSafe (block_dependents r actor now cause)
unfolding block_dependents
block_dependents-IsSafe r actor now cause = ranges _ (λ l.
    elim (Option-cases (transitive_dependents l cause)) [
      | inl e ↦ rw e (returns _)
      | inr (ks, e) ↦ rw e (block_each-IsSafe r actor now l cause ks)
    ])

abbrev Ends : Status → Type 0
Ends s = (s ≡ completed) ⊎ (s ≡ failed)

complete_loop-IsSafe :
    (r : ℕ) (actor key : String) (fence : ℕ) (s : Status) (now : ℕ)
    → Ends s
    → IsSafe (complete_loop r actor key fence s now)
unfolding complete_loop
complete_loop-IsSafe zero actor key fence s now h = returns _
complete_loop-IsSafe (suc r) actor key fence s now h = loads key _ (λ o d.
    or_no_key-IsSafe key o _ d (λ cur kd. guard-IsSafe _ _ _ (λ _. guard-IsSafe _ _ _ (λ st.
      write_or_retry-IsSafe key cur _ _ _ _
        (λ v. record {
          kind = completes;
          allowed = (status_eq→eq cur.status st, h, refl, refl);
          keyed = kd;
          valid = v;
        })
        (after (status_eq s failed)) (complete_loop-IsSafe r actor key fence s now h)))))
  where
    after : (b : Bool) → IsSafe (if b then block_dependents (suc r) actor now key else return tt)
    after true = block_dependents-IsSafe (suc r) actor now key
    after false = returns _

accepted-Ends : (s : Status) → (status_eq s completed || status_eq s failed) ≡ true → Ends s
unfolding status_eq
accepted-Ends s h = ground arith

pub complete-IsSafe :
    (r : ℕ) (actor key owner : String) (fence : ℕ) (s : Status) (now : ℕ)
    → IsSafe (complete r actor key owner fence s now)
unfolding complete
complete-IsSafe r actor key owner fence s now =
    guard-IsSafe _ _ _ (λ e. complete_loop-IsSafe r actor key fence s now (accepted-Ends s e))

admitted-Guarantee :
    (a : Submission) (o : Option TaskState) (b : Option String)
    → Keyed a.key o
    → lets_in o a.seq ≡ true
    → validate (admitted_record a o b) ≡ none
    → Guarantee a.key (old_record o) (admitted_record a o b)
unfolding admitted_record old_record lets_in is_terminal_status is_insert
admitted-Guarantee a none none d h v = record {
  kind = admits;
  allowed = (refl, inl refl, refl, inl refl);
  keyed = refl;
  valid = v;
}
admitted-Guarantee a none (some b) d h v = record {
  kind = admits;
  allowed = (refl, inr refl, refl, inl refl);
  keyed = refl;
  valid = v;
}
admitted-Guarantee a (some t) none d h v = record {
  kind = admits;
  allowed = (ground arith, inl refl, refl, inr (ground arith));
  keyed = refl;
  valid = v;
}
admitted-Guarantee a (some t) (some b) d h v = record {
  kind = admits;
  allowed = (ground arith, inr refl, refl, inr (ground arith));
  keyed = refl;
  valid = v;
}

recheck_needs-IsSafe : (r : ℕ) (a : Submission) → IsSafe (recheck_needs r a)
unfolding recheck_needs
recheck_needs-IsSafe r a =
    IsSafe-bind (blocking_need a.needs) _ (blocking_need-IsSafe a.needs) (elim [
      | none ↦ returns _
      | some b ↦ loads a.key _ (λ o d. elim (Option-cases o) [
        | inl q ↦ rw q (returns _)
        | inr (t, q) ↦ elim (Bool-cases (is_terminal_status t.status)) [
          | inl e ↦ rw (q, e) (returns _)
          | inr e ↦
              rw (q, e)
                (IsSafe-bind (block_one r a.actor a.now a.key t b) _
                  (block_one-IsSafe r a.actor a.now a.key t b (rw q at d) e) (λ _. returns _))
        ]
      ])
    ])

after_admit-IsSafe : (r : ℕ) (a : Submission) (b : Option String) → IsSafe (after_admit r a b)
unfolding after_admit
after_admit-IsSafe r a (some b) = emits _ _ _ (returns _)
after_admit-IsSafe r a none =
    IsSafe-bind (recheck_needs r a) _ (recheck_needs-IsSafe r a)
      (elim [ true ↦ returns _ | false ↦ emits _ _ _ (returns _) ])

admit_loop-IsSafe : (r : ℕ) (a : Submission) → IsSafe (admit_loop r a)
unfolding admit_loop
admit_loop-IsSafe zero a = returns _
admit_loop-IsSafe (suc r) a = loads a.key _ (λ o d. elim (Bool-cases (lets_in o a.seq)) [
  | inr e ↦ rw e (returns _)
  | inl e ↦ rw e (
      IsSafe-bind (blocking_need a.needs) _ (blocking_need-IsSafe a.needs) (λ b.
        check_valid-IsSafe (admitted_record a o b) _ (λ v.
          swaps _ _ _ _ (admitted-Guarantee a o b d e v) (elim [
            | true ↦ after_admit-IsSafe (suc r) a b
            | false ↦ polls _ (admit_loop-IsSafe r a)
          ]))))
])

pub admit-IsSafe : (r : ℕ) (a : Submission) → IsSafe (admit r a)
unfolding admit
admit-IsSafe r a = guard-IsSafe _ _ _ (λ _. admit_loop-IsSafe r a)

check_open-IsSafe :
    {A : Type 0} (o : Option TaskState) (f : Unit {0} → Program A)
    → IsSafe (f tt)
    → IsSafe (check_open o >>= f)
unfolding check_open ◌>>=◌
check_open-IsSafe none f h = h
check_open-IsSafe (some t) f h = of_status t.status
  where
    of_status :
        (s : Status)
        → IsSafe (
            (elim s [
              | completed ↦ fail task_done
              | failed ↦ fail task_failed
              | blocked ↦ fail task_blocked
              | _ ↦ return tt
            ])
            >>= f)
    of_status pending = h
    of_status claimed = h
    of_status completed = returns _
    of_status failed = returns _
    of_status blocked = returns _
    of_status (other s) = h

outcome-IsSafe : (w : Option ℕ) (r : Result (Unit {0})) → IsSafe (outcome w r)
unfolding outcome
outcome-IsSafe none (ok _) = returns _
outcome-IsSafe none (err e) = returns _
outcome-IsSafe (some b) (ok _) = returns _
outcome-IsSafe (some b) (err e) = returns _

state-IsSafe : (k : String) → IsSafe (state k)
unfolding state
state-IsSafe k = loads k _ (λ o d. returns _)

pub run-IsSafe :
    (walks r : ℕ) (o : Options) (t : Task) (work : Option ℕ) → IsSafe (run walks r o t work)
unfolding run
run-IsSafe walks r o t work = guard-IsSafe _ _ _ (λ _. guard-IsSafe _ _ _ (λ _.
    guard-IsSafe _ _ _ (λ _. guard-IsSafe _ _ _ (λ _. guard-IsSafe _ _ _ (λ _.
      IsSafe-bind (admit r (submission o t)) _ (admit-IsSafe r (submission o t)) (λ _.
        IsSafe-bind (state t.key) _ (state-IsSafe t.key) (λ st. check_open-IsSafe st _ (
          IsSafe-bind (claim walks r o.actor t.key o.owner o.lease (o.clock 1)) _
            (claim-IsSafe walks r o.actor t.key o.owner o.lease (o.clock 1))
            (λ fence.
              let ending = complete r o.actor t.key o.owner fence (body_status work) (o.clock 2) in
              IsSafe-bind (attempt ending) _
                (IsSafe-attempt ending
                  (complete-IsSafe r o.actor t.key o.owner fence (body_status work) (o.clock 2)))
                (λ ended. outcome-IsSafe work ended))))))))))
