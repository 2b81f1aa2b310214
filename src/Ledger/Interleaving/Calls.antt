-- ===== src/Ledger/Interleaving/Calls.antt =====
-- Callers of the ledger's methods, in any number, over one store and in any order of their calls.
use mivia_ai_sdk.Base.{
  ℕ, ◌+◌, ◌≤◌, ◌<◌, ◌≡◌, String, List, [], ◌∷◌, true, Option, some, lookup, length, map,
}
use mivia_ai_sdk.Base.Int.{ℤ}
use mivia_ai_sdk.Ledger.Task.{TaskState, Status, is_terminal_status}
use mivia_ai_sdk.Ledger.Store.{MemStore, u64_mod}
use mivia_ai_sdk.Ledger.Store.Retention.{key_fence, FencesUnder}
use mivia_ai_sdk.Ledger.Program.{Program, Moment, run_schedule, return, ◌>>=◌}
use mivia_ai_sdk.Ledger.Leases.{claim, renew, release, takeover}
use mivia_ai_sdk.Ledger.Completion.{complete}
use mivia_ai_sdk.Ledger.Admission.{Submission, admit}
use mivia_ai_sdk.Ledger.TaskRun.{Options, Task, run}
use mivia_ai_sdk.Ledger.Guarantee.{IsSafe, IsSafe-bind, returns}
use mivia_ai_sdk.Ledger.Guarantee.Methods.{
  claim-IsSafe, renew-IsSafe, release-IsSafe, takeover-IsSafe, complete-IsSafe, admit-IsSafe,
  run-IsSafe,
}
use mivia_ai_sdk.Ledger.Interleaving.Writes.{IsSound}
use mivia_ai_sdk.Ledger.Interleaving.Schedules.{Advance, AllSafe, run_schedule-Advance}

-- A call of a method with its arguments. `walks` and `rounds` are the fuel of its loops.
pub data Call : Type 0 where
  admitting : ℕ → Submission → Call
  claiming taking_over : ℕ → ℕ → String → String → String → ℤ → ℕ → Call
  renewing : ℕ → String → String → String → ℕ → ℤ → ℕ → Call
  releasing : ℕ → String → String → String → ℕ → ℕ → Call
  completing : ℕ → String → String → String → ℕ → Status → ℕ → Call
  running : ℕ → ℕ → Options → Task → Option ℕ → Call

abbrev ended : {A : Type 0} → Program A → Program (Unit {0})
ended p = p >>= λ _. return tt

unfoldable pub program : Call → Program (Unit {0})
program (admitting r a) = ended (admit r a)
program (claiming w r actor key owner lease now) = ended (claim w r actor key owner lease now)
program (taking_over w r actor key owner lease now) = ended (takeover w r actor key owner lease now)
program (renewing r actor key owner fence lease now) =
    ended (renew r actor key owner fence lease now)
program (releasing r actor key owner fence now) = ended (release r actor key owner fence now)
program (completing r actor key owner fence status now) =
    ended (complete r actor key owner fence status now)
program (running w r o t work) = ended (run w r o t work)

ended-IsSafe : {A : Type 0} (p : Program A) → IsSafe p → IsSafe (ended p)
ended-IsSafe p s = IsSafe-bind p _ s (λ _. returns _)

program-IsSafe : (c : Call) → IsSafe (program c)
unfolding program
program-IsSafe (admitting r a) = ended-IsSafe _ (admit-IsSafe r a)
program-IsSafe (claiming w r actor key owner lease now) =
    ended-IsSafe _ (claim-IsSafe w r actor key owner lease now)
program-IsSafe (taking_over w r actor key owner lease now) =
    ended-IsSafe _ (takeover-IsSafe w r actor key owner lease now)
program-IsSafe (renewing r actor key owner fence lease now) =
    ended-IsSafe _ (renew-IsSafe r actor key owner fence lease now)
program-IsSafe (releasing r actor key owner fence now) =
    ended-IsSafe _ (release-IsSafe r actor key owner fence now)
program-IsSafe (completing r actor key owner fence status now) =
    ended-IsSafe _ (complete-IsSafe r actor key owner fence status now)
program-IsSafe (running w r o t work) = ended-IsSafe _ (run-IsSafe w r o t work)

programs-AllSafe : (cs : List Call) → AllSafe (map program cs)
programs-AllSafe [] = tt
programs-AllSafe (c ∷ cs) = (program-IsSafe c, programs-AllSafe cs)

-- All callers start on the store; the schedule names who moves, call by call.
unfoldable pub interleave : List Call → List (ℕ × Moment) → MemStore → MemStore
interleave cs sched m = (run_schedule sched (record { callers = map program cs; store = m })).store

interleave-Advance :
    (cs : List Call) (sched : List (ℕ × Moment)) (m : MemStore)
    → IsSound m
    → IsSound (interleave cs sched m) × Advance (length sched) m (interleave cs sched m)
unfolding interleave
interleave-Advance cs sched m s = run_schedule-Advance sched _ (programs-AllSafe cs) s

-- From a sound store, any callers in any interleaving, canceled at any call, leave a sound store:
-- the map's keys are distinct, the eviction queue is a permutation of them, and every record is
-- accepted by Validate and stands under its own key.
pub interleave-IsSound :
    (cs : List Call) (sched : List (ℕ × Moment)) (m : MemStore)
    → IsSound m
    → IsSound (interleave cs sched m)
interleave-IsSound cs sched m s = (interleave-Advance cs sched m s).0

-- If all fences of a sound store are at most b, and b plus the number of calls is below 2^64, then
-- no interleaving lowers the fence of any key, where a key without a record has the store's fence
-- floor: so a key's fence does not fall when its record is evicted and admitted again.
pub interleave-key_fence :
    (cs : List Call) (sched : List (ℕ × Moment)) (m : MemStore) (b : ℕ) (k : String)
    → IsSound m
    → FencesUnder b m
    → b + length sched < u64_mod
    → key_fence m k ≤ key_fence (interleave cs sched m) k
interleave-key_fence cs sched m b k s u h = (interleave-Advance cs sched m s).1.fences b u h k

-- In a store without a bound on its entries, a record that is completed, failed or blocked is the
-- same record, in every field, after any interleaving of calls.
pub interleave-terminal :
    (cs : List Call) (sched : List (ℕ × Moment)) (m : MemStore) (k : String) (t : TaskState)
    → IsSound m
    → m.max_entries ≡ 0
    → lookup k m.tasks ≡ some t
    → is_terminal_status t.status ≡ true
    → lookup k (interleave cs sched m).tasks ≡ some t
interleave-terminal cs sched m k t s z h live =
    (interleave-Advance cs sched m s).1.terminal k t z h live
