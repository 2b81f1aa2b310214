-- ===== src/Lib.antt =====
-- Mivia AI SDK: the ledger of tasks, the transition tables, the workflow graphs, the
-- compaction of contexts, the loop of an agent and the event hooks.
--
-- Base holds what the parts share: tests on numbers and texts, lists by native numbers, a Go map
-- as an association list (Base.Maps, Base.Keys), sort.Strings (Base.Sort), the pigeonhole
-- principle for texts (Base.Counting), and signed integers (Base.Int).
--
-- Ledger is the package ledger. A ledger is a store of task records that any number of callers
-- change through compare-and-swap.
--   Ledger.Task       task_state.go, errors.go: the record, its statuses and Validate
--   Ledger.Store      store.go, store_eviction.go: MemStore as a value; CompareAndSwap with eviction
--   Ledger.Program    the interface Store: a method is a program of store calls, so that the calls of
--                     many callers interleave (step, run_schedule) or one runs alone (run_alone)
--   Ledger.Leases     claim.go: Claim, Renew, Release, Takeover
--   Ledger.Blocking   ledger.go, complete.go: blockingNeed, blockingAncestor, blockOne
--   Ledger.Completion complete.go: transitiveDependents, blockDependents, Complete
--   Ledger.Admission  ledger.go: Admit, recheckNeeds, State, Blocked
--   Ledger.Snapshots  snapshot.go: Snapshot, its Validate, Restore; Roundtrip proves
--   Ledger.TaskRun    taskrun.go: Run, with the caller's work as its result
-- The proofs: Ledger.Validity (field rules), Ledger.Store.Eviction, Retention, Swap and Landing (what
-- a write leaves in the store), Ledger.Guarantee (each write of each method but Restore, which sets up
-- a store and is no call of a schedule, is one of seven moves),
-- Ledger.Interleaving (from the moves to every schedule), Ledger.Alone and Ledger.Leases.Grants (a
-- caller alone). A method's program is a finite tree: each CompareAndSwap, Load or Range is one step
-- of the store, as its mutex makes it, and may meet a canceled context and a clock that moves. A context
-- canceled inside an attempt ends the whole program, where Run of taskrun.go joins the errors.
--
-- Machine is the package machine: the table, Validate with its reachability loop, New, Fire.
-- Machine.Reachability is about that loop, Machine.Moves about Validate and Fire.
--
-- Flow is the package flow: New, Run and Resume.
--   Flow.Step         step.go, outcome.go: steps, policies, outcomes, direct dependents
--   Flow.Graph        definition.go, validate.go and the checks of routing.go, failure.go, retry.go
--                     and loop.go: what New refuses; Flow.Rules says what it accepts
--                     (Members of panels, Nesting of child workflows)
--   Flow.Cycles       validate.go, definition.go: findRoots, validatePanelIndependence and New; its
--                     children are about Kahn's counts (Counts, Search), what findRoots accepts
--                     (Order), what ancestorsOf finds (Closure) and what New accepts (Fellows)
--   Flow.Admission    routing.go, failure.go: verdicts and routes; Flow.Verdicts and Flow.Routes prove
--   Flow.Failures     failure.go: the pending failures and their fallbacks; Handled is about them
--   Flow.Retry        retry.go: the rule of a policy, and NextDelay
--   Flow.Execution    one step or wave: runSingleton with retries and looped children, runWave;
--                     Fuel says how much of it a step needs
--   Flow.Checkpoint   checkpoint.go, resume.go: Checkpoint, Validate, seeding; Restore proves
--   Flow.Runner       runner.go, resume.go: nextReadyGroup, advanceGroup, runLoop, Run, Resume; its
--                     children are about what a scan finds (Finds, Live), the end of a walk
--                     (Progress, Writes, Ends), its outcomes (Final, Marks, Outcomes), the failures
--                     that it catches (Caught, Skips, Settled, Pending) and a refused route (Rejected)
-- The machine's Fire, the caller's functions and the context answer a walk through a record Turn, one
-- for each round; a child run is such an answer, as are the moves of a wave's members, each on its own
-- copy of the record.
--
-- The module Plan holds context/plan: the messages and units of a history (compact_units.go), and
--   Plan.Window       window.go, compaction.go: the budget, the thresholds and their rules, which
--                     Thresholds bounds
--   Plan.Compact      compact.go: Compact; Parts and Cases take it apart, Retention, Mandatory and Fits
--                     say what its result holds
-- The estimator of tokens is the caller's: a function of the messages that may fail.
--
-- Agent is the loop of the package agentloop: run.go with stop.go, tokens.go, shape.go and conclude.go.
-- Agent.Iterations is about one round and Agent.Ends about a run. What the planning, the model, the
-- tools and the host's hooks answer in a round is a record Round, one for each.
--
-- Events is events/registry.go: Add, Remove and Fire; Events.Order is about names and order.
--
-- Bounds and fuel. FenceToken and Rev wrap at 2^64, and so do the ints of Plan, as signed ones;
-- Sequence is only compared. The eviction loop has fuel for every record, eight rotations and
-- one more round, which its theorem shows to be enough. The reachability loop has one pass more
-- than there are rows, which is enough too. The loop of findRoots and the recursion of
-- ancestorsOf have one more than there are steps, a walk needs a round for each step, and an
-- agent's run one more than MaxIterations; their theorems show that this is enough. The retry
-- loops of the ledger take their fuel as an argument, and fail with out_of_fuel: in Go they run until a
-- swap succeeds or the context ends; a theorem about a schedule holds for any fuel of these. The
-- retries and the looped child of a step have fuel too, and a walk in which it runs out, or that would panic, has no result:
-- MaxAttempts and a loop's Max are enough of it, and a loop with a zero Max, which Go runs until its
-- Guard, its child or the context ends it, may need more than any given number. A delay is a signed
-- 64-bit integer that wraps, as time.Duration does.
--
-- Not modelled: the SQLite store and the JSON forms (a database and encoding/json), the bus (events
-- are emitted and their errors ignored), the contexts and texts of errors, and the packages around these
-- (providers, tools with their dispatch, channels, sessions), which drive models, processes and files.
-- Tests holds runs on concrete inputs.
pub mod Base
pub mod Ledger
pub mod Machine
pub mod Flow
pub mod Events
pub mod Plan
pub mod Agent
pub mod Tests
