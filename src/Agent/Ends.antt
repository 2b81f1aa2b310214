-- ===== src/Agent/Ends.antt =====
-- agentloop/run.go: how a run of the agent's loop ends.
use mathlib.Core.Option.{some_inj}
use mivia_ai_sdk.Base.{
  ℕ, zero, suc, ◌+◌, ◌≤◌, ◌<◌, ◌≡◌, ◌≢◌, refl, subst, List, Option, some, arith,
}
use mivia_ai_sdk.Plan.{Message}
use mivia_ai_sdk.Agent.{
  Loop, RunError, cut_off, Round, RunState, Result, Step, ends, goes_on, run_round, follow,
  run_loop, run,
}
use mivia_ai_sdk.Agent.Iterations.{IsResult, IsStep, is_end, is_next, run_round-IsStep}

module _ {C E : Type 0} where
  follow-IsResult :
      (n : ℕ) (s : Step C E) (k : RunState C → Option (Result C × Option (RunError E)))
      (r : Result C × Option (RunError E))
      → IsStep 0 n s
      → ((st : RunState C) → st.iterations ≤ n → k st ≡ some r → IsResult n r.0 r.1)
      → follow s k ≡ some r
      → IsResult n r.0 r.1
  unfolding follow
  follow-IsResult n (ends x e) k r (is_end i) f h = subst (λ z. IsResult n z.0 z.1) (some_inj.0 h) i
  follow-IsResult n (goes_on st) k r (is_next a b) f h = f st b h

  run_loop-IsResult :
      (f : ℕ) (l : Loop C) (rounds : ℕ → Round C E) (st : RunState C)
      (r : Result C × Option (RunError E))
      → st.iterations ≤ l.max_rounds
      → run_loop f l rounds st ≡ some r
      → IsResult l.max_rounds r.0 r.1
  unfolding run_loop
  run_loop-IsResult zero l rounds st r b h = absurd (ground (arith, h))
  run_loop-IsResult (suc f) l rounds st r b h =
      follow-IsResult l.max_rounds (run_round l (rounds f) st) _ r
        (run_round-IsStep 0 l (rounds f) st (omega arith) b (λ ms x. omega arith))
        (λ st' b' h'. run_loop-IsResult f l rounds st' r b' h') h

  -- Whatever the model, the tools, the hooks and a steer do: a run that ends counts at most
  -- MaxIterations iterations, that is, completed replies of the model; it names a stop reason exactly
  -- when it returns no error; a final message comes only with a stop at a reply without tool calls or
  -- with a steer's; and where it stops for MaxIterations, it counts exactly so many.
  pub run-IsResult :
      (fuel : ℕ) (l : Loop C) (rounds : ℕ → Round C E) (msgs : List (Message C))
      (r : Result C × Option (RunError E))
      → run fuel l rounds msgs ≡ some r
      → IsResult l.max_rounds r.0 r.1
  unfolding run
  run-IsResult fuel l rounds msgs r h = run_loop-IsResult fuel l rounds _ r (omega arith) h

  abbrev pub Ended : Option (Result C × Option (RunError E)) → Type 0
  Ended o = (r : Result C × Option (RunError E)) × (o ≡ some r)

  follow-Ended :
      (lo n : ℕ) (s : Step C E) (k : RunState C → Option (Result C × Option (RunError E)))
      → IsStep lo n s
      → ((st : RunState C) → lo ≤ st.iterations → st.iterations ≤ n → Ended (k st))
      → Ended (follow s k)
  unfolding follow
  follow-Ended lo n (ends x e) k (is_end i) f = ((x, e), refl)
  follow-Ended lo n (goes_on st) k (is_next a b) f = f st a b

  run_loop-Ended :
      (f : ℕ) (l : Loop C) (rounds : ℕ → Round C E) (st : RunState C)
      → ((i : ℕ) (ms : List (Message C)) → (rounds i).chat ms ≢ cut_off)
      → st.iterations ≤ l.max_rounds
      → l.max_rounds < st.iterations + f
      → Ended (run_loop f l rounds st)
  unfolding run_loop
  run_loop-Ended zero l rounds st c b h = absurd (omega arith)
  run_loop-Ended (suc f) l rounds st c b h =
      follow-Ended (suc st.iterations) l.max_rounds (run_round l (rounds f) st) _
        (run_round-IsStep (suc st.iterations) l (rounds f) st (omega arith) b
          (λ ms x. absurd (c f ms x)))
        (λ st' a' b'. run_loop-Ended f l rounds st' c b' (omega arith))

  -- A run whose calls of the model are not cut off by a steer ends within one round more than
  -- MaxIterations.
  pub run-Ended :
      (fuel : ℕ) (l : Loop C) (rounds : ℕ → Round C E) (msgs : List (Message C))
      → ((i : ℕ) (ms : List (Message C)) → (rounds i).chat ms ≢ cut_off)
      → l.max_rounds < fuel
      → Ended (run fuel l rounds msgs)
  unfolding run
  run-Ended fuel l rounds msgs c h = run_loop-Ended fuel l rounds _ c (omega arith) (omega arith)
