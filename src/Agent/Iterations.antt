-- ===== src/Agent/Iterations.antt =====
-- agentloop/run.go: how an iteration of the agent's loop ends.
use mathlib.Core.Option.{some_inj}
use mivia_ai_sdk.Base.{
  ℕ, suc, ◌≤◌, ◌≡◌, ◌≢◌, ◌⊎◌, ◌++◌, refl, ap, inl, inr, String, List, [], ◌∷◌, Bool, true, false,
  Option, none, some, not, ◌&&◌, ltb, leb, ◌==◌, length, Bool-cases, Option-cases, arith,
}
use mivia_ai_sdk.Base.Int.{ltb_int, pos}
use mivia_ai_sdk.Plan.{Message}
use mivia_ai_sdk.Agent.{
  StopReason, no_tool_calls, empty_response, max_iterations, hook_veto, concluded, steered,
  repeated_tool_failures, Loop, Response, RunError, Attempt, replied, cut_off, chat_failed, ToolRun,
  Answer, fault, answer, Round, RunState, Result, Step, ends, goes_on, hard_fail, stopped_at,
  graceful_stop, after_tools, run_tool_stage, record_reply, bill, after_chat, nudge, converse,
  run_iteration, run_round, drop_empty_turns, should_conclude,
}

Answer-cases :
    {E A : Type 0} (a : Answer E A) → ((e : E) × (a ≡ fault e)) ⊎ ((x : A) × (a ≡ answer x))
Answer-cases (fault e) = inl (e, refl)
Answer-cases (answer x) = inr (x, refl)

-- The stops that may come with a final message: those at a reply without tool calls, and a steer's.
abbrev pub is_answering : StopReason → Bool
is_answering no_tool_calls = true
is_answering empty_response = true
is_answering concluded = true
is_answering steered = true
is_answering max_iterations = false
is_answering hook_veto = false
is_answering repeated_tool_failures = false

module _ {C E : Type 0} where
  -- The result of a run with at most `n` completed replies: an error comes with no stop reason, and no
  -- error with one; a final message comes with a stop at an answer; and the stop for the number of
  -- iterations comes with `n` of them.
  pub record IsResult (n : ℕ) (r : Result C) (e : Option (RunError E)) : Type 0 where
    pub bounded : r.iterations ≤ n
    pub error : e ≢ none → r.stop ≡ none
    pub graceful : e ≡ none → r.stop ≢ none
    pub final : r.final ≢ none → (s : StopReason) × (r.stop ≡ some s) × (is_answering s ≡ true)
    pub exhausted : r.stop ≡ some max_iterations → r.iterations ≡ n

  -- An iteration after which at most `n` replies are completed, and at least `lo` if the run goes on.
  pub data IsStep (lo n : ℕ) : Step C E → Type 0 where
    is_end : {r : Result C} {e : Option (RunError E)} → IsResult n r e → IsStep lo n (ends r e)
    is_next : {st : RunState C} → lo ≤ st.iterations → st.iterations ≤ n → IsStep lo n (goes_on st)

  hard_fail-IsStep :
      (lo n : ℕ) (ms : List (Message C)) (i : ℕ) (u : _) (e : RunError E)
      → i ≤ n
      → IsStep lo n (ends (hard_fail ms i u) (some e))
  unfolding hard_fail
  hard_fail-IsStep lo n ms i u e h = elim (Bool-cases (i == 0)) [
    | inl q ↦
        rw (q, hard_fail)
          (is_end (record {
            bounded = omega arith;
            error = λ x. refl;
            graceful = λ x. absurd (ground (arith, x));
            final = λ x. absurd (x refl);
            exhausted = λ x. absurd (ground (arith, x));
          }))
    | inr q ↦
        rw (q, hard_fail)
          (is_end (record {
            bounded = h;
            error = λ x. refl;
            graceful = λ x. absurd (ground (arith, x));
            final = λ x. absurd (x refl);
            exhausted = λ x. absurd (ground (arith, x));
          }))
  ]

  stopped_at-IsStep :
      (lo n : ℕ) (st : RunState C) (final : Option (Message C)) (stop : StopReason)
      → st.iterations ≤ n
      → (final ≢ none → is_answering stop ≡ true)
      → (stop ≡ max_iterations → n ≤ st.iterations)
      → IsStep lo n (ends (stopped_at st final stop) none)
  unfolding stopped_at
  stopped_at-IsStep lo n st final stop h f x = is_end (record {
    bounded = h;
    error = λ q. absurd (q refl);
    graceful = λ q. ground (arith, q);
    final = λ q. (stop, refl, f q);
    exhausted = λ q. let m = x (some_inj.0 q) in omega (arith, h, m);
  })

  graceful_stop-IsStep :
      (lo n : ℕ) (round : Round C E) (st : RunState C) (final : Option (Message C))
      (stop : StopReason)
      → lo ≤ st.iterations
      → st.iterations ≤ n
      → is_answering stop ≡ true
      → IsStep lo n (graceful_stop round st final stop)
  unfolding graceful_stop
  graceful_stop-IsStep lo n round st final stop k h g =
      elim (Answer-cases (round.continue_on_stop stop st.history)) [
        | inl (e, q) ↦
            rw (q, graceful_stop) (hard_fail-IsStep lo n st.history st.iterations st.usage _ h)
        | inr (ms, q) ↦ rw (q, graceful_stop) (of_messages ms)
      ]
    where
      of_messages :
          (ms : List (Message C))
          → IsStep lo n (elim ms [
            | [] ↦ ends (stopped_at st final stop) none
            | m ∷ more ↦ goes_on (record st { history = st.history ++ (m ∷ more) })
          ])
      of_messages [] =
          stopped_at-IsStep lo n st final stop h (λ q. g)
            (λ q. absurd (ground (arith, g, ap is_answering q)))
      of_messages (m ∷ more) = is_next k h

  after_tools-IsStep :
      (lo n : ℕ) (l : Loop C) (st : RunState C) (t : ToolRun C E)
      → lo ≤ st.iterations
      → st.iterations ≤ n
      → IsStep lo n (after_tools l st t)
  unfolding after_tools
  after_tools-IsStep lo n l st t k h = elim (Option-cases t.error) [
    | inr (e, q) ↦ rw (q, after_tools) (hard_fail-IsStep lo n t.history st.iterations st.usage _ h)
    | inl q ↦ elim (Bool-cases t.is_vetoed) [
      | inl v ↦
          rw (q, v, after_tools)
            (stopped_at-IsStep lo n (record st { history = t.history }) none _ h
              (λ x. absurd (x refl)) (λ x. absurd (ground (arith, x))))
      | inr v ↦ elim (Bool-cases t.all_failed) [
        | inr f ↦ rw (q, v, f, after_tools) (is_next k h)
        | inl f ↦
            elim (Bool-cases (not (l.max_failures == 0) && leb l.max_failures (suc st.failures))) [
              | inl b ↦
                  rw (q, v, f, b, after_tools)
                    (stopped_at-IsStep lo n (record st { history = t.history }) none _ h
                      (λ x. absurd (x refl)) (λ x. absurd (ground (arith, x))))
              | inr b ↦ rw (q, v, f, b, after_tools) (is_next k h)
            ]
      ]
    ]
  ]

  run_tool_stage-IsStep :
      (lo n : ℕ) (l : Loop C) (round : Round C E) (st : RunState C) (resp : Response C)
      (noticed : Bool)
      → lo ≤ st.iterations
      → st.iterations ≤ n
      → IsStep lo n (run_tool_stage l round st resp noticed)
  unfolding run_tool_stage
  run_tool_stage-IsStep lo n l round st resp noticed k h = of_calls resp.calls refl
    where
      of_calls :
          (cs : List String)
          → resp.calls ≡ cs
          → IsStep lo n (run_tool_stage l round st resp noticed)
      of_calls [] e =
          rw (e, run_tool_stage)
            (graceful_stop-IsStep lo n round (record st { failures = 0 }) _ _ k h (ground arith))
      of_calls (c ∷ cs) e =
          elim (Bool-cases
            (not (l.max_calls_per_turn == 0) && ltb l.max_calls_per_turn (length (c ∷ cs)))) [
              | inl b ↦
                  rw (e, run_tool_stage, b)
                    (hard_fail-IsStep lo n st.history st.iterations st.usage _ h)
              | inr b ↦ elim (Option-cases (round.reserve_tools (length (c ∷ cs)))) [
                | inr (x, r) ↦
                    rw (e, run_tool_stage, b, r)
                      (hard_fail-IsStep lo n st.history st.iterations st.usage _ h)
                | inl r ↦
                    rw (e, run_tool_stage, b, r)
                      (after_tools-IsStep lo n l st (round.run_tools st.history (c ∷ cs)) k h)
              ]
            ]

  after_chat-IsStep :
      (lo n : ℕ) (l : Loop C) (round : Round C E) (st : RunState C) (resp : Response C)
      (noticed : Bool)
      → lo ≤ st.iterations
      → st.iterations ≤ n
      → IsStep lo n (after_chat l round st resp noticed)
  unfolding after_chat bill
  after_chat-IsStep lo n l round st resp noticed k h = elim (Option-cases (round.audit resp)) [
    | inr (e, q) ↦ rw (q, after_chat) (hard_fail-IsStep lo n st.history st.iterations st.usage _ h)
    | inl q ↦
        elim (Bool-cases (
          not (l.max_total_tokens == 0)
          && ltb_int (pos l.max_total_tokens) (bill st resp).running_tokens)) [
            | inl b ↦
                rw (q, b, after_chat) (hard_fail-IsStep lo n st.history st.iterations st.usage _ h)
            | inr b ↦
                rw (q, b, after_chat)
                  (run_tool_stage-IsStep lo n l round (bill st resp) resp noticed k h)
          ]
  ]

  nudge-iterations :
      (l : Loop C) (round : Round C E) (st : RunState C)
      → (nudge l round st).iterations ≡ st.iterations
  unfolding nudge
  nudge-iterations l round st =
      elim (Bool-cases (not st.notice_sent && should_conclude l st.iterations round.is_late)) [
        | inl e ↦ rw (e, nudge) refl
        | inr e ↦ rw (e, nudge) refl
      ]

  converse-IsStep :
      (lo n : ℕ) (l : Loop C) (round : Round C E) (st : RunState C)
      → lo ≤ suc st.iterations
      → suc st.iterations ≤ n
      → ((ms : List (Message C)) → round.chat ms ≡ cut_off → lo ≤ st.iterations)
      → IsStep lo n (converse l round st)
  unfolding converse record_reply
  converse-IsStep lo n l round st k h c = of_attempt (round.chat st.history) refl
    where
      of_attempt : (a : Attempt C E) → round.chat st.history ≡ a → IsStep lo n (converse l round st)
      of_attempt (replied resp history) e =
          rw (e, converse)
            (after_chat-IsStep lo n l round (record_reply st resp history) resp _ k h)
      of_attempt cut_off e =
          rw (e, converse)
            (graceful_stop-IsStep lo n round st round.captured _ (c st.history e) (omega (arith, h))
              refl)
      of_attempt (chat_failed x true) e =
          rw (e, converse)
            (is_end (record {
              bounded = omega (arith, h);
              error = λ q. refl;
              graceful = λ q. absurd (ground (arith, q));
              final = λ q. absurd (q refl);
              exhausted = λ q. absurd (ground (arith, q));
            }))
      of_attempt (chat_failed x false) e =
          rw (e, converse)
            (hard_fail-IsStep lo n st.history st.iterations st.usage _ (omega (arith, h)))

  run_iteration-IsStep :
      (lo n : ℕ) (l : Loop C) (round : Round C E) (st : RunState C)
      → lo ≤ suc st.iterations
      → suc st.iterations ≤ n
      → ((ms : List (Message C)) → round.chat ms ≡ cut_off → lo ≤ st.iterations)
      → IsStep lo n (run_iteration l round st)
  unfolding run_iteration
  run_iteration-IsStep lo n l round st k h c =
      let low : st.iterations ≤ n = omega (arith, h) in
      elim (Answer-cases (round.trim (drop_empty_turns l st.history))) [
        | inl (e, q) ↦ rw (q, run_iteration) (hard_fail-IsStep lo n _ st.iterations st.usage _ low)
        | inr (trimmed, q) ↦ elim (Answer-cases (round.plan trimmed)) [
          | inl (e, r) ↦
              rw (q, r, run_iteration) (hard_fail-IsStep lo n _ st.iterations st.usage _ low)
          | inr (planned, r) ↦ elim (Option-cases (round.over_budget planned)) [
            | inr (e, b) ↦
                rw (q, r, b, run_iteration) (hard_fail-IsStep lo n _ st.iterations st.usage _ low)
            | inl b ↦
                let st' : RunState C = record st { history = planned } in
                let e = nudge-iterations l round st' in
                rw (q, r, b, run_iteration)
                  (converse-IsStep lo n l round (nudge l round st') (omega (arith, k, e))
                    (omega (arith, h, e)) (λ ms x. omega (arith, c ms x, e)))
          ]
        ]
      ]

  pub run_round-IsStep :
      (lo : ℕ) (l : Loop C) (round : Round C E) (st : RunState C)
      → lo ≤ suc st.iterations
      → st.iterations ≤ l.max_rounds
      → ((ms : List (Message C)) → round.chat ms ≡ cut_off → lo ≤ st.iterations)
      → IsStep lo l.max_rounds (run_round l round st)
  unfolding run_round
  run_round-IsStep lo l round st k h c =
      let n = l.max_rounds in
      let st' : RunState C = record st { history = st.history ++ round.injected } in
      elim (Option-cases round.is_canceled) [
        | inr (e, q) ↦
            rw (q, run_round) (hard_fail-IsStep lo n st.history st.iterations st.usage _ h)
        | inl q ↦ elim (Bool-cases (leb l.max_rounds st.iterations)) [
          | inl b ↦
              rw (q, b, run_round)
                (stopped_at-IsStep lo n st' none _ h (λ x. absurd (x refl))
                  (λ x. ground (arith, b)))
          | inr b ↦
              let more : suc st.iterations ≤ n = ground (arith, b) in
              elim (Bool-cases (leb 1 st.iterations)) [
                | inr d ↦ rw (q, b, d, run_round) (run_iteration-IsStep lo n l round st' k more c)
                | inl d ↦ elim (Option-cases round.surface_error) [
                  | inr (e, s) ↦
                      rw (q, b, d, s, run_round)
                        (hard_fail-IsStep lo n st'.history st.iterations st.usage _ h)
                  | inl s ↦
                      rw (q, b, d, s, run_round) (run_iteration-IsStep lo n l round st' k more c)
                ]
              ]
        ]
      ]
