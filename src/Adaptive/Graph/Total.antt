-- ===== src/Adaptive/Graph/Total.antt =====
-- How a turn of the agent comes to its end.
use interview_agent_py.Prelude.{
  ℕ, zero, suc, ◌+◌, ◌≤◌, ◌<◌, ◌≡◌, ◌⊎◌, inl, inr, refl, ap, sym, ◌∙◌, subst, List, [], ◌∷◌, Option,
  none, some, Bool, true, false, Bool-cases, leb, is_empty, Text, arith,
}
use interview_agent_py.Retrieval.{occurs_in}
use interview_agent_py.Adaptive.Strategy.{should_end_interview}
use interview_agent_py.Adaptive.Graph.Resume.{resume_turn, resume_step, resume_from}
use interview_agent_py.Adaptive.Graph.{
  Outside, AgentState, Decision, no_reply, reply, max_agent_steps, end_signal, Route, to_finalize,
  to_tools, route_agent_output, finalize, report_of, execute_from, merge_results, follow,
  with_approval, interrupts_of, finished_runs, after_tools, last_calls, ToolCall, init_context,
  take_decision, agent_loop, loop, with_answer_message, run_next_turn,
}

-- After a decision the agent is done, or has made one more step of at most thirty.
abbrev Decided : AgentState → AgentState → Type 0
Decided s decided =
    (decided.finished ≡ true)
    ⊎ ((decided.agent_step_count ≡ s.agent_step_count + 1) × (s.agent_step_count < max_agent_steps))

module _ (outside : Outside) where
  take_decision-Decided :
      (s : AgentState) (d : Decision)
      → s.agent_step_count < max_agent_steps
      → Decided s (take_decision outside s d)
  unfolding take_decision
  take_decision-Decided s no_reply below = inl refl
  take_decision-Decided s (reply content calls) below =
      elim (Bool-cases (occurs_in end_signal content)) [
        | inl signal ↦ rw signal (inl refl)
        | inr goes_on ↦ elim (Bool-cases (is_empty calls)) [
          | inl no_calls ↦ rw (goes_on, no_calls) (inl refl)
          | inr calls_tools ↦ rw (goes_on, calls_tools) (inr (refl, below))
        ]
      ]

  agent_loop-Decided : (s : AgentState) → Decided s (agent_loop outside s)
  unfolding agent_loop
  agent_loop-Decided s = elim (Bool-cases (leb max_agent_steps s.agent_step_count)) [
    | inl at_limit ↦ rw at_limit (inl refl)
    | inr below ↦
        elim (Bool-cases
          (should_end_interview s.memory.turn_count s.max_turns s.memory.category_scores)) [
            | inl over ↦ rw (below, over) (inl refl)
            | inr goes_on ↦
                rw (below, goes_on)
                  (take_decision-Decided s (outside.decide s.messages) (ground arith))
          ]
  ]

  -- The state in which a turn ends: done, with the report of what it ends with.
  pub record IsEnd (s : AgentState) : Type 0 where
    pub is_finished : s.finished ≡ true
    pub nothing_asked : s.pending_approval ≡ none
    pub before : AgentState
    pub reported : s.final_report ≡ some (report_of before)
    pub same_turns : s.memory.qa_history ≡ before.memory.qa_history
    pub same_scores : s.memory.category_scores ≡ before.memory.category_scores

  -- The state in which a turn waits: not done, with the first of the questions that the tools of its
  -- last message ask to approve.
  pub record IsPaused (s : AgentState) : Type 0 where
    pub is_open : s.finished ≡ false
    pub few_steps : s.agent_step_count ≤ max_agent_steps
    pub approval : Text × Text
    pub others : List (Text × Text)
    pub asked : s.pending_approval ≡ some approval
    pub interrupts :
        interrupts_of outside (execute_from outside s.agent_step_count 0 (last_calls s.messages))
        ≡ approval ∷ others

  abbrev pub Settled : AgentState → Type 0
  Settled s = IsEnd s ⊎ IsPaused s

  finalize-IsEnd : (s : AgentState) → IsEnd (with_approval outside none (finalize s))
  unfolding finalize
  finalize-IsEnd s = record {
    is_finished = refl;
    nothing_asked = refl;
    before = s;
    reported = refl;
    same_turns = refl;
    same_scores = refl;
  }

  Ends : Option AgentState → Type 0
  Ends o = (s : AgentState) × (o ≡ some s) × Settled s

  route-finished : (s : AgentState) → s.finished ≡ true → route_agent_output s ≡ to_finalize
  unfolding route_agent_output
  route-finished s done = rw done refl

  abbrev calls_in : Route → List (Text × ToolCall)
  calls_in to_finalize = []
  calls_in (to_tools calls) = calls

  route-to_tools :
      (s : AgentState) (calls : List (Text × ToolCall))
      → route_agent_output s ≡ to_tools calls
      → (s.finished ≡ false) × (calls ≡ last_calls s.messages)
  unfolding route_agent_output
  route-to_tools s calls same = elim (Bool-cases s.finished) [
    | inl done ↦ absurd (ground (arith, same, route-finished s done))
    | inr is_open ↦ elim (Bool-cases (is_empty (last_calls s.messages))) [
      | inl nothing ↦
          let ends : route_agent_output s ≡ to_finalize =
            rw (route_agent_output, is_open, nothing) refl in
          absurd (ground (arith, same, ends))
      | inr something ↦
          let goes : route_agent_output s ≡ to_tools (last_calls s.messages) =
            rw (route_agent_output, is_open, something) refl in
          (is_open, ap calls_in (sym same ∙ goes))
    ]
  ]

  after_tools-Ends :
      (fuel : ℕ) (s decided : AgentState) (calls : List (Text × ToolCall))
      (asked : List (Text × Text))
      → decided.finished ≡ false
      → calls ≡ last_calls decided.messages
      → decided.agent_step_count ≤ max_agent_steps
      → interrupts_of outside (execute_from outside decided.agent_step_count 0 calls) ≡ asked
      → ((t : AgentState)
          → t.agent_step_count ≡ decided.agent_step_count
          → Ends (loop outside fuel t))
      → Ends (
          after_tools outside
            (loop outside fuel)
            decided
            (execute_from outside decided.agent_step_count 0 calls)
            asked)
  unfolding after_tools Ends merge_results
  after_tools-Ends fuel s decided calls [] is_open here few same rest =
      rest
        (merge_results outside decided
          (finished_runs outside (execute_from outside decided.agent_step_count 0 calls)))
        refl
  after_tools-Ends fuel s decided calls (approval ∷ others) is_open here few same rest = (
    with_approval outside (some approval) decided,
    refl,
    inr (record {
      is_open = is_open;
      few_steps = few;
      approval = approval;
      others = others;
      asked = refl;
      interrupts =
          subst
            (λ l.
              interrupts_of outside (execute_from outside decided.agent_step_count 0 l)
              ≡ approval ∷ others)
            here same;
    }),
  )

  follow-Ends :
      (fuel : ℕ) (s decided : AgentState) (r : Route)
      → route_agent_output decided ≡ r
      → Decided s decided
      → ((t : AgentState)
          → t.agent_step_count ≡ s.agent_step_count + 1
          → s.agent_step_count < max_agent_steps
          → Ends (loop outside fuel t))
      → Ends (follow outside (loop outside fuel) decided r)
  unfolding follow Ends
  follow-Ends fuel s decided to_finalize same step rest =
      (with_approval outside none (finalize decided), refl, inl (finalize-IsEnd decided))
  follow-Ends fuel s decided (to_tools calls) same (inl done) rest =
      absurd (ground (arith, same, route-finished decided done))
  follow-Ends fuel s decided (to_tools calls) same (inr (next, below)) rest =
      let sent = route-to_tools decided calls same in
      after_tools-Ends fuel s decided calls
        (interrupts_of outside (execute_from outside decided.agent_step_count 0 calls)) sent.0
        sent.1 (omega (arith, next, below)) refl (λ t e. rest t (e ∙ next) below)

  loop-Ends :
      (fuel : ℕ) (s : AgentState)
      → s.agent_step_count ≤ max_agent_steps
      → max_agent_steps < fuel + s.agent_step_count
      → Ends (loop outside fuel s)
  unfolding loop
  loop-Ends zero s low enough = absurd (omega arith)
  loop-Ends (suc fuel) s low enough =
      let decided = agent_loop outside s in
      follow-Ends fuel s decided (route_agent_output decided) refl (agent_loop-Decided s)
        (λ t next below. loop-Ends fuel t (omega arith) (omega arith))

  pub run_next_turn-Settled :
      (user_answer : Option Text) (s : AgentState)
      → (t : AgentState) × (run_next_turn outside user_answer s ≡ some t) × Settled t
  unfolding run_next_turn init_context Ends
  run_next_turn-Settled user_answer s =
      loop-Ends (max_agent_steps + 1)
        (init_context outside (with_answer_message outside user_answer s)) (omega arith)
        (omega arith)

  -- So does a turn that waited for one approval, after the answer to it.
  pub resume_turn-Settled :
      (approved : Bool) (s : AgentState) (paused : IsPaused s)
      → paused.others ≡ []
      → (t : AgentState) × (resume_turn outside approved s ≡ some t) × Settled t
  unfolding resume_turn resume_step merge_results Ends
  resume_turn-Settled approved s paused alone =
      let one = paused.interrupts ∙ ap (λ l. paused.approval ∷ l) alone in
      rw (resume_turn, one, resume_step)
        (loop-Ends (max_agent_steps + 1)
          (merge_results outside s (
            finished_runs outside
              (resume_from outside approved s.agent_step_count 0 (last_calls s.messages))))
          paused.few_steps (omega arith))
