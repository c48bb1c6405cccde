-- ===== src/Adaptive/Graph/Carried.antt =====
-- What one effect of a tool keeps, a turn of the agent keeps.
use interview_agent_py.Prelude.{
  ℕ, zero, suc, ◌+◌, ◌≡◌, refl, List, [], ◌∷◌, Option, none, some, Bool, Bool-cases, ◌⊎◌, inl, inr,
  leb, is_empty, Text, subst,
}
use interview_agent_py.Prelude.Sorting.{insert, sorted}
use interview_agent_py.Retrieval.{occurs_in}
use interview_agent_py.Adaptive.{Memory, TraceEntry, ToolEffect}
use interview_agent_py.Adaptive.Tools.{
  ToolAnswer, other_tool, apply_tool_side_effects, merge_one, merge_all, index_leb,
  merge_tool_results,
}
use interview_agent_py.Adaptive.Strategy.{should_end_interview}
use interview_agent_py.Adaptive.Graph.Resume.{run_again, resume_from, resume_step, resume_turn}
use interview_agent_py.Adaptive.Graph.{
  ToolCall, Outside, AgentState, Decision, no_reply, reply, max_agent_steps, end_signal, Route,
  to_finalize, to_tools, route_agent_output, finalize, with_trace, sent_memory, tool_result,
  dispatch_tool, execute_single_tool, execute_from, effects_of, merge_results, follow,
  interrupts_of, finished_runs, after_tools, last_calls, ToolRun, tool_failed, interrupted,
  answered, AgentMessage, init_context, take_decision, agent_loop, loop, with_answer_message,
  run_next_turn,
}

-- An effect that the node of a tool has: it is computed from the sent state, not from the memory.
abbrev pub Executed : ToolEffect → Type 0
Executed e = (answer : ToolAnswer) × (e.side_effect ≡ apply_tool_side_effects answer sent_memory)

abbrev AllExecuted : List ToolEffect → Type 0
AllExecuted [] = Unit
AllExecuted (e ∷ es) = Executed e × AllExecuted es

insert-AllExecuted :
    (e : ToolEffect) (es : List ToolEffect)
    → Executed e
    → AllExecuted es
    → AllExecuted (insert index_leb e es)
unfolding insert
insert-AllExecuted e [] h hs = (h, tt)
insert-AllExecuted e (f ∷ es) h hs = elim (Bool-cases (index_leb e f)) [
  | inl before ↦ rw before (h, hs)
  | inr after ↦ rw after (hs.0, insert-AllExecuted e es h hs.1)
]

sorted-AllExecuted : (es : List ToolEffect) → AllExecuted es → AllExecuted (sorted index_leb es)
unfolding sorted
sorted-AllExecuted [] hs = tt
sorted-AllExecuted (e ∷ es) hs =
    insert-AllExecuted e (sorted index_leb es) hs.0 (sorted-AllExecuted es hs.1)

module _ (outside : Outside) where
  -- A tool that was not interrupted.
  abbrev FromSent : (Text × Text) ⊎ (AgentMessage × ToolEffect) → Type 0
  FromSent (inl approval) = Unit
  FromSent (inr result) = Executed result.1

  AllFromSent : List ((Text × Text) ⊎ (AgentMessage × ToolEffect)) → Type 0
  AllFromSent [] = Unit
  AllFromSent (run ∷ runs) = FromSent run × AllFromSent runs

  tool_result-FromSent :
      (index : ℕ) (tool_id : Text) (call : ToolCall) (run : ToolRun)
      → FromSent (tool_result outside index tool_id call run)
  unfolding tool_result apply_tool_side_effects
  tool_result-FromSent index tool_id call tool_failed = (other_tool, refl)
  tool_result-FromSent index tool_id call (interrupted question category) = tt
  tool_result-FromSent index tool_id call (answered answer content) = (answer, refl)

  execute_single_tool-FromSent :
      (approval : Option Bool) (step index : ℕ) (call : Text × ToolCall)
      → FromSent (execute_single_tool outside approval step index call)
  unfolding execute_single_tool
  execute_single_tool-FromSent approval step index (tool_id, call) =
      tool_result-FromSent index tool_id call
        (dispatch_tool outside approval step index call sent_memory)

  execute_from-AllFromSent :
      (step index : ℕ) (calls : List (Text × ToolCall))
      → AllFromSent (execute_from outside step index calls)
  unfolding execute_from AllFromSent
  execute_from-AllFromSent step index [] = tt
  execute_from-AllFromSent step index (call ∷ calls) = (
    execute_single_tool-FromSent none step index call,
    execute_from-AllFromSent step (index + 1) calls,
  )

  run_again-FromSent :
      (approved : Bool) (step index : ℕ) (call : Text × ToolCall)
      (run : (Text × Text) ⊎ (AgentMessage × ToolEffect))
      → FromSent run
      → FromSent (run_again outside approved step index call run)
  run_again-FromSent approved step index call (inl approval) h =
      execute_single_tool-FromSent (some approved) step index call
  run_again-FromSent approved step index call (inr result) h = h

  resume_from-AllFromSent :
      (approved : Bool) (step index : ℕ) (calls : List (Text × ToolCall))
      → AllFromSent (resume_from outside approved step index calls)
  unfolding resume_from AllFromSent
  resume_from-AllFromSent approved step index [] = tt
  resume_from-AllFromSent approved step index (call ∷ calls) = (
    run_again-FromSent approved step index call (execute_single_tool outside none step index call)
        (execute_single_tool-FromSent none step index call),
    resume_from-AllFromSent approved step (index + 1) calls,
  )

  finished_runs-AllExecuted :
      (runs : List ((Text × Text) ⊎ (AgentMessage × ToolEffect)))
      → AllFromSent runs
      → AllExecuted (effects_of outside (finished_runs outside runs))
  unfolding AllFromSent
  finished_runs-AllExecuted [] h = tt
  finished_runs-AllExecuted (inl approval ∷ runs) h = finished_runs-AllExecuted runs h.1
  finished_runs-AllExecuted (inr result ∷ runs) h = (h.0, finished_runs-AllExecuted runs h.1)

  module _ (P : Memory → Type 0)
      (traced : (trace : List TraceEntry) (m : Memory) → P m → P (with_trace trace m))
      (merged : (m : Memory) (e : ToolEffect) → Executed e → P m → P (merge_one m e)) where
    merge_all-keeps :
        (m : Memory) (es : List ToolEffect) → AllExecuted es → P m → P (merge_all m es)
    unfolding merge_all
    merge_all-keeps m [] hs p = p
    merge_all-keeps m (e ∷ es) hs p = merge_all-keeps (merge_one m e) es hs.1 (merged m e hs.0 p)

    take_decision-keeps :
        (s : AgentState) (d : Decision) → P s.memory → P (take_decision outside s d).memory
    unfolding take_decision
    take_decision-keeps s no_reply p = p
    take_decision-keeps s (reply content calls) p =
        elim (Bool-cases (occurs_in end_signal content)) [
          | inl signal ↦ rw signal (traced _ s.memory p)
          | inr goes_on ↦ elim (Bool-cases (is_empty calls)) [
            | inl no_calls ↦ rw (goes_on, no_calls) (traced _ s.memory p)
            | inr calls_tools ↦ rw (goes_on, calls_tools) (traced _ s.memory p)
          ]
        ]

    agent_loop-Keeps : (s : AgentState) → P s.memory → P (agent_loop outside s).memory
    unfolding agent_loop
    agent_loop-Keeps s p = elim (Bool-cases (leb max_agent_steps s.agent_step_count)) [
      | inl at_limit ↦ rw at_limit p
      | inr below ↦
          elim (Bool-cases
            (should_end_interview s.memory.turn_count s.max_turns s.memory.category_scores)) [
              | inl over ↦ rw (below, over) p
              | inr goes_on ↦
                  rw (below, goes_on) (take_decision-keeps s (outside.decide s.messages) p)
            ]
    ]

    Keeps : Option AgentState → Type 0
    Keeps none = Unit
    Keeps (some s) = P s.memory

    -- The memory after the results of a step.
    merge_results-keeps :
        (s : AgentState) (runs : List ((Text × Text) ⊎ (AgentMessage × ToolEffect)))
        → AllFromSent runs
        → P s.memory
        → P (merge_results outside s (finished_runs outside runs)).memory
    unfolding merge_results merge_tool_results
    merge_results-keeps s runs sent p =
        merge_all-keeps s.memory
          (sorted index_leb (effects_of outside (finished_runs outside runs)))
          (sorted-AllExecuted (effects_of outside (finished_runs outside runs))
            (finished_runs-AllExecuted runs sent))
          p

    after_tools-Keeps :
        (fuel : ℕ) (decided : AgentState)
        (runs : List ((Text × Text) ⊎ (AgentMessage × ToolEffect))) (asked : List (Text × Text))
        → AllFromSent runs
        → P decided.memory
        → ((t : AgentState) → P t.memory → Keeps (loop outside fuel t))
        → Keeps (after_tools outside (loop outside fuel) decided runs asked)
    unfolding after_tools Keeps
    after_tools-Keeps fuel decided runs [] sent p rest =
        rest (merge_results outside decided (finished_runs outside runs))
          (merge_results-keeps decided runs sent p)
    after_tools-Keeps fuel decided runs (approval ∷ others) sent p rest = p

    follow-Keeps :
        (fuel : ℕ) (decided : AgentState) (r : Route)
        → P decided.memory
        → ((t : AgentState) → P t.memory → Keeps (loop outside fuel t))
        → Keeps (follow outside (loop outside fuel) decided r)
    unfolding follow Keeps finalize
    follow-Keeps fuel decided to_finalize p rest = traced _ decided.memory p
    follow-Keeps fuel decided (to_tools calls) p rest =
        let runs = execute_from outside decided.agent_step_count 0 calls in
        after_tools-Keeps fuel decided runs (interrupts_of outside runs)
          (execute_from-AllFromSent decided.agent_step_count 0 calls) p rest

    loop-Keeps : (fuel : ℕ) (s : AgentState) → P s.memory → Keeps (loop outside fuel s)
    unfolding loop Keeps
    loop-Keeps zero s p = tt
    loop-Keeps (suc fuel) s p =
        let decided = agent_loop outside s in
        follow-Keeps fuel decided (route_agent_output decided) (agent_loop-Keeps s p)
          (λ t q. loop-Keeps fuel t q)

    -- What every effect of a tool and every new trace keep of the memory, a turn keeps.
    pub run_next_turn-keeps :
        (user_answer : Option Text) (s t : AgentState)
        → run_next_turn outside user_answer s ≡ some t
        → P s.memory
        → P t.memory
    unfolding run_next_turn init_context Keeps
    run_next_turn-keeps user_answer s t ran p = subst Keeps ran (
        loop-Keeps (max_agent_steps + 1)
          (init_context outside (with_answer_message outside user_answer s))
          (traced _ _ (same user_answer)))
      where
        same : (a : Option Text) → P (with_answer_message outside a s).memory
        same none = p
        same (some answer) = p

    resume_step-Keeps :
        (approved : Bool) (s : AgentState) (asked : List (Text × Text))
        → P s.memory
        → Keeps (resume_step outside approved s asked)
    unfolding resume_step Keeps
    resume_step-Keeps approved s [] p = tt
    resume_step-Keeps approved s (approval ∷ []) p =
        let runs = resume_from outside approved s.agent_step_count 0 (last_calls s.messages) in
        loop-Keeps (max_agent_steps + 1) (merge_results outside s (finished_runs outside runs)) (
          merge_results-keeps s runs
            (resume_from-AllFromSent approved s.agent_step_count 0 (last_calls s.messages)) p)
    resume_step-Keeps approved s (approval ∷ another ∷ others) p = tt

    -- And so does the rest of a turn, after the answer to an interrupt.
    pub resume_turn-keeps :
        (approved : Bool) (s t : AgentState)
        → resume_turn outside approved s ≡ some t
        → P s.memory
        → P t.memory
    unfolding resume_turn Keeps
    resume_turn-keeps approved s t ran p = subst Keeps ran (resume_step-Keeps approved s _ p)
