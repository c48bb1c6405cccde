-- ===== src/Adaptive/Graph/Resume.antt =====
-- `resume_turn`: the answer to an interrupt. Of the step that was interrupted the results of the other
-- tools were saved, and only the interrupted ones run again. LangGraph refuses one answer to several
-- interrupts, which is `none` here.
use interview_agent_py.Prelude.{
  ℕ, ◌+◌, ◌⊎◌, inl, inr, List, [], ◌∷◌, Option, none, some, Bool, Text,
}
use interview_agent_py.Adaptive.{ToolEffect}
use interview_agent_py.Adaptive.Graph.{
  ToolCall, AgentMessage, AgentState, Outside, max_agent_steps, last_calls, execute_single_tool,
  execute_from, interrupts_of, finished_runs, merge_results, loop,
}

module _ (outside : Outside) where
  -- A result that was saved, or the run with the answer.
  abbrev pub run_again :
      Bool
      → ℕ
      → ℕ
      → Text × ToolCall
      → (Text × Text) ⊎ (AgentMessage × ToolEffect)
      → (Text × Text) ⊎ (AgentMessage × ToolEffect)
  run_again approved step index call (inl approval) =
      execute_single_tool outside (some approved) step index call
  run_again approved step index call (inr result) = inr result

  unfoldable pub resume_from :
      Bool → ℕ → ℕ → List (Text × ToolCall) → List ((Text × Text) ⊎ (AgentMessage × ToolEffect))
  unfolding execute_single_tool
  resume_from approved step index [] = []
  resume_from approved step index (call ∷ calls) =
      run_again approved step index call (execute_single_tool outside none step index call)
      ∷ resume_from approved step (index + 1) calls

  -- With the interrupts of the step.
  unfoldable pub resume_step : Bool → AgentState → List (Text × Text) → Option AgentState
  unfolding resume_from merge_results loop
  resume_step approved s [] = none
  resume_step approved s (approval ∷ []) = loop outside (max_agent_steps + 1) (
      merge_results outside s
        (finished_runs outside (resume_from approved s.agent_step_count 0 (last_calls s.messages))))
  resume_step approved s (approval ∷ another ∷ others) = none

  unfoldable pub resume_turn : Bool → AgentState → Option AgentState
  unfolding resume_step execute_from
  resume_turn approved s =
      resume_step approved s
        (interrupts_of outside (execute_from outside s.agent_step_count 0 (last_calls s.messages)))
