-- ===== src/Adaptive/Examples.antt =====
-- An agent that evaluates an answer and asks the next question in one step.
use mathlib.Core.List.{Permᴰ}
use interview_agent_py.Prelude.{
  ℕ, ◌≡◌, refl, List, [], ◌∷◌, none, some, true, not, Text, codes, contains, nat_eq, list_eq,
  list_beq, inr,
}
use interview_agent_py.Prelude.Int.{ℤ, pos}
use interview_agent_py.Prelude.Dict.{Dict, get}
use interview_agent_py.Errors.{ok}
use interview_agent_py.Adaptive.Graph.{
  Outside, AgentState, no_reply, reply, call_generate_question, call_evaluate_answer,
  call_adjust_strategy, run_next_turn, init_context, without_system, loop, agent_loop,
  take_decision, route_agent_output, last_calls, follow, after_tools, execute_from,
  execute_single_tool, dispatch_tool, ask_question, tool_result,
}
use interview_agent_py.Adaptive.Graph.Blind.{IsTallied, run_next_turn-IsTallied}
use interview_agent_py.Adaptive.Service.{
  Sessions, CreateRequest, AnswerResult, new_state, turn_of, get_state, submit_answer,
}
use interview_agent_py.Adaptive.Service.Outcome.{IsOver, turn_of-run, submit_answer-unscored}
use interview_agent_py.Adaptive.{Memory, ToolEffect}
use interview_agent_py.Adaptive.Tools.{
  ToolAnswer, generate_question, evaluate_answer, apply_tool_side_effects, merge_tool_results,
}
use interview_agent_py.Adaptive.Order.{merge_tool_results-Permᴰ}
use interview_agent_py.Retrieval.{occurs_in}
use interview_agent_py.Adaptive.Strategy.{
  should_end_interview, general, below, at_most, global_average, safe_difficulty,
  compute_strategy_update,
}
use interview_agent_py.Adaptive.Update.{OneLevel, IsPicked, compute_strategy_update-OneLevel}

abbrev memory : Memory
memory = record {
  difficulty = codes "mid";
  qa_history =
      record {
        question_index = 0;
        question = codes "q";
        category = codes "java";
        difficulty = codes "mid";
        answer = some (codes "a");
        score = none;
        feedback = none;
      }
      ∷ [];
  category_scores = [];
  turn_count = 0;
  current_question = some (codes "q");
  current_category = some (codes "java");
  decision_trace = [];
}

abbrev effect : ℕ → ToolAnswer → ToolEffect
effect index answer = record {
  tool_call_index = index;
  side_effect = apply_tool_side_effects answer memory;
  trace_entry = record { step = 1; action = codes "tool"; result = [] };
}

abbrev evaluated : ToolEffect
evaluated = effect 0 (evaluate_answer (some (pos 8, codes "good")))

abbrev asked : ToolEffect
asked = effect 1 (generate_question (some (codes "next", codes "sql")))

merge_tool_results-Permᴰ_example :
    merge_tool_results memory (asked ∷ evaluated ∷ [])
    ≡ merge_tool_results memory (evaluated ∷ asked ∷ [])
unfolding contains
merge_tool_results-Permᴰ_example =
    merge_tool_results-Permᴰ memory (Permᴰ.swap refl refl) (refl, (refl, tt))

abbrev scores : Dict Text (List ℤ)
scores = (codes "java", pos 8 ∷ pos 9 ∷ []) ∷ (codes "sql", pos 3 ∷ []) ∷ []

compute_strategy_update-OneLevel_example :
    OneLevel
      (not (below 7 (global_average scores)))
      (at_most 4 (global_average scores))
      (safe_difficulty (codes "mid"))
      (compute_strategy_update scores (codes "mid") 3 10).suggested_difficulty
    × IsPicked (compute_strategy_update scores (codes "mid") 3 10).suggested_category scores 3 10
compute_strategy_update-OneLevel_example =
    compute_strategy_update-OneLevel scores (codes "mid") 3 10 refl

-- A model that asks a question, evaluates an answer twice in one step, and then stops.
abbrev outside : Outside
outside = record {
  system_content = λ s. codes "system";
  decide = λ messages. elim messages [
    | [] ↦ no_reply
    | system ∷ rest ↦ elim rest [
      | [] ↦ reply [] ((codes "1", call_generate_question none none none) ∷ [])
      | m ∷ more ↦ elim more [
        | [] ↦ reply [] (
            (codes "2", call_evaluate_answer none none none)
            ∷ (codes "3", call_adjust_strategy)
            ∷ [])
        | n ∷ others ↦ reply (codes "END_INTERVIEW") []
      ]
    ]
  ];
  generate = λ step index attempt category difficulty context. some (codes "Q", codes "java");
  evaluate = λ question answer category. some (pos 7, codes "good");
  lookup = λ skill category. [];
  rag_search = λ question kb_ids. [];
  dumps = λ answer. codes "json";
}

abbrev agent_request : CreateRequest
agent_request = record { skill_id = codes "java"; difficulty = codes "senior"; max_turns = 6 }

abbrev no_agents : Sessions
no_agents = record { has_checkpointer = true; checkpoints = []; memory_cache = [] }

-- A session whose first answer was evaluated, and that waits for the next.
abbrev waiting : AgentState
waiting = record (new_state (codes "s") agent_request) {
  memory = record memory { turn_count = 1; category_scores = (general, pos 7 ∷ []) ∷ [] };
}

abbrev one_agent : Sessions
one_agent = record {
  has_checkpointer = true;
  checkpoints = (codes "s", waiting) ∷ [];
  memory_cache = [];
}

-- That turn waits for the approval of its question.
waits_for_approval :
    (turn_of outside none (new_state (codes "s") agent_request)).pending_approval
    ≡ some (codes "Q", codes "java")
unfolding turn_of run_next_turn init_context without_system loop agent_loop should_end_interview
    take_decision occurs_in route_agent_output last_calls follow after_tools execute_from
    execute_single_tool dispatch_tool ask_question tool_result
waits_for_approval = refl

-- The answer was evaluated by the model, and adjust_strategy set the difficulty back to mid.
run_next_turn-IsTallied_example : IsTallied (turn_of outside (some (codes "a")) waiting).memory
run_next_turn-IsTallied_example =
    run_next_turn-IsTallied outside (some (codes "a")) waiting
      (turn_of outside (some (codes "a")) waiting) (turn_of-run outside (some (codes "a")) waiting)
      (inr (pos 7 ∷ [], refl, refl))

submit_answer-unscored_example :
    (result : AnswerResult) × ((submit_answer outside (codes "s") (codes "a") one_agent).0
      ≡ ok result)
    × (result.score ≡ none)
    × (result.feedback ≡ none)
    × (result.next_question ≡ none)
    × IsOver result
unfolding get_state get list_beq
submit_answer-unscored_example =
    submit_answer-unscored outside (codes "s") (codes "a") waiting one_agent [] refl refl
      (_, refl, refl)
