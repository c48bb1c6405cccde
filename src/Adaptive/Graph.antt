-- ===== src/Adaptive/Graph.antt =====
-- graphs/adaptive_interview.py: the graph of the agent. The model's replies, what the tools return
-- and the text of the system prompt are parameters. LangGraph gives a node that is started by `Send` the
-- sent values as its state, and nothing else; an interrupt ends the run before the step is merged, with
-- the results of the other nodes of the step saved, and after the answer the node runs again.
pub mod Resume
pub mod Total
pub mod Carried
pub mod Blind
use interview_agent_py.Prelude.{
  ℕ, zero, suc, ◌+◌, max, List, [], ◌∷◌, ◌++◌, map, Option, none, some, Bool, true, false, ◌⊎◌, inl,
  inr, if◌then◌else◌, leb, length, take, Text, codes, is_empty,
}
use interview_agent_py.Prelude.Int.{ℤ, pos}
use interview_agent_py.Prelude.Dict.{Dict}
use interview_agent_py.Retrieval.{occurs_in}
use interview_agent_py.Evaluation.Report.{average}
use interview_agent_py.Adaptive.{QaTurn, Memory, TraceEntry, ToolEffect}
use interview_agent_py.Adaptive.Tools.{
  ToolAnswer, generate_question, evaluate_answer, adjust_strategy, other_tool, no_effect,
  apply_tool_side_effects, merge_tool_results,
}
use interview_agent_py.Adaptive.Strategy.{
  general, mid, compute_strategy_update, should_end_interview,
}

-- A call of a tool, with the arguments that the code reads.
pub data ToolCall : Type 0 where
  call_generate_question : Option Text → Option Text → Option Text → ToolCall
  call_evaluate_answer : Option Text → Option Text → Option Text → ToolCall
  call_lookup_reference : Option Text → Option Text → ToolCall
  call_adjust_strategy : ToolCall
  call_agentic_rag_search : Option Text → List ℕ → ToolCall
  call_unknown : Text → ToolCall

-- A reply of the model has calls with their ids.
pub data AgentMessage : Type 0 where
  system_message : Text → AgentMessage
  human_message : Text → AgentMessage
  ai_message : Text → List (Text × ToolCall) → AgentMessage
  tool_message : Text → Text → AgentMessage

-- What a call of the model gives: an error or timeout, or a reply.
pub data Decision : Type 0 where
  no_reply : Decision
  reply : Text → List (Text × ToolCall) → Decision

pub record Report : Type 0 where
  pub session_id : Text
  pub total_questions : ℕ
  pub overall_score : ℤ
  pub category_scores : Dict Text ℤ
  pub questions : List QaTurn
  pub difficulty_progression : Text

pub record AgentState : Type 0 where
  pub session_id : Text
  pub skill_id : Text
  pub max_turns : ℕ
  pub memory : Memory
  pub messages : List AgentMessage
  pub agent_step_count : ℕ
  pub finished : Bool
  pub final_report : Option Report
  pub pending_approval : Option (Text × Text)

-- The outside: an answer of `none` is an exception. A question is generated for a step, a call and an
-- attempt, since the node of a question may run again.
pub record Outside : Type 0 where
  pub system_content : AgentState → Text
  pub decide : List AgentMessage → Decision
  pub generate : ℕ → ℕ → ℕ → Text → Text → Text → Option (Text × Text)
  pub evaluate : Text → Text → Text → Option (ℤ × Text)
  pub lookup : Text → Text → Text
  pub rag_search : Text → List ℕ → Text
  pub dumps : ToolAnswer → Text

abbrev pub max_agent_steps : ℕ
max_agent_steps = 30

abbrev pub end_signal : Text
end_signal = codes "END_INTERVIEW"

abbrev pub value_or : Option Text → Text → Text
value_or none d = d
value_or (some t) d = t

abbrev pub trace_of : ℕ → Text → Text → TraceEntry
trace_of step action result = record { step = step; action = action; result = result }

abbrev pub with_trace : List TraceEntry → Memory → Memory
with_trace trace m = record m { decision_trace = trace }

-- `state.get("skill_id", "java-backend")` where the state has none.
abbrev pub default_skill_id : Text
default_skill_id = codes "java-backend"

-- What `state.get` gives in a node that was sent a tool call: the memory is not there. An empty text
-- stands for the missing difficulty.
abbrev pub sent_memory : Memory
sent_memory = record {
  difficulty = [];
  qa_history = [];
  category_scores = [];
  turn_count = 0;
  current_question = none;
  current_category = none;
  decision_trace = [];
}

abbrev pub is_system : AgentMessage → Bool
is_system (system_message text) = true
is_system m = false

unfoldable pub without_system : List AgentMessage → List AgentMessage
without_system [] = []
without_system (m ∷ messages) =
    if is_system m then without_system messages else m ∷ without_system messages

-- The calls of the last message, if it is a reply.
unfoldable pub last_calls : List AgentMessage → List (Text × ToolCall)
last_calls [] = []
last_calls (ai_message content calls ∷ []) = calls
last_calls (m ∷ []) = []
last_calls (m ∷ n ∷ messages) = last_calls (n ∷ messages)

-- `max((e.get("step", 0) for e in trace), default=0)`
unfoldable pub last_step : List TraceEntry → ℕ
last_step [] = 0
last_step (entry ∷ trace) = max entry.step (last_step trace)

-- `[q["score"] for q in qa_history if q.get("score") is not None]`
unfoldable pub scores_of : List QaTurn → List ℤ
scores_of [] = []
scores_of (q ∷ qs) = elim q.score [ none ↦ scores_of qs | some score ↦ score ∷ scores_of qs ]

unfoldable pub report_averages : Dict Text (List ℤ) → Dict Text ℤ
report_averages [] = []
report_averages ((category, scores) ∷ rest) =
    if is_empty scores
    then report_averages rest
    else (category, average scores) ∷ report_averages rest

unfoldable pub report_of : AgentState → Report
unfolding scores_of report_averages
report_of s =
    let all_scores = scores_of s.memory.qa_history in
    record {
      session_id = s.session_id;
      total_questions = length s.memory.qa_history;
      overall_score = if is_empty all_scores then pos 0 else average all_scores;
      category_scores = report_averages s.memory.category_scores;
      questions = s.memory.qa_history;
      difficulty_progression = s.memory.difficulty;
    }

unfoldable pub finalize : AgentState → AgentState
unfolding report_of last_step
finalize s = record s {
  final_report = some (report_of s);
  finished = true;
  memory =
      with_trace
        (s.memory.decision_trace
          ++ trace_of (last_step s.memory.decision_trace + 1) (codes "finalize") [] ∷ [])
        s.memory;
}

pub data Route : Type 0 where
  to_finalize : Route
  to_tools : List (Text × ToolCall) → Route

unfoldable pub route_agent_output : AgentState → Route
unfolding last_calls
route_agent_output s =
    let calls = last_calls s.messages in
    if s.finished then to_finalize else if is_empty calls then to_finalize else to_tools calls

abbrev pub rejected_context : Text
rejected_context = codes "\n注意：上一题被驳回，请换一个角度出题。"

-- How a tool ends: by an exception, by `interrupt` with a question and its category, or by an answer
-- with its text.
pub data ToolRun : Type 0 where
  tool_failed : ToolRun
  interrupted : Text → Text → ToolRun
  answered : ToolAnswer → Text → ToolRun

module _ (outside : Outside) where
  abbrev pub asked_question : Option (Text × Text) → ToolRun
  asked_question none = tool_failed
  asked_question (some question) =
      answered (generate_question (some question))
        (outside.dumps (generate_question (some question)))

  -- `generate_question` of `_dispatch_tool`, first without an answer to the interrupt, and with it.
  unfoldable pub ask_question : Option Bool → ℕ → ℕ → Text → Text → Text → ToolRun
  ask_question none step index category difficulty context =
      elim (outside.generate step index 0 category difficulty context) [
        | none ↦ tool_failed
        | some question ↦ interrupted question.0 question.1
      ]
  ask_question (some approved) step index category difficulty context =
      elim (outside.generate step index 1 category difficulty context) [
        | none ↦ tool_failed
        | some question ↦
            if approved
            then asked_question (some question)
            else asked_question
                (outside.generate step index 2 category difficulty (context ++ rejected_context))
      ]

  -- With the answer to the interrupt, if it was given.
  unfoldable pub dispatch_tool : Option Bool → ℕ → ℕ → ToolCall → Memory → ToolRun
  unfolding ask_question
  dispatch_tool approval step index (call_generate_question category difficulty context) m =
      ask_question approval step index (value_or category general)
        (value_or difficulty (if is_empty m.difficulty then mid else m.difficulty))
        (value_or context [])
  dispatch_tool approval step index (call_evaluate_answer question answer category) m =
      elim (outside.evaluate (value_or question []) (value_or answer [])
        (value_or category general)) [
          | none ↦ tool_failed
          | some result ↦
              answered (evaluate_answer (some result))
                (outside.dumps (evaluate_answer (some result)))
        ]
  dispatch_tool approval step index (call_lookup_reference skill category) m =
      answered other_tool (outside.lookup (value_or skill default_skill_id) (value_or category []))
  dispatch_tool approval step index call_adjust_strategy m =
      let update =
        compute_strategy_update m.category_scores
          (if is_empty m.difficulty then mid else m.difficulty) m.turn_count 6 in
      let answer = adjust_strategy (some (some update.suggested_difficulty)) in
      answered answer (outside.dumps answer)
  dispatch_tool approval step index (call_agentic_rag_search question kb_ids) m =
      answered other_tool (outside.rag_search (value_or question []) kb_ids)
  dispatch_tool approval step index (call_unknown name) m =
      answered other_tool (codes "未知工具: " ++ name)

  abbrev pub tool_name : ToolCall → Text
  tool_name (call_generate_question category difficulty context) = codes "generate_question"
  tool_name (call_evaluate_answer question answer category) = codes "evaluate_answer"
  tool_name (call_lookup_reference skill category) = codes "lookup_reference"
  tool_name call_adjust_strategy = codes "adjust_strategy"
  tool_name (call_agentic_rag_search question kb_ids) = codes "agentic_rag_search"
  tool_name (call_unknown name) = name

  -- The interrupt, which is passed on, or the message and the effect of a call; the trace has the
  -- step 0, since the sent state has no step.
  unfoldable pub tool_result :
      ℕ → Text → ToolCall → ToolRun → (Text × Text) ⊎ (AgentMessage × ToolEffect)
  tool_result index tool_id call (interrupted question category) = inl (question, category)
  tool_result index tool_id call tool_failed = inr (
    tool_message (codes "工具执行失败: ") tool_id,
    record {
      tool_call_index = index;
      side_effect = no_effect;
      trace_entry = trace_of 0 (tool_name call) (codes "error: ");
    },
  )
  tool_result index tool_id call (answered answer content) = inr (
    tool_message content tool_id,
    record {
      tool_call_index = index;
      side_effect = apply_tool_side_effects answer sent_memory;
      trace_entry = trace_of 0 (tool_name call) (take 200 content);
    },
  )

  unfoldable pub execute_single_tool :
      Option Bool → ℕ → ℕ → Text × ToolCall → (Text × Text) ⊎ (AgentMessage × ToolEffect)
  unfolding dispatch_tool tool_result
  execute_single_tool approval step index (tool_id, call) =
      tool_result index tool_id call (dispatch_tool approval step index call sent_memory)

  -- The calls that are sent, from the place `index` on; their results come in this order.
  unfoldable pub execute_from :
      ℕ → ℕ → List (Text × ToolCall) → List ((Text × Text) ⊎ (AgentMessage × ToolEffect))
  unfolding execute_single_tool
  execute_from step index [] = []
  execute_from step index (call ∷ calls) =
      execute_single_tool none step index call ∷ execute_from step (index + 1) calls

  abbrev pub interrupts_of : List ((Text × Text) ⊎ (AgentMessage × ToolEffect)) → List (Text × Text)
  interrupts_of [] = []
  interrupts_of (inl approval ∷ runs) = approval ∷ interrupts_of runs
  interrupts_of (inr result ∷ runs) = interrupts_of runs

  abbrev pub finished_runs :
      List ((Text × Text) ⊎ (AgentMessage × ToolEffect)) → List (AgentMessage × ToolEffect)
  finished_runs [] = []
  finished_runs (inl approval ∷ runs) = finished_runs runs
  finished_runs (inr result ∷ runs) = result ∷ finished_runs runs

  abbrev pub messages_of : List (AgentMessage × ToolEffect) → List AgentMessage
  messages_of [] = []
  messages_of ((m, effect) ∷ results) = m ∷ messages_of results

  abbrev pub effects_of : List (AgentMessage × ToolEffect) → List ToolEffect
  effects_of [] = []
  effects_of ((m, effect) ∷ results) = effect ∷ effects_of results

  -- `_merge_tool_results` on the whole state.
  unfoldable pub merge_results : AgentState → List (AgentMessage × ToolEffect) → AgentState
  merge_results s results = record s {
    messages = s.messages ++ messages_of results;
    memory = merge_tool_results s.memory (effects_of results);
  }

  unfoldable pub init_context : AgentState → AgentState
  unfolding without_system
  init_context s = record s {
    messages = system_message (outside.system_content s) ∷ without_system s.messages;
    agent_step_count = 0;
    finished = false;
    memory = with_trace (trace_of 0 (codes "init_context") [] ∷ []) s.memory;
  }

  -- After the reply of the model.
  unfoldable pub take_decision : AgentState → Decision → AgentState
  take_decision s no_reply = record s { finished = true }
  take_decision s (reply content calls) =
      let messages' = s.messages ++ ai_message content calls ∷ [] in
      let traced = λ (result : Text).
        with_trace
          (s.memory.decision_trace
            ++ trace_of (s.agent_step_count + 1) (codes "agent_loop") result ∷ [])
          s.memory in
      if occurs_in end_signal content
      then record s { messages = messages'; finished = true; memory = traced end_signal }
      else if is_empty calls
      then record s {
        messages = messages';
        finished = true;
        memory = traced (codes "no_tool_calls");
      }
      else record s {
        messages = messages';
        agent_step_count = s.agent_step_count + 1;
        memory = traced [];
      }

  unfoldable pub agent_loop : AgentState → AgentState
  unfolding take_decision
  agent_loop s =
      if leb max_agent_steps s.agent_step_count
      then record s { finished = true }
      else if should_end_interview s.memory.turn_count s.max_turns s.memory.category_scores
      then record s { finished = true }
      else take_decision s (outside.decide s.messages)

  -- `_apply_interrupt_if_any`
  abbrev pub with_approval : Option (Text × Text) → AgentState → AgentState
  with_approval approval s = record s { pending_approval = approval }

  -- The results are merged, unless a tool was interrupted.
  unfoldable pub after_tools :
      (AgentState → Option AgentState)
      → AgentState
      → List ((Text × Text) ⊎ (AgentMessage × ToolEffect))
      → List (Text × Text)
      → Option AgentState
  unfolding merge_results
  after_tools again decided runs [] = again (merge_results decided (finished_runs runs))
  after_tools again decided runs (approval ∷ others) = some (with_approval (some approval) decided)

  -- Along a route, with what runs after the tools.
  unfoldable pub follow : (AgentState → Option AgentState) → AgentState → Route → Option AgentState
  unfolding execute_from after_tools finalize
  follow again decided to_finalize = some (with_approval none (finalize decided))
  follow again decided (to_tools calls) =
      let runs = execute_from decided.agent_step_count 0 calls in
      after_tools again decided runs (interrupts_of runs)

  -- From `agent_loop` on, on fuel.
  unfoldable pub loop : ℕ → AgentState → Option AgentState
  unfolding agent_loop follow
  loop zero s = none
  loop (suc fuel) s =
      let decided = agent_loop s in follow (loop fuel) decided (route_agent_output decided)

  abbrev pub answer_message : Text → AgentMessage
  answer_message answer =
      human_message (codes "候选人回答了：\n" ++ (answer ++ codes "\n\n请先评估这个回答，然后决定下一步。"))

  abbrev pub with_answer_message : Option Text → AgentState → AgentState
  with_answer_message none s = s
  with_answer_message (some answer) s = record s {
    messages = s.messages ++ answer_message answer ∷ [];
  }

  -- A turn: the loop runs at most once for each step and once more to end.
  unfoldable pub run_next_turn : Option Text → AgentState → Option AgentState
  unfolding loop init_context
  run_next_turn user_answer s =
      loop (max_agent_steps + 1) (init_context (with_answer_message user_answer s))
