-- ===== src/Adaptive/Service.antt =====
-- application/agent/adaptive_service.py: the sessions of the agent. With a checkpointer LangGraph keeps
-- the state of each session; without one it is kept in memory, for the sessions used last.
pub mod Outcome
pub mod Kept
use interview_agent_py.Prelude.{
  ℕ, ◌+◌, List, [], ◌∷◌, ◌++◌, Option, none, some, Bool, true, false, not, ◌&&◌, if◌then◌else◌, ltb,
  ◌=?◌, length, Text, codes, is_empty, nat_eq, list_eq,
}
use interview_agent_py.Prelude.Int.{ℤ}
use interview_agent_py.Prelude.Dict.{Dict, get, put, remove}
use interview_agent_py.Errors.{
  Result, ok, raise, bad_request, internal_error, interview_session_not_found,
  interview_already_completed,
}
use interview_agent_py.Adaptive.{QaTurn, Memory}
use interview_agent_py.Adaptive.Tools.{category_or_general}
use interview_agent_py.Adaptive.Graph.Resume.{resume_turn}
use interview_agent_py.Adaptive.Graph.{Report, AgentState, Outside, run_next_turn, report_of}

pub record AdaptiveQuestion : Type 0 where
  pub question : Text
  pub category : Text
  pub difficulty : Text
  pub question_index : ℕ

pub record AnswerResult : Type 0 where
  pub score : Option ℤ
  pub feedback : Option Text
  pub next_question : Option AdaptiveQuestion
  pub finished : Bool
  pub difficulty_changed : Bool
  pub new_difficulty : Option Text
  pub pending_approval : Option (Text × Text)

pub record CreateRequest : Type 0 where
  pub skill_id : Text
  pub difficulty : Text
  pub max_turns : ℕ

-- The states, in the checkpointer if there is one, and in the memory cache, the oldest first.
pub record Sessions : Type 0 where
  pub has_checkpointer : Bool
  pub checkpoints : Dict Text AgentState
  pub memory_cache : Dict Text AgentState

abbrev pub memory_cache_maxsize : ℕ
memory_cache_maxsize = 500

-- `d[key] = value; d.move_to_end(key)`
unfoldable pub put_last {ℓ} : {V : Type ℓ} → Dict Text V → Text → V → Dict Text V
put_last d k v = remove d k ++ (k, v) ∷ []

-- `d.popitem(last=False)`
abbrev pub without_first {ℓ} : {V : Type ℓ} → Dict Text V → Dict Text V
without_first [] = []
without_first (item ∷ d) = d

unfoldable pub cache_state : Text → AgentState → Sessions → Sessions
unfolding put_last
cache_state session_id state s =
    let cached = put_last s.memory_cache session_id state in
    if s.has_checkpointer then s else record s {
      memory_cache =
          if ltb memory_cache_maxsize (length cached) then without_first cached else cached;
    }

unfoldable pub get_state : Text → Sessions → Result AgentState × Sessions
unfolding put_last
get_state session_id s =
    if s.has_checkpointer
    then elim (get s.checkpoints session_id) [
      | none ↦ (raise interview_session_not_found, s)
      | some state ↦ (ok state, s)
    ]
    else elim (get s.memory_cache session_id) [
      | none ↦ (raise interview_session_not_found, s)
      | some state ↦
          (ok state, record s { memory_cache = put_last s.memory_cache session_id state })
    ]

-- What the checkpointer does at the end of a run.
unfoldable pub save_checkpoint : Text → AgentState → Sessions → Sessions
save_checkpoint session_id state s =
    if s.has_checkpointer then record s { checkpoints = put s.checkpoints session_id state } else s

abbrev pub new_state : Text → CreateRequest → AgentState
new_state session_id request = record {
  session_id = session_id;
  skill_id = request.skill_id;
  max_turns = request.max_turns;
  memory = record {
    difficulty = request.difficulty;
    qa_history = [];
    category_scores = [];
    turn_count = 0;
    current_question = none;
    current_category = none;
    decision_trace = [];
  };
  messages = [];
  agent_step_count = 0;
  finished = false;
  final_report = none;
  pending_approval = none;
}

abbrev pub text_or_empty : Option Text → Text
text_or_empty none = []
text_or_empty (some t) = t

abbrev pub given_text : Option Text → Bool
given_text t = not (is_empty (text_or_empty t))

-- The question of a session that is not finished.
unfoldable pub current_question_of : AgentState → Option AdaptiveQuestion
current_question_of state =
    if given_text state.memory.current_question && not state.finished
    then some (record {
      question = text_or_empty state.memory.current_question;
      category = category_or_general state.memory.current_category;
      difficulty = state.memory.difficulty;
      question_index = state.memory.turn_count;
    })
    else none

-- The record of an answer, before it is evaluated.
abbrev pub answered_turn : Text → Memory → QaTurn
answered_turn answer m = record {
  question_index = m.turn_count;
  question = text_or_empty m.current_question;
  category = category_or_general m.current_category;
  difficulty = m.difficulty;
  answer = some answer;
  score = none;
  feedback = none;
}

abbrev pub with_turn : QaTurn → AgentState → AgentState
with_turn turn state = record state {
  memory = record state.memory { qa_history = state.memory.qa_history ++ turn ∷ [] };
}

-- `latest_qa[-1]`
unfoldable pub last_turn : List QaTurn → Option QaTurn
last_turn [] = none
last_turn (q ∷ []) = some q
last_turn (q ∷ r ∷ qs) = last_turn (r ∷ qs)

-- The next question of an answer, which is not shown while an approval is pending.
unfoldable pub next_question_of : AgentState → Option AdaptiveQuestion
unfolding current_question_of
next_question_of state = elim state.pending_approval [
  | none ↦ current_question_of state
  | some approval ↦ none
]

unfoldable pub result_of : Text → AgentState → AnswerResult
unfolding last_turn next_question_of
result_of old_difficulty state =
    let latest = last_turn state.memory.qa_history in
    let changed = not (state.memory.difficulty =? old_difficulty) in
    record {
      score = elim latest [ none ↦ none | some q ↦ q.score ];
      feedback = elim latest [ none ↦ none | some q ↦ q.feedback ];
      next_question = next_question_of state;
      finished = state.finished;
      difficulty_changed = changed;
      new_difficulty = if changed then some state.memory.difficulty else none;
      pending_approval = state.pending_approval;
    }

module _ (outside : Outside) where
  -- A run of the graph; it always gives a state.
  unfoldable pub turn_of : Option Text → AgentState → AgentState
  turn_of user_answer state = elim (run_next_turn outside user_answer state) [
    | none ↦ state
    | some state' ↦ state'
  ]

  -- The new session, with its question and the one to approve.
  unfoldable pub create_session :
      Text → CreateRequest → Sessions → (Option AdaptiveQuestion × Option (Text × Text)) × Sessions
  unfolding turn_of cache_state save_checkpoint current_question_of
  create_session session_id request s =
      let state = turn_of none (new_state session_id request) in
      (
        (current_question_of state, state.pending_approval),
        cache_state session_id state (save_checkpoint session_id state s),
      )

  unfoldable pub submit_answer : Text → Text → Sessions → Result AnswerResult × Sessions
  unfolding get_state turn_of cache_state save_checkpoint result_of
  submit_answer session_id answer s = elim (get_state session_id s).0 [
    | raise e ↦ (raise e, (get_state session_id s).1)
    | ok state ↦
        let s' = (get_state session_id s).1 in
        let state' = turn_of (some answer) (with_turn (answered_turn answer state.memory) state) in
        if state.finished then (raise interview_already_completed, s') else (
          ok (result_of state.memory.difficulty state'),
          cache_state session_id state' (save_checkpoint session_id state' s'),
        )
  ]

  -- A resume without a checkpointer, or of several interrupts, is an error of LangGraph.
  abbrev resumed_by : Text → Bool → AgentState → Sessions → Result AnswerResult × Sessions
  resumed_by session_id approved state s =
      if not s.has_checkpointer
      then (raise internal_error, s)
      else elim (resume_turn outside approved state) [
        | none ↦ (raise internal_error, s)
        | some state' ↦ (
          ok (result_of state.memory.difficulty state'),
          cache_state session_id state' (save_checkpoint session_id state' s),
        )
      ]

  unfoldable pub resume_session : Text → Bool → Sessions → Result AnswerResult × Sessions
  unfolding get_state resume_turn cache_state save_checkpoint result_of
  resume_session session_id approved s = elim (get_state session_id s).0 [
    | raise e ↦ (raise e, (get_state session_id s).1)
    | ok state ↦
        let s' = (get_state session_id s).1 in
        if state.finished
        then (raise interview_already_completed, s')
        else elim state.pending_approval [
          | none ↦ (raise bad_request, s')
          | some approval ↦ resumed_by session_id approved state s'
        ]
  ]

  unfoldable pub get_report : Text → Sessions → Result Report × Sessions
  unfolding get_state
  get_report session_id s = elim (get_state session_id s).0 [
    | raise e ↦ (raise e, (get_state session_id s).1)
    | ok state ↦ (
      elim state.final_report [
        | some report ↦ ok report
        | none ↦ ok (report_of (record state { session_id = session_id }))
      ],
      (get_state session_id s).1,
    )
  ]
