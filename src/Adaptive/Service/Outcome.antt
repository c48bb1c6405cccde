-- ===== src/Adaptive/Service/Outcome.antt =====
-- How a turn of the agent ends for the service.
use interview_agent_py.Prelude.{
  ◌≡◌, ◌⊎◌, inl, inr, refl, ap, ◌∙◌, List, [], ◌∷◌, ◌++◌, Option, none, some, true, false, Text,
  Bool-cases,
}
use interview_agent_py.Prelude.Int.{ℤ}
use interview_agent_py.Errors.{ok}
use interview_agent_py.Adaptive.{QaTurn}
use interview_agent_py.Adaptive.Graph.{AgentState, Outside, run_next_turn}
use interview_agent_py.Adaptive.Graph.Total.{Settled, run_next_turn-Settled}
use interview_agent_py.Adaptive.Graph.Blind.{HasTail, run_next_turn-HasTail}
use interview_agent_py.Adaptive.Service.{
  Sessions, AnswerResult, turn_of, get_state, submit_answer, result_of, current_question_of,
  next_question_of, last_turn, answered_turn, with_turn, given_text,
}

abbrev score_in : Option QaTurn → Option ℤ
score_in latest = elim latest [ none ↦ none | some q ↦ q.score ]

abbrev feedback_in : Option QaTurn → Option Text
feedback_in latest = elim latest [ none ↦ none | some q ↦ q.feedback ]

-- Finished, or waiting for an approval: there is no question to answer.
abbrev pub IsOver : AnswerResult → Type 0
IsOver result =
    ((result.finished ≡ true) × (result.pending_approval ≡ none))
    ⊎ ((result.finished ≡ false)
        × ((approval : Text × Text) × (result.pending_approval ≡ some approval)))

module _ (outside : Outside) where
  -- `turn_of` is what the run gives.
  pub turn_of-run :
      (user_answer : Option Text) (s : AgentState)
      → run_next_turn outside user_answer s ≡ some (turn_of outside user_answer s)
  unfolding turn_of
  turn_of-run user_answer s =
      let ends = run_next_turn-Settled outside user_answer s in rw (turn_of, ends.1) refl

  turn_of-Settled :
      (user_answer : Option Text) (s : AgentState) → Settled outside (turn_of outside user_answer s)
  unfolding turn_of
  turn_of-Settled user_answer s =
      let ends = run_next_turn-Settled outside user_answer s in rw (turn_of, ends.1) ends.2

  current_question_of-finished :
      (state : AgentState) → state.finished ≡ true → current_question_of state ≡ none
  unfolding current_question_of
  current_question_of-finished state done =
      elim (Bool-cases (given_text state.memory.current_question)) [
        | inl given ↦ rw (given, done) refl
        | inr missing ↦ rw missing refl
      ]

  next_question_of-Settled :
      (state : AgentState) → Settled outside state → next_question_of state ≡ none
  unfolding next_question_of
  next_question_of-Settled state (inl ended) =
      rw (next_question_of, ended.nothing_asked)
        (current_question_of-finished state ended.is_finished)
  next_question_of-Settled state (inr paused) = rw (next_question_of, paused.asked) refl

  result_of-IsOver :
      (old_difficulty : Text) (state : AgentState)
      → Settled outside state
      → IsOver (result_of old_difficulty state)
  unfolding result_of
  result_of-IsOver old_difficulty state (inl ended) = inl (ended.is_finished, ended.nothing_asked)
  result_of-IsOver old_difficulty state (inr paused) =
      inr (paused.is_open, (paused.approval, paused.asked))

  last_turn-snoc :
      (first : QaTurn) (qs : List QaTurn) (q : QaTurn) → last_turn (first ∷ qs ++ q ∷ []) ≡ some q
  unfolding last_turn
  last_turn-snoc first [] q = refl
  last_turn-snoc first (r ∷ qs) q = last_turn-snoc r qs q

  -- Of the state that a turn ends in, whose last record is the one of the answer.
  result_of-unscored :
      (old_difficulty : Text) (state : AgentState) (turn : QaTurn)
      → last_turn state.memory.qa_history ≡ some turn
      → turn.score ≡ none
      → turn.feedback ≡ none
      → ((result_of old_difficulty state).score ≡ none)
        × ((result_of old_difficulty state).feedback ≡ none)
  unfolding result_of
  result_of-unscored old_difficulty state turn latest unscored silent =
      (ap score_in latest ∙ unscored, ap feedback_in latest ∙ silent)

  -- In a session that is not finished and has answered turns, the first with index 0, an answer gets
  -- neither a score nor feedback nor a next question: the session is finished with nothing to approve, or
  -- it is not and waits for an approval.
  pub submit_answer-unscored :
      (session_id answer : Text) (state : AgentState) (s : Sessions) (tail : List QaTurn)
      → (get_state session_id s).0 ≡ ok state
      → state.finished ≡ false
      → HasTail tail state.memory.qa_history
      → (result : AnswerResult) × ((submit_answer outside session_id answer s).0 ≡ ok result)
        × (result.score ≡ none)
        × (result.feedback ≡ none)
        × (result.next_question ≡ none)
        × IsOver result
  unfolding submit_answer result_of
  submit_answer-unscored session_id answer state s tail found live (first, e, at_zero) =
      let turn = answered_turn answer state.memory in
      let begun = with_turn turn state in
      let ended = turn_of outside (some answer) begun in
      let kept =
        run_next_turn-HasTail outside (tail ++ turn ∷ []) (some answer) begun ended
          (turn_of-run (some answer) begun) (first, ap (λ qs. qs ++ turn ∷ []) e, at_zero) in
      let latest : last_turn ended.memory.qa_history ≡ some turn =
        ap last_turn kept.1 ∙ last_turn-snoc kept.0 tail turn in
      let settled = turn_of-Settled (some answer) begun in
      let silent = result_of-unscored state.memory.difficulty ended turn latest refl refl in
      (
        result_of state.memory.difficulty ended,
        rw (submit_answer, found, live) refl,
        silent.0,
        silent.1,
        next_question_of-Settled ended settled,
        result_of-IsOver state.memory.difficulty ended settled,
      )
