-- ===== src/Session/Examples.antt =====
-- A session of two questions that is in the table and not in the cache.
use interview_agent_py.Prelude.{
  ℕ, ◌≡◌, refl, [], ◌∷◌, none, some, true, false, codes, arith, list_eq, nat_eq, length, get_elem?,
  list_beq,
}
use interview_agent_py.Prelude.Dict.{get}
use interview_agent_py.Errors.{ok}
use interview_agent_py.Interview.{SessionStatus, created, completed, InterviewQuestion}
use interview_agent_py.Interview.State.{is_unfinished}
use interview_agent_py.Session.{InterviewSession, World, overlay}
use interview_agent_py.Session.Coherent.{Coherent}
use interview_agent_py.Session.Service.{submit_answer, save_answer, complete_interview}
use interview_agent_py.Session.Save.{Saved, save_answer-Saved}
use interview_agent_py.Session.Early.{complete_interview-unfinished}
use interview_agent_py.Session.Submit.{
  reply, next_row, answered_row, completed_row, new_questions, submit_answer-next,
}
use interview_agent_py.Session.Completion.{submit_answer-last}

abbrev question_at : ℕ → InterviewQuestion
question_at i = record {
  question_index = i;
  question = codes "q";
  type = codes "t";
  category = codes "c";
  topic_summary = none;
  user_answer = none;
  score = none;
  feedback = none;
  is_follow_up = false;
  parent_question_index = none;
  reference_answer = none;
  key_points = [];
  scoring_rubric = none;
  source_context = none;
}

abbrev row_with : SessionStatus → InterviewSession
row_with status = record {
  skill_id = codes "java";
  difficulty = codes "mid";
  resume_id = some 4;
  total_questions = 2;
  current_question_index = 0;
  status = status;
  questions = question_at 0 ∷ question_at 1 ∷ [];
  llm_provider = none;
  source_type = codes "NORMAL";
  knowledge_base_id = none;
  interview_category = none;
  evaluate_status = none;
  evaluate_error = none;
  completed = false;
  answers = [];
}

abbrev uncached : SessionStatus → World
uncached status = record {
  rows = (codes "s", row_with status) ∷ [];
  resumes = [];
  hashes = [];
  unfinished = [];
  tasks = [];
}

uncached-Coherent :
    (status : SessionStatus) → Coherent (codes "s") (row_with status) (uncached status)
unfolding get list_beq
uncached-Coherent status = (refl, tt, tt)

created_is_unfinished : is_unfinished created ≡ true
unfolding is_unfinished
created_is_unfinished = refl

completed_is_not : is_unfinished completed ≡ false
unfolding is_unfinished
completed_is_not = refl

abbrev start : InterviewSession
start = row_with created

first_question : get_elem? (overlay start.answers start.questions) 0 ≡ some (question_at 0)
unfolding overlay
first_question = refl

second_question : get_elem? (overlay start.answers start.questions) 1 ≡ some (question_at 1)
unfolding overlay
second_question = refl

no_third_question : get_elem? (overlay start.answers start.questions) 2 ≡ none
unfolding overlay
no_third_question = refl

two_questions : length (overlay start.answers start.questions) ≡ 2
unfolding overlay
two_questions = refl

submit_answer-next_example :
    (w' : World) × (submit_answer none (codes "s") 0 (codes "a") (uncached created)
      ≡ (ok (reply true 0 (new_questions start 0 (question_at 0) (codes "a"))), w'))
    × Coherent (codes "s") (next_row start 0 (question_at 0) (codes "a")) w'
    × (w'.tasks ≡ [])
submit_answer-next_example =
    submit_answer-next none (codes "s") 0 (codes "a") (uncached created) start (question_at 0)
      (uncached-Coherent created) created_is_unfinished first_question
      (omega (arith, two_questions))

submit_answer-last_example :
    (w' : World) × (submit_answer none (codes "s") 1 (codes "a") (uncached created)
      ≡ (ok (reply false 1 (new_questions start 1 (question_at 1) (codes "a"))), w'))
    × Coherent
        (codes "s")
        (completed_row none (answered_row start 1 (question_at 1) (codes "a")))
        w'
    × (w'.tasks ≡ codes "s" ∷ [])
submit_answer-last_example =
    submit_answer-last none (codes "s") 1 (codes "a") (uncached created) start (question_at 1)
      (uncached-Coherent created) created_is_unfinished second_question
      (omega (arith, two_questions))

save_answer-Saved_example :
    (w' : World) × (row' : InterviewSession) × (save_answer
        (codes "s")
        1
        (codes "a")
        (uncached created)
      ≡ (ok tt, w'))
    × Saved start 1 (question_at 1) (codes "a") row'
    × Coherent (codes "s") row' w'
    × (w'.tasks ≡ [])
save_answer-Saved_example =
    save_answer-Saved (codes "s") 1 (codes "a") (uncached created) start (question_at 1)
      (uncached-Coherent created) created_is_unfinished second_question

complete_interview-unfinished_example :
    (w' : World) × (complete_interview none (codes "s") (uncached created) ≡ (ok tt, w'))
    × Coherent (codes "s") (completed_row none start) w'
    × (w'.tasks ≡ codes "s" ∷ [])
complete_interview-unfinished_example =
    complete_interview-unfinished none (codes "s") (uncached created) start
      (uncached-Coherent created) created_is_unfinished
