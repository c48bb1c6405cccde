-- ===== src/Session/Service.antt =====
-- application/interview/session_service.py: the operations of an interview session. `sent` is the
-- outcome of the stream: `none`, or the text of the error that is stored.
use interview_agent_py.Prelude.{
  ℕ, ◌+◌, List, [], length, get_elem?, set, Option, none, some, Bool, true, false, ltb,
  if◌then◌else◌, ◌=?◌, is_empty, Text, codes, list_eq, nat_eq, option_eq,
}
use interview_agent_py.Prelude.Dict.{get, put, remove}
use interview_agent_py.Errors.{
  Result, ok, raise, interview_session_not_found, interview_already_completed,
  interview_question_not_found,
}
use interview_agent_py.Interview.{
  created, in_progress, completed, status_eq, InterviewQuestion, with_answer,
}
use interview_agent_py.Interview.State.{is_unfinished, validate_transition}
use interview_agent_py.Session.{
  InterviewSession, SessionView, World, Op, modify, done, require, ◌!>◌, or_empty, overlay,
}
use interview_agent_py.Session.Store.{
  update_session_status, update_current_question_index, update_evaluate_status, save_answer_row,
  update_questions, update_current_index, update_status, delete_unfinished_mapping,
  forget_unfinished, save_cached, parse_cached_session, enqueue_evaluation,
}

-- `_load_resume_text`, with the `or ""` of its callers.
unfoldable pub load_resume_text : Option ℕ → World → Text
load_resume_text none w = []
load_resume_text (some resume_id) w = elim (get w.resumes resume_id) [
  | none ↦ []
  | some text ↦ or_empty text
]

-- What a row becomes when it is put back into the cache.
unfoldable pub view_of_row : Text → InterviewSession → Text → SessionView
unfolding overlay
view_of_row session_id row resume_text = record {
  session_id = session_id;
  resume_id = row.resume_id;
  resume_text = resume_text;
  current_question_index = row.current_question_index;
  status = row.status;
  questions = overlay row.answers row.questions;
  knowledge_base_id = row.knowledge_base_id;
  interview_category = row.interview_category;
}

-- After a restore the view has no resume text, unlike the cached session.
unfoldable pub get_or_restore_session : Text → Op SessionView
unfolding view_of_row load_resume_text save_cached parse_cached_session
get_or_restore_session session_id w = elim (get w.hashes session_id) [
  | some raw ↦ (ok (parse_cached_session session_id raw), w)
  | none ↦ elim (get w.rows session_id) [
    | none ↦ (raise interview_session_not_found, w)
    | some row ↦ (
      ok (view_of_row session_id row []),
      save_cached (view_of_row session_id row (load_resume_text row.resume_id w)) w,
    )
  ]
]

pub record CurrentQuestionResponse : Type 0 where
  pub completed : Bool
  pub question : Option InterviewQuestion

unfoldable pub begin_if_created : SessionView → Text → Op (Unit {0})
begin_if_created view session_id =
    if view.status =? created
    then (update_session_status session_id in_progress !> λ _.
        modify (update_status session_id in_progress))
    else done tt

unfoldable pub get_current_question : Text → Op CurrentQuestionResponse
unfolding get_or_restore_session begin_if_created
get_current_question session_id = get_or_restore_session session_id !> λ view.
    elim (get_elem? view.questions view.current_question_index) [
      | none ↦ done (record { completed = true; question = none })
      | some question ↦ begin_if_created view session_id !> λ _.
          done (record { completed = false; question = some question })
    ]

pub record SubmitAnswerResponse : Type 0 where
  pub has_next_question : Bool
  pub next_question : Option InterviewQuestion
  pub current_index : ℕ
  pub total_questions : ℕ

-- The branch with a next question.
unfoldable pub move_on : Text → ℕ → List InterviewQuestion → Op (Unit {0})
move_on session_id new_index questions = update_current_question_index session_id new_index !> λ _.
    modify
      (λ w. update_current_index session_id new_index (update_questions session_id questions w))

-- The session is COMPLETED and its evaluation PENDING in one transaction; the task is sent after it.
unfoldable pub mark_completed : Text → Op (Unit {0})
mark_completed session_id = update_session_status session_id completed !> λ _.
    update_evaluate_status session_id (codes "PENDING") none

unfoldable pub finish : Option Text → Text → Option ℕ → (World → World) → Op (Unit {0})
unfolding mark_completed
finish sent session_id resume_id write_questions = mark_completed session_id !> λ _. modify (λ w.
    forget_unfinished resume_id
      (enqueue_evaluation sent session_id (update_status session_id completed (write_questions w))))

-- From the question at the index on.
unfoldable pub submit_to :
    Option Text → Text → ℕ → Text → SessionView → InterviewQuestion → Op SubmitAnswerResponse
unfolding move_on finish
submit_to sent session_id index answer view question =
    let questions = set view.questions index (with_answer question answer) in
    let new_index = index + 1 in
    let has_next = ltb new_index (length questions) in
    save_answer_row session_id index question.question question.category answer
    !> (λ _.
        if has_next
        then move_on session_id new_index questions
        else finish sent session_id view.resume_id (update_questions session_id questions))
    !> λ _. done (record {
      has_next_question = has_next;
      next_question = if has_next then get_elem? questions new_index else none;
      current_index = new_index;
      total_questions = length questions;
    })

unfoldable pub submit_answer : Option Text → Text → ℕ → Text → Op SubmitAnswerResponse
unfolding get_or_restore_session submit_to
submit_answer sent session_id index answer = get_or_restore_session session_id !> λ view.
    require (is_unfinished view.status) interview_already_completed !> λ _.
    elim (get_elem? view.questions index) [
      | none ↦ λ w. (raise interview_question_not_found, w)
      | some question ↦ submit_to sent session_id index answer view question
    ]

unfoldable pub save_to : Text → ℕ → Text → SessionView → InterviewQuestion → Op (Unit {0})
save_to session_id index answer view question =
    save_answer_row session_id index question.question question.category answer
    !> (λ _.
        if view.status =? created then update_session_status session_id in_progress else done tt)
    !> λ _.
        modify
          (update_questions session_id (set view.questions index (with_answer question answer)))

unfoldable pub save_answer : Text → ℕ → Text → Op (Unit {0})
unfolding get_or_restore_session save_to
save_answer session_id index answer = get_or_restore_session session_id !> λ view.
    require (is_unfinished view.status) interview_already_completed !> λ _.
    elim (get_elem? view.questions index) [
      | none ↦ λ w. (raise interview_question_not_found, w)
      | some question ↦ save_to session_id index answer view question
    ]

unfoldable pub checked : Result (Unit {0}) → Op (Unit {0})
checked result w = (result, w)

unfoldable pub complete_interview : Option Text → Text → Op (Unit {0})
unfolding get_or_restore_session finish checked
complete_interview sent session_id = get_or_restore_session session_id !> λ view.
    checked (validate_transition view.status completed) !> λ _.
    finish sent session_id view.resume_id (λ w. w)

-- The mapping is deleted only if it is this session's.
unfoldable pub delete_session : Text → World → World
delete_session session_id w = elim (get w.rows session_id) [
  | none ↦ w
  | some row ↦
      let w' : World = record w {
        rows = remove w.rows session_id;
        hashes = remove w.hashes session_id;
      } in
      elim row.resume_id [
        | none ↦ w'
        | some resume_id ↦
            if get w.unfinished resume_id =? some session_id
            then delete_unfinished_mapping resume_id w'
            else w'
      ]
]

-- What a session is created from; the id is fresh, and the questions have been made or picked.
pub record NewSession : Type 0 where
  pub session_id : Text
  pub skill_id : Text
  pub difficulty : Text
  pub resume_id : Option ℕ
  pub llm_provider : Option Text
  pub source_type : Text
  pub knowledge_base_id : Option ℕ
  pub interview_category : Option Text
  pub resume_text : Text
  pub questions : List InterviewQuestion

abbrev pub new_view : NewSession → SessionView
new_view n = record {
  session_id = n.session_id;
  resume_id = n.resume_id;
  resume_text = n.resume_text;
  current_question_index = 0;
  status = created;
  questions = n.questions;
  knowledge_base_id = n.knowledge_base_id;
  interview_category = n.interview_category;
}

abbrev pub new_row : NewSession → InterviewSession
new_row n = record {
  skill_id = n.skill_id;
  difficulty = n.difficulty;
  resume_id = n.resume_id;
  total_questions = length n.questions;
  current_question_index = 0;
  status = created;
  questions = n.questions;
  llm_provider = n.llm_provider;
  source_type = n.source_type;
  knowledge_base_id = n.knowledge_base_id;
  interview_category = n.interview_category;
  evaluate_status = none;
  evaluate_error = none;
  completed = false;
  answers = [];
}

unfoldable pub create_with : NewSession → World → SessionView × World
unfolding save_cached
create_with n w =
    (new_view n, save_cached (new_view n) (record w { rows = put w.rows n.session_id (new_row n) }))

-- A session of questions from a knowledge base.
unfoldable pub create_session_from_questions :
    Text
    → List InterviewQuestion
    → Option Text
    → Text
    → Text
    → Option ℕ
    → Option Text
    → Op SessionView
unfolding create_with
create_session_from_questions session_id questions llm_provider skill_id difficulty
      knowledge_base_id interview_category w =
    let made =
      create_with
        (record {
          session_id = session_id;
          skill_id = skill_id;
          difficulty = difficulty;
          resume_id = none;
          llm_provider = llm_provider;
          source_type = codes "KNOWLEDGE_BASE";
          knowledge_base_id = knowledge_base_id;
          interview_category = interview_category;
          resume_text = [];
          questions = questions;
        })
        w in
    if is_empty questions then (raise interview_question_not_found, w) else (ok made.0, made.1)
