-- ===== src/Session/Store.antt =====
-- application/interview/persistence_service.py with infrastructure/db/repositories/
-- interview_repository.py, infrastructure/redis/session_cache.py, and the producer of the
-- evaluation tasks: the steps that the session service is made of. Redis commands and the database
-- are taken to work; whether a task is accepted by the stream is an argument.
use interview_agent_py.Prelude.{
  ℕ, List, [], ◌∷◌, ◌++◌, Option, none, some, ◌||◌, if◌then◌else◌, ◌=?◌, Text, codes, list_eq,
  nat_eq, option_eq,
}
use interview_agent_py.Prelude.Dict.{get, put, remove}
use interview_agent_py.Errors.{ok, raise, interview_session_not_found}
use interview_agent_py.Interview.{
  SessionStatus, created, completed, evaluated, status_eq, InterviewQuestion,
}
use interview_agent_py.Interview.State.{is_unfinished}
use interview_agent_py.Session.{
  InterviewSession, SessionHash, SessionView, World, Op, or_empty, or_none,
}

-- A write to the row of a session that must be there.
unfoldable pub on_row : Text → (InterviewSession → InterviewSession) → Op (Unit {0})
on_row session_id change w = elim (get w.rows session_id) [
  | none ↦ (raise interview_session_not_found, w)
  | some row ↦ (ok tt, record w { rows = put w.rows session_id (change row) })
]

abbrev pub with_status : SessionStatus → InterviewSession → InterviewSession
with_status status row = record row {
  status = status;
  completed = status =? completed || status =? evaluated || row.completed;
}

unfoldable pub update_session_status : Text → SessionStatus → Op (Unit {0})
unfolding on_row
update_session_status session_id status = on_row session_id (with_status status)

unfoldable pub update_current_question_index : Text → ℕ → Op (Unit {0})
unfolding on_row
update_current_question_index session_id index =
    on_row session_id (λ row. record row { current_question_index = index })

unfoldable pub update_evaluate_status : Text → Text → Option Text → Op (Unit {0})
unfolding on_row
update_evaluate_status session_id status error =
    on_row session_id (λ row. record row { evaluate_status = some status; evaluate_error = error })

-- The row of an answer is updated, or added at the end.
unfoldable pub save_answer_row : Text → ℕ → Text → Text → Text → Op (Unit {0})
unfolding on_row
save_answer_row session_id index question category user_answer = on_row session_id (λ row.
    record row {
      answers =
          put row.answers index
            (record { question = question; category = category; user_answer = some user_answer });
    })

abbrev pub no_fields : SessionHash
no_fields = record {
  resume_text = none;
  resume_id = none;
  knowledge_base_id = none;
  interview_category = none;
  questions = none;
  current_index = none;
  status = none;
}

-- `hset`: it makes the hash if there is none.
unfoldable pub hset : Text → (SessionHash → SessionHash) → World → World
hset session_id fields w = record w {
  hashes =
      put w.hashes session_id
        (fields (elim (get w.hashes session_id) [ none ↦ no_fields | some h ↦ h ]));
}

abbrev pub update_questions : Text → List InterviewQuestion → World → World
update_questions session_id questions =
    hset session_id (λ h. record h { questions = some questions })

abbrev pub update_current_index : Text → ℕ → World → World
update_current_index session_id index =
    hset session_id (λ h. record h { current_index = some index })

abbrev pub update_status : Text → SessionStatus → World → World
update_status session_id status = hset session_id (λ h. record h { status = some status })

abbrev pub delete_unfinished_mapping : ℕ → World → World
delete_unfinished_mapping resume_id w = record w { unfinished = remove w.unfinished resume_id }

-- `if resume_id is not None: delete_unfinished_mapping(resume_id)`
unfoldable pub forget_unfinished : Option ℕ → World → World
forget_unfinished none w = w
forget_unfinished (some resume_id) w = delete_unfinished_mapping resume_id w

unfoldable pub set_unfinished : Option ℕ → SessionStatus → Text → World → World
set_unfinished none status session_id w = w
set_unfinished (some resume_id) status session_id w =
    if is_unfinished status
    then record w { unfinished = put w.unfinished resume_id session_id }
    else w

-- All fields of the hash, and the mapping of an unfinished session.
abbrev pub all_fields : SessionView → SessionHash
all_fields v = record {
  resume_text = some v.resume_text;
  resume_id = some v.resume_id;
  knowledge_base_id = some v.knowledge_base_id;
  interview_category = some (or_empty v.interview_category);
  questions = some v.questions;
  current_index = some v.current_question_index;
  status = some v.status;
}

unfoldable pub save_cached : SessionView → World → World
unfolding hset set_unfinished
save_cached v w =
    set_unfinished v.resume_id v.status v.session_id (hset v.session_id (λ h. all_fields v) w)

abbrev pub or_else {ℓ} : {A : Type ℓ} → Option A → A → A
or_else none d = d
or_else (some a) d = a

-- `_parse_cached_session`: a missing field has a default.
unfoldable pub parse_cached_session : Text → SessionHash → SessionView
parse_cached_session session_id raw = record {
  session_id = session_id;
  resume_id = or_else raw.resume_id none;
  resume_text = or_else raw.resume_text [];
  current_question_index = or_else raw.current_index 0;
  status = or_else raw.status created;
  questions = or_else raw.questions [];
  knowledge_base_id = or_else raw.knowledge_base_id none;
  interview_category = or_none (or_else raw.interview_category []);
}

-- `send_task`: a stream that refuses the task has the session marked FAILED.
unfoldable pub enqueue_evaluation : Option Text → Text → World → World
enqueue_evaluation none session_id w = record w { tasks = w.tasks ++ session_id ∷ [] }
enqueue_evaluation (some error) session_id w = elim (get w.rows session_id) [
  | none ↦ w
  | some row ↦ record w {
    rows =
        put w.rows session_id
          (record row { evaluate_status = some (codes "FAILED"); evaluate_error = some error });
  }
]
