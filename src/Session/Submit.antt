-- ===== src/Session/Submit.antt =====
-- Submitting an answer, as a step on the row of the session.
use interview_agent_py.Prelude.{
  ℕ, ◌+◌, ◌<◌, ◌≡◌, refl, ap, sym, ◌∙◌, subst, List, Option, none, some, Bool, true, false, Text,
  codes, tests, IsDistinct, if◌then◌else◌, list_eq, nat_eq, option_eq, ltb, length, length-set,
  get_elem?, set,
}
use interview_agent_py.Prelude.Dict.{get, put, keys, get-put_self, keys-put-IsDistinct}
use interview_agent_py.Errors.{ok}
use interview_agent_py.Interview.{completed, InterviewQuestion, with_answer}
use interview_agent_py.Interview.State.{is_unfinished}
use interview_agent_py.Session.{InterviewSession, SessionHash, SessionView, World, overlay}
use interview_agent_py.Session.Overlay.{overlay-put}
use interview_agent_py.Session.Coherent.{Coherent, HashAgrees, AgreesWith, ViewAgrees, restored}
use interview_agent_py.Session.Store.{
  on_row, save_answer_row, update_current_question_index, update_session_status,
  update_evaluate_status, with_status, hset, update_questions, update_current_index, update_status,
  enqueue_evaluation, forget_unfinished,
}
use interview_agent_py.Session.Service.{
  get_or_restore_session, SubmitAnswerResponse, submit_answer, submit_to, move_on, finish,
  mark_completed,
}

pub on_row-eq :
    (session_id : Text) (change : InterviewSession → InterviewSession) (w : World)
    (row : InterviewSession)
    → get w.rows session_id ≡ some row
    → on_row session_id change w ≡ (ok tt, record w { rows = put w.rows session_id (change row) })
unfolding on_row
on_row-eq session_id change w row at = rw (on_row, at) refl

-- The row with the answer saved.
abbrev pub answered_row : InterviewSession → ℕ → InterviewQuestion → Text → InterviewSession
answered_row row index question answer = record row {
  answers = put row.answers index (record {
    question = question.question;
    category = question.category;
    user_answer = some answer;
  });
}

-- The row after the answer to a question that is not the last.
abbrev pub next_row : InterviewSession → ℕ → InterviewQuestion → Text → InterviewSession
next_row row index question answer = record (answered_row row index question answer) {
  current_question_index = index + 1;
}

-- The row after the answer to the last question: COMPLETED, with its evaluation PENDING, or FAILED if
-- the stream refused the task.
abbrev pub completed_row : Option Text → InterviewSession → InterviewSession
completed_row none row = record (with_status completed row) {
  evaluate_status = some (codes "PENDING");
  evaluate_error = none;
}
completed_row (some error) row = record (with_status completed row) {
  evaluate_status = some (codes "FAILED");
  evaluate_error = some error;
}

-- The response, with `questions` those after the answer.
abbrev pub reply : Bool → ℕ → List InterviewQuestion → SubmitAnswerResponse
reply has_next index questions = record {
  has_next_question = has_next;
  next_question = if has_next then get_elem? questions (index + 1) else none;
  current_index = index + 1;
  total_questions = length questions;
}

module _ (sent : Option Text) (session_id : Text) (index : ℕ) (answer : Text) (view : SessionView)
    (question : InterviewQuestion) (w : World) (row : InterviewSession)
    (at : get w.rows session_id ≡ some row) where
  unfoldable pub questions' : List InterviewQuestion
  questions' = set view.questions index (with_answer question answer)

  unfoldable pub response : Bool → SubmitAnswerResponse
  response has_next = reply has_next index questions'

  unfoldable pub moved : World
  moved = record w {
    rows =
        put (put w.rows session_id (answered_row row index question answer)) session_id
          (next_row row index question answer);
  }

  after_next : World
  after_next =
      update_current_index session_id (index + 1) (update_questions session_id questions' moved)

  unfoldable pub saved : World
  saved = record w { rows = put w.rows session_id (answered_row row index question answer) }

  pub saved-eq :
      save_answer_row session_id index question.question question.category answer w ≡ (ok tt, saved)
  unfolding save_answer_row saved
  saved-eq = on_row-eq session_id _ w row at

  moved_on : move_on session_id (index + 1) questions' saved ≡ (ok tt, after_next)
  unfolding move_on update_current_question_index saved moved after_next
  moved_on =
      let here = get-put_self w.rows session_id (answered_row row index question answer) in
      let step =
        on_row-eq session_id (λ r. record r { current_question_index = index + 1 }) saved _ here in
      rw step refl

  submit_to-next :
      ltb (index + 1) (length questions') ≡ true
      → submit_to sent session_id index answer view question w ≡ (ok (response true), after_next)
  unfolding submit_to questions' response
  submit_to-next more = rw (saved-eq, more, moved_on) refl

  unfoldable pub with_pending : InterviewSession → InterviewSession
  with_pending r = record r { evaluate_status = some (codes "PENDING"); evaluate_error = none }

  unfoldable pub marked : World
  marked = record saved {
    rows =
        put
          (put saved.rows session_id
            (with_status completed (answered_row row index question answer)))
          session_id
          (with_pending (with_status completed (answered_row row index question answer)));
  }

  marked-eq : mark_completed session_id saved ≡ (ok tt, marked)
  unfolding mark_completed update_session_status update_evaluate_status saved marked with_pending
  marked-eq =
      let answered = answered_row row index question answer in
      let here = get-put_self w.rows session_id answered in
      let there = get-put_self saved.rows session_id (with_status completed answered) in
      let first = on_row-eq session_id (with_status completed) saved answered here in
      rw first (on_row-eq session_id with_pending _ (with_status completed answered) there)

  unfoldable pub after_last : World
  after_last = forget_unfinished view.resume_id (
      enqueue_evaluation sent session_id
        (update_status session_id completed (update_questions session_id questions' marked)))

  pub submit_to-last :
      ltb (index + 1) (length questions') ≡ false
      → submit_to sent session_id index answer view question w ≡ (ok (response false), after_last)
  unfolding submit_to questions' response finish after_last
  submit_to-last over = rw (saved-eq, over, marked-eq) refl

pub hset-eq :
    (session_id : Text) (fields : SessionHash → SessionHash) (w : World) (raw : SessionHash)
    → get w.hashes session_id ≡ some raw
    → get (hset session_id fields w).hashes session_id ≡ some (fields raw)
unfolding hset
hset-eq session_id fields w raw cached =
    rw (hset, cached) (get-put_self w.hashes session_id (fields raw))

cached-next :
    (session_id : Text) (k : ℕ) (qs : List InterviewQuestion) (w : World) (raw : SessionHash)
    → get w.hashes session_id ≡ some raw
    → get (update_current_index session_id k (update_questions session_id qs w)).hashes session_id
      ≡ some (record raw { questions = some qs; current_index = some k })
cached-next session_id k qs w raw cached =
    hset-eq session_id (λ h. record h { current_index = some k }) (update_questions session_id qs w)
      (record raw { questions = some qs })
      (hset-eq session_id (λ h. record h { questions = some qs }) w raw cached)

pub cached-last :
    (session_id : Text) (qs : List InterviewQuestion) (w : World) (raw : SessionHash)
    → get w.hashes session_id ≡ some raw
    → get (update_status session_id completed (update_questions session_id qs w)).hashes session_id
      ≡ some (record raw { questions = some qs; status = some completed })
cached-last session_id qs w raw cached =
    hset-eq session_id (λ h. record h { status = some completed })
      (update_questions session_id qs w) (record raw { questions = some qs })
      (hset-eq session_id (λ h. record h { questions = some qs }) w raw cached)

-- The questions with the saved answers and the new one.
abbrev pub new_questions : InterviewSession → ℕ → InterviewQuestion → Text → List InterviewQuestion
new_questions row index question answer =
    set (overlay row.answers row.questions) index (with_answer question answer)

-- An unfinished session with a question at the index, in a world where cache and table agree.
module _ (sent : Option Text) (session_id : Text) (index : ℕ) (answer : Text) (w : World)
    (row : InterviewSession) (question : InterviewQuestion) (h : Coherent session_id row w)
    (live : is_unfinished row.status ≡ true)
    (at : get_elem? (overlay row.answers row.questions) index ≡ some question) where
  pub enters :
      (view : SessionView) (w' : World)
      → get_or_restore_session session_id w ≡ (ok view, w')
      → ViewAgrees row view
      → submit_answer sent session_id index answer w
        ≡ submit_to sent session_id index answer view question w'
  unfolding submit_answer
  enters view w' run v =
      let unfinished = v.3 ∙ live in
      let found = ap (λ qs. get_elem? qs index) v.0 ∙ at in rw (run, unfinished, found) refl

  -- The questions with the new answer are what the table gives after it.
  pub overlaid :
      new_questions row index question answer
      ≡ overlay (answered_row row index question answer).answers row.questions
  overlaid = sym (overlay-put row.answers row.questions index _ question h.1 at)

  pub distinct : IsDistinct (keys (answered_row row index question answer).answers)
  distinct = keys-put-IsDistinct row.answers index _ h.1

  next_from :
      (view : SessionView) (w1 : World)
      → ViewAgrees row view
      → (here : get w1.rows session_id ≡ some row) → (raw : SessionHash)
      → get w1.hashes session_id ≡ some raw
      → HashAgrees row raw
      → w1.tasks ≡ w.tasks
      → index + 1 < length (overlay row.answers row.questions)
      → submit_answer sent session_id index answer w
        ≡ submit_to sent session_id index answer view question w1
      → (w' : World) × (submit_answer sent session_id index answer w
          ≡ (ok (reply true index (new_questions row index question answer)), w'))
        × Coherent session_id (next_row row index question answer) w'
        × (w'.tasks ≡ w.tasks)
  unfolding response questions' moved after_next hset
  next_from view w1 v here raw cached agrees tasks more entered =
      let same : set view.questions index (with_answer question answer)
          ≡ new_questions row index question answer =
        ap (λ qs. set qs index (with_answer question answer)) v.0 in
      let size = length-set view.questions index (with_answer question answer) in
      let whole = ap length v.0 in
      let has_next : ltb (index + 1)
            (length (set view.questions index (with_answer question answer)))
          ≡ true =
        omega (tests, more, size, whole) in
      (
        after_next sent session_id index answer view question w1 row here,
        entered
            ∙ submit_to-next sent session_id index answer view question w1 row here has_next
            ∙ ap
                (λ qs. (
                  ok (reply true index qs),
                  after_next sent session_id index answer view question w1 row here,
                ))
                same,
        (
          get-put_self (put w1.rows session_id (answered_row row index question answer)) session_id
              (next_row row index question answer),
          distinct,
          subst (AgreesWith (next_row row index question answer))
              (sym (
                cached-next session_id (index + 1)
                  (set view.questions index (with_answer question answer))
                  (moved sent session_id index answer view question w1 row here) raw cached))
              (ap some (same ∙ overlaid), refl, agrees.2, agrees.3),
        ),
        tasks,
      )

  -- An answer to a question that is not the last, of an unfinished session whose cache, if any,
  -- agrees with its row: the answer is saved in the table, the place is the
  -- next question, which is the response; nothing is put up for evaluation, and cache and table
  -- agree again. The result is computed from the row alone, so it does not matter whether the
  -- session was cached.
  pub submit_answer-next :
      index + 1 < length (overlay row.answers row.questions)
      → (w' : World) × (submit_answer sent session_id index answer w
          ≡ (ok (reply true index (new_questions row index question answer)), w'))
        × Coherent session_id (next_row row index question answer) w'
        × (w'.tasks ≡ w.tasks)
  submit_answer-next more =
      let (view, w1, run, v, here, (raw, cached, agrees), rows, tasks) =
        restored session_id row w h in
      next_from view w1 v here raw cached agrees tasks more (enters view w1 run v)
