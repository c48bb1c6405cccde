-- ===== src/Session/Completion.antt =====
-- Submitting the last answer: the session is completed and put up for evaluation.
use interview_agent_py.Prelude.{
  ℕ, ◌+◌, ◌≤◌, ◌≡◌, refl, ap, sym, ◌∙◌, subst, List, [], ◌∷◌, ◌++◌, Option, none, some, true, false,
  Text, codes, arith, IsDistinct, list_eq, nat_eq, ltb, length, length-set, get_elem?, set,
}
use interview_agent_py.Prelude.Dict.{get, put, keys, get-put_self}
use interview_agent_py.Errors.{
  Result, ok, raise, ErrorCode, interview_already_completed, interview_question_not_found,
}
use interview_agent_py.Interview.{created, completed, status_eq, InterviewQuestion, with_answer}
use interview_agent_py.Interview.State.{is_unfinished}
use interview_agent_py.Session.{InterviewSession, SessionHash, SessionView, World, overlay}
use interview_agent_py.Session.Coherent.{Coherent, HashAgrees, AgreesWith, ViewAgrees, restored}
use interview_agent_py.Session.Store.{
  with_status, hset, update_questions, update_status, enqueue_evaluation, forget_unfinished,
  or_else,
}
use interview_agent_py.Session.Service.{SubmitAnswerResponse, submit_answer, submit_to}
use interview_agent_py.Session.Submit.{
  answered_row, completed_row, reply, questions', response, saved, marked, with_pending, after_last,
  submit_to-last, enters, overlaid, distinct, new_questions, cached-last,
}

-- The stream after the task was sent.
abbrev pub sent_tasks : Option Text → Text → List Text → List Text
sent_tasks none session_id tasks = tasks ++ session_id ∷ []
sent_tasks (some error) session_id tasks = tasks

pub forget_unfinished-parts :
    (resume_id : Option ℕ) (w : World)
    → ((forget_unfinished resume_id w).rows ≡ w.rows)
      × ((forget_unfinished resume_id w).hashes ≡ w.hashes)
      × ((forget_unfinished resume_id w).tasks ≡ w.tasks)
unfolding forget_unfinished
forget_unfinished-parts none w = (refl, refl, refl)
forget_unfinished-parts (some r) w = (refl, refl, refl)

unfoldable pub pending : InterviewSession → InterviewSession
pending row = record (with_status completed row) {
  evaluate_status = some (codes "PENDING");
  evaluate_error = none;
}

pub enqueue_evaluation-parts :
    (sent : Option Text) (session_id : Text) (w : World) (row : InterviewSession)
    → get w.rows session_id ≡ some (pending row)
    → (get (enqueue_evaluation sent session_id w).rows session_id ≡ some (completed_row sent row))
      × ((enqueue_evaluation sent session_id w).hashes ≡ w.hashes)
      × ((enqueue_evaluation sent session_id w).tasks ≡ sent_tasks sent session_id w.tasks)
unfolding enqueue_evaluation pending
enqueue_evaluation-parts none session_id w row at = (at, refl, refl)
enqueue_evaluation-parts (some error) session_id w row at =
    rw (enqueue_evaluation, at) (get-put_self w.rows session_id _, refl, refl)

pub completed_row-IsDistinct :
    (sent : Option Text) (row : InterviewSession)
    → IsDistinct (keys row.answers)
    → IsDistinct (keys (completed_row sent row).answers)
completed_row-IsDistinct none row h = h
completed_row-IsDistinct (some error) row h = h

pub completed_row-HashAgrees :
    (sent : Option Text) (row : InterviewSession) (raw : SessionHash)
    → raw.questions ≡ some (overlay row.answers row.questions)
    → raw.current_index ≡ some row.current_question_index
    → raw.resume_id ≡ some row.resume_id
    → is_unfinished (or_else raw.status created) ≡ false
    → HashAgrees (completed_row sent row) raw
unfolding is_unfinished
completed_row-HashAgrees none row raw a b c d = (a, b, c, d)
completed_row-HashAgrees (some error) row raw a b c d = (a, b, c, d)

module _ (sent : Option Text) (session_id : Text) (index : ℕ) (answer : Text) (w : World)
    (row : InterviewSession) (question : InterviewQuestion) (h : Coherent session_id row w)
    (live : is_unfinished row.status ≡ true)
    (at : get_elem? (overlay row.answers row.questions) index ≡ some question) where
  last_from :
      (view : SessionView) (w1 : World)
      → ViewAgrees row view
      → (here : get w1.rows session_id ≡ some row) → (raw : SessionHash)
      → get w1.hashes session_id ≡ some raw
      → HashAgrees row raw
      → w1.tasks ≡ w.tasks
      → length (overlay row.answers row.questions) ≤ index + 1
      → submit_answer sent session_id index answer w
        ≡ submit_to sent session_id index answer view question w1
      → (w' : World) × (submit_answer sent session_id index answer w
          ≡ (ok (reply false index (new_questions row index question answer)), w'))
        × Coherent session_id (completed_row sent (answered_row row index question answer)) w'
        × (w'.tasks ≡ sent_tasks sent session_id w.tasks)
  unfolding response questions' after_last saved marked with_pending hset pending is_unfinished
  last_from view w1 v here raw cached agrees tasks over entered =
      let same : set view.questions index (with_answer question answer)
          ≡ new_questions row index question answer =
        ap (λ q. set q index (with_answer question answer)) v.0 in
      let size = length-set view.questions index (with_answer question answer) in
      let whole = ap length v.0 in
      let no_next : ltb (index + 1)
            (length (set view.questions index (with_answer question answer)))
          ≡ false =
        ground (arith, size, whole, over) in
      let w2 = marked sent session_id index answer view question w1 row here in
      let w3 =
        update_status session_id completed (
          update_questions session_id (set view.questions index (with_answer question answer))
            w2) in
      let w4 = enqueue_evaluation sent session_id w3 in
      let forgot = forget_unfinished-parts view.resume_id w4 in
      let stored =
        enqueue_evaluation-parts sent session_id w3 (answered_row row index question answer) (
          get-put_self
            (put (put w1.rows session_id (answered_row row index question answer)) session_id
              (with_status completed (answered_row row index question answer)))
            session_id (pending (answered_row row index question answer))) in
      (
        after_last sent session_id index answer view question w1 row here,
        entered
            ∙ submit_to-last sent session_id index answer view question w1 row here no_next
            ∙ ap
                (λ q. (
                  ok (reply false index q),
                  after_last sent session_id index answer view question w1 row here,
                ))
                same,
        (
          ap (λ d. get d session_id) forgot.0 ∙ stored.0,
          completed_row-IsDistinct sent (answered_row row index question answer)
              (distinct sent session_id index answer w row question h live at),
          subst (AgreesWith (completed_row sent (answered_row row index question answer)))
              (sym (
                ap (λ d. get d session_id) (forgot.1 ∙ stored.1)
                ∙ cached-last session_id (set view.questions index (with_answer question answer)) w2
                    raw cached))
              (completed_row-HashAgrees sent (answered_row row index question answer)
                (record raw {
                  questions = some (set view.questions index (with_answer question answer));
                  status = some completed;
                })
                (ap some (same ∙ overlaid sent session_id index answer w row question h live at))
                agrees.1 agrees.2 refl),
        ),
        forgot.2 ∙ stored.2 ∙ ap (λ t. sent_tasks sent session_id t) tasks,
      )

  -- An answer to the last question of an unfinished session whose cache, if any, agrees with its
  -- row: the row is COMPLETED with its evaluation PENDING, or FAILED if
  -- the stream refused the task; the task was sent once; cache and table agree again. The result
  -- is computed from the row alone, so it does not matter whether the session was cached.
  pub submit_answer-last :
      length (overlay row.answers row.questions) ≤ index + 1
      → (w' : World) × (submit_answer sent session_id index answer w
          ≡ (ok (reply false index (new_questions row index question answer)), w'))
        × Coherent session_id (completed_row sent (answered_row row index question answer)) w'
        × (w'.tasks ≡ sent_tasks sent session_id w.tasks)
  submit_answer-last over =
      let (view, w1, run, v, here, (raw, cached, agrees), rows, tasks) =
        restored session_id row w h in
      last_from view w1 v here raw cached agrees tasks over
        (enters sent session_id index answer w row question h live at view w1 run v)

-- What a refused submission leaves: the tables and the stream as they were.
abbrev pub Refused : ErrorCode → World → Result SubmitAnswerResponse × World → Type 0
Refused code w (result, w') = (result ≡ raise code) × (w'.rows ≡ w.rows) × (w'.tasks ≡ w.tasks)

module _ (sent : Option Text) (session_id : Text) (index : ℕ) (answer : Text) (w : World)
    (row : InterviewSession) (h : Coherent session_id row w) where
  -- A session that is not unfinished, and whose cache, if any, agrees with its row, takes no answer: the call raises INTERVIEW_ALREADY_COMPLETED
  -- and changes neither a table nor the stream.
  pub submit_answer-finished :
      is_unfinished row.status ≡ false
      → Refused interview_already_completed w (submit_answer sent session_id index answer w)
  unfolding submit_answer
  submit_answer-finished over =
      let (view, w1, run, v, here, cached, rows, tasks) = restored session_id row w h in
      let finished = v.3 ∙ over in
      let same : submit_answer sent session_id index answer w
          ≡ (raise interview_already_completed, w1) =
        rw (submit_answer, run, finished) refl in
      rw same (refl, rows, tasks)

  -- For an unfinished session whose cache, if any, agrees with its row, an index out of range is
  -- refused with INTERVIEW_QUESTION_NOT_FOUND, and changes neither a table
  -- nor the stream.
  pub submit_answer-out_of_range :
      is_unfinished row.status ≡ true
      → get_elem? (overlay row.answers row.questions) index ≡ none
      → Refused interview_question_not_found w (submit_answer sent session_id index answer w)
  unfolding submit_answer
  submit_answer-out_of_range live missing =
      let (view, w1, run, v, here, cached, rows, tasks) = restored session_id row w h in
      let unfinished = v.3 ∙ live in
      let absent = ap (λ qs. get_elem? qs index) v.0 ∙ missing in
      let same : submit_answer sent session_id index answer w
          ≡ (raise interview_question_not_found, w1) =
        rw (submit_answer, run, unfinished, absent) refl in
      rw same (refl, rows, tasks)
