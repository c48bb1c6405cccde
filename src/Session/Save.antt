-- ===== src/Session/Save.antt =====
-- Saving an answer without going on to the next question, as a step on the row of the session.
use interview_agent_py.Prelude.{
  ℕ, ◌≡◌, refl, ap, sym, ◌∙◌, subst, none, some, true, inl, inr, Bool-cases, Text, IsDistinct,
  if◌then◌else◌, ◌=?◌, list_eq, nat_eq, get_elem?, set,
}
use interview_agent_py.Prelude.Dict.{get, put, keys, get-put_self}
use interview_agent_py.Errors.{ok}
use interview_agent_py.Interview.{created, in_progress, status_eq, InterviewQuestion, with_answer}
use interview_agent_py.Interview.State.{is_unfinished}
use interview_agent_py.Session.{
  InterviewSession, SessionHash, SessionView, World, Op, done, overlay,
}
use interview_agent_py.Session.Coherent.{Coherent, HashAgrees, AgreesWith, ViewAgrees, restored}
use interview_agent_py.Session.Store.{with_status, update_session_status, hset, update_questions}
use interview_agent_py.Session.Service.{save_answer, save_to}
use interview_agent_py.Session.Submit.{
  on_row-eq, hset-eq, answered_row, saved, saved-eq, overlaid, distinct,
}

-- A row that has the answer saved, and differs from the row before in nothing else but the status,
-- which is still an unfinished one.
abbrev pub Saved : InterviewSession → ℕ → InterviewQuestion → Text → InterviewSession → Type 0
Saved row index question answer row' =
    (is_unfinished row'.status ≡ true)
    × (record row' { status = row.status } ≡ answered_row row index question answer)

-- The step of a session that was CREATED.
begin_step : Text → SessionView → Op (Unit {0})
begin_step session_id view =
    if view.status =? created then update_session_status session_id in_progress else done tt

begin_step-parts :
    (session_id : Text) (view : SessionView) (w : World) (row : InterviewSession)
    → get w.rows session_id ≡ some row
    → is_unfinished row.status ≡ true
    → (w' : World) × (row' : InterviewSession) × (begin_step session_id view w ≡ (ok tt, w'))
      × (get w'.rows session_id ≡ some row')
      × (is_unfinished row'.status ≡ true)
      × (record row' { status = row.status } ≡ row)
      × (w'.hashes ≡ w.hashes)
      × (w'.tasks ≡ w.tasks)
unfolding begin_step update_session_status is_unfinished
begin_step-parts session_id view w row here live = elim (Bool-cases (view.status =? created)) [
  | inl new ↦ (
    record w { rows = put w.rows session_id (with_status in_progress row) },
    with_status in_progress row,
    rw (begin_step, new) (on_row-eq session_id (with_status in_progress) w row here),
    get-put_self w.rows session_id (with_status in_progress row),
    refl,
    refl,
    refl,
    refl,
  )
  | inr begun ↦ (w, row, rw (begin_step, begun) refl, here, live, refl, refl, refl)
]

module _ (session_id : Text) (index : ℕ) (answer : Text) (w : World) (row : InterviewSession)
    (question : InterviewQuestion) (h : Coherent session_id row w)
    (live : is_unfinished row.status ≡ true)
    (at : get_elem? (overlay row.answers row.questions) index ≡ some question) where
  save_to-from :
      (view : SessionView) (w1 : World)
      → ViewAgrees row view
      → get w1.rows session_id ≡ some row
      → (raw : SessionHash) → get w1.hashes session_id ≡ some raw
      → HashAgrees row raw
      → (w' : World) × (row' : InterviewSession) × (save_to session_id index answer view question w1
          ≡ (ok tt, w'))
        × Saved row index question answer row'
        × Coherent session_id row' w'
        × (w'.tasks ≡ w1.tasks)
  unfolding save_to begin_step saved hset
  save_to-from view w1 v here raw cached agrees =
      let answered = answered_row row index question answer in
      let w2 = saved none session_id index answer view question w1 row here in
      let (w3, row3, run, there, live3, same_row, hashes, tasks) =
        begin_step-parts session_id view w2 answered (get-put_self w1.rows session_id answered)
          live in
      let qs = set view.questions index (with_answer question answer) in
      let same : qs ≡ overlay row3.answers row3.questions =
        ap (λ qs. set qs index (with_answer question answer)) v.0
        ∙ overlaid none session_id index answer w row question h live at
        ∙ sym (ap (λ (r : InterviewSession). overlay r.answers r.questions) same_row) in
      (
        update_questions session_id qs w3,
        row3,
        rw (save_to, saved-eq none session_id index answer view question w1 row here, run) refl,
        (live3, same_row),
        (
          there,
          subst (λ (r : InterviewSession). IsDistinct (keys r.answers)) (sym same_row)
              (distinct none session_id index answer w row question h live at),
          subst (AgreesWith row3)
              (sym (
                hset-eq session_id (λ h. record h { questions = some qs }) w3 raw
                  (ap (λ d. get d session_id) hashes ∙ cached)))
              (
                ap some same,
                agrees.1
                    ∙ ap some
                        (sym (ap (λ (r : InterviewSession). r.current_question_index) same_row)),
                agrees.2 ∙ ap some (sym (ap (λ (r : InterviewSession). r.resume_id) same_row)),
                agrees.3 ∙ live ∙ sym live3,
              ),
        ),
        tasks,
      )

  -- For an unfinished session whose cache, if any, agrees with its row, and an index in range: the
  -- answer is saved in the table, nothing else of the row changes but perhaps the status, which is
  -- still an unfinished one, nothing is put up for evaluation, and cache and table agree again.
  pub save_answer-Saved :
      (w' : World) × (row' : InterviewSession) × (save_answer session_id index answer w
        ≡ (ok tt, w'))
      × Saved row index question answer row'
      × Coherent session_id row' w'
      × (w'.tasks ≡ w.tasks)
  unfolding save_answer
  save_answer-Saved =
      let (view, w1, run, v, here, (raw, cached, agrees), rows, tasks) =
        restored session_id row w h in
      let unfinished = v.3 ∙ live in
      let found = ap (λ qs. get_elem? qs index) v.0 ∙ at in
      let (w', row', stored, is_saved, coherent, tasks') =
        save_to-from view w1 v here raw cached agrees in
      (
        w',
        row',
        rw (save_answer, run, unfinished, found) stored,
        is_saved,
        coherent,
        tasks' ∙ tasks,
      )
