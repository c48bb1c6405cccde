-- ===== src/Session/Early.antt =====
-- Completing an interview before its last question.
use interview_agent_py.Prelude.{
  ◌≡◌, refl, ap, sym, ◌∙◌, subst, Option, none, some, true, Text, codes, list_eq, nat_eq, arith,
}
use interview_agent_py.Prelude.Dict.{get, put, get-put_self}
use interview_agent_py.Errors.{ok}
use interview_agent_py.Interview.{SessionStatus, created, in_progress, completed, evaluated}
use interview_agent_py.Interview.State.{is_unfinished, validate_transition}
use interview_agent_py.Session.{InterviewSession, SessionHash, SessionView, World}
use interview_agent_py.Session.Coherent.{Coherent, HashAgrees, AgreesWith, ViewAgrees, restored}
use interview_agent_py.Session.Store.{
  with_status, update_session_status, update_evaluate_status, hset, update_status,
  enqueue_evaluation, forget_unfinished,
}
use interview_agent_py.Session.Service.{mark_completed, finish, checked, complete_interview}
use interview_agent_py.Session.Submit.{on_row-eq, hset-eq, completed_row}
use interview_agent_py.Session.Completion.{
  sent_tasks, pending, forget_unfinished-parts, enqueue_evaluation-parts, completed_row-IsDistinct,
  completed_row-HashAgrees,
}

from_unfinished :
    (status : SessionStatus)
    → is_unfinished status ≡ true
    → validate_transition status completed ≡ ok tt
unfolding is_unfinished validate_transition
from_unfinished created live = refl
from_unfinished in_progress live = refl
from_unfinished completed live = absurd (ground arith)
from_unfinished evaluated live = absurd (ground arith)

module _ (session_id : Text) (w : World) (row : InterviewSession)
    (here : get w.rows session_id ≡ some row) where
  unfoldable marked_world : World
  marked_world = record w {
    rows = put (put w.rows session_id (with_status completed row)) session_id (pending row);
  }

  mark_completed-eq : mark_completed session_id w ≡ (ok tt, marked_world)
  unfolding mark_completed update_session_status update_evaluate_status marked_world pending
  mark_completed-eq =
      let there = get-put_self w.rows session_id (with_status completed row) in
      let first = on_row-eq session_id (with_status completed) w row here in
      rw first (
        on_row-eq session_id
          (λ r. record r { evaluate_status = some (codes "PENDING"); evaluate_error = none }) _
          (with_status completed row) there)

module _ (sent : Option Text) (session_id : Text) (w : World) (row : InterviewSession)
    (h : Coherent session_id row w) where
  finish-from :
      (view : SessionView) (w1 : World)
      → ViewAgrees row view
      → get w1.rows session_id ≡ some row
      → (raw : SessionHash) → get w1.hashes session_id ≡ some raw
      → HashAgrees row raw
      → (w' : World) × (finish sent session_id view.resume_id (λ w. w) w1 ≡ (ok tt, w'))
        × Coherent session_id (completed_row sent row) w'
        × (w'.tasks ≡ sent_tasks sent session_id w1.tasks)
  unfolding finish marked_world hset is_unfinished
  finish-from view w1 v here raw cached agrees =
      let w2 = marked_world session_id w1 row here in
      let w3 = update_status session_id completed w2 in
      let w4 = enqueue_evaluation sent session_id w3 in
      let forgot = forget_unfinished-parts view.resume_id w4 in
      let stored = enqueue_evaluation-parts sent session_id w3 row (
        get-put_self (put w1.rows session_id (with_status completed row)) session_id
          (pending row)) in
      (
        forget_unfinished view.resume_id w4,
        rw (finish, mark_completed-eq session_id w1 row here) refl,
        (
          ap (λ d. get d session_id) forgot.0 ∙ stored.0,
          completed_row-IsDistinct sent row h.1,
          subst (AgreesWith (completed_row sent row))
              (sym (
                ap (λ d. get d session_id) (forgot.1 ∙ stored.1)
                ∙ hset-eq session_id (λ h. record h { status = some completed }) w2 raw cached))
              (completed_row-HashAgrees sent row (record raw { status = some completed }) agrees.0
                agrees.1 agrees.2 refl),
        ),
        forgot.2 ∙ stored.2,
      )

  -- An unfinished session whose cache, if any, agrees with its row can be completed at any question:
  -- the row is COMPLETED with its evaluation PENDING, or FAILED if the stream refused the task; the
  -- task was sent once, and cache and table agree again.
  pub complete_interview-unfinished :
      is_unfinished row.status ≡ true
      → (w' : World) × (complete_interview sent session_id w ≡ (ok tt, w'))
        × Coherent session_id (completed_row sent row) w'
        × (w'.tasks ≡ sent_tasks sent session_id w.tasks)
  unfolding complete_interview checked
  complete_interview-unfinished live =
      let (view, w1, run, v, here, (raw, cached, agrees), rows, tasks) =
        restored session_id row w h in
      let accepted = from_unfinished view.status (v.3 ∙ live) in
      let (w', finished, coherent, tasks') = finish-from view w1 v here raw cached agrees in
      (
        w',
        rw (complete_interview, run, accepted) finished,
        coherent,
        tasks' ∙ ap (sent_tasks sent session_id) tasks,
      )
