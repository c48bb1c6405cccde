-- ===== src/Voice/Service/Rows.antt =====
-- What a call of the service does to the rows: a description by cases of one row.
use interview_agent_py.Prelude.{
  ℕ, ◌≡◌, inl, inr, refl, ap, sym, ◌∙◌, Option, none, some, Bool, true, false, Bool-cases,
  Option-cases, if◌then◌else◌, ◌=?◌, Text, option_eq, nat_eq, arith,
}
use interview_agent_py.Prelude.Dict.{get, put, remove, get-put, get-put_self, get-remove}
use interview_agent_py.Errors.{ok, raise, bad_request}
use interview_agent_py.Tasks.{failed}
use interview_agent_py.Voice.{
  VoiceSessionStatus, in_progress, paused, completed, voice_status_eq, status_number_iff,
}
use interview_agent_py.Voice.State.{validate_transition, is_unfinished}
use interview_agent_py.Voice.Table.{
  VoiceSession, VoiceWorld, with_row, load_session, write_cache, invalidate_cache, send_task,
}
use interview_agent_py.Voice.Service.{
  VoiceCall, end_session, pause_session, resume_session, delete_session, trigger_evaluation, ended,
  paused_row, resumed_row, waiting_row, evaluation_stands, body, perform,
}

pub validate-completed :
    (s : VoiceSessionStatus)
    → validate_transition s completed ≡ (if is_unfinished s then ok tt else raise bad_request)
unfolding validate_transition is_unfinished
validate-completed in_progress = refl
validate-completed s = ground arith

pub validate-paused :
    (s : VoiceSessionStatus)
    → validate_transition s paused ≡ (if s =? in_progress then ok tt else raise bad_request)
unfolding validate_transition
validate-paused in_progress = refl
validate-paused s = ground arith

pub validate-in_progress :
    (s : VoiceSessionStatus)
    → validate_transition s in_progress ≡ (if s =? paused then ok tt else raise bad_request)
unfolding validate_transition
validate-in_progress in_progress = refl
validate-in_progress s = ground arith

-- A task that the stream refuses marks the evaluation FAILED.
abbrev pub sent : Option Text → ℕ → VoiceSession → VoiceSession
sent none now row = row
sent (some error) now row = record row {
  evaluate_status = some failed;
  evaluate_error = some error;
  updated_at = now;
}

-- The row after a call, if it is still there.
unfoldable pub row_after : VoiceCall → VoiceSession → Option VoiceSession
row_after (end_session now refused) row =
    if is_unfinished row.status then some (sent refused now (ended now row)) else some row
row_after (pause_session now) row =
    if row.status =? in_progress then some (paused_row now row) else some row
row_after (resume_session now) row =
    if row.status =? paused then some (resumed_row now row) else some row
row_after delete_session row = none
row_after (trigger_evaluation now refused) row =
    if evaluation_stands row.evaluate_status
    then some row
    else some (sent refused now (waiting_row now row))

unfoldable pub and_then :
    Option VoiceSession → (VoiceSession → Option VoiceSession) → Option VoiceSession
and_then none f = none
and_then (some row) f = f row

module _ (i j : ℕ) where
  write_cache-rows :
      (works : Bool) (row : VoiceSession) (w : VoiceWorld)
      → (write_cache works i row w).rows ≡ w.rows
  unfolding write_cache
  write_cache-rows true row w = refl
  write_cache-rows false row w = refl

  invalidate_cache-rows :
      (works : Bool) (w : VoiceWorld) → (invalidate_cache works i w).rows ≡ w.rows
  unfolding invalidate_cache
  invalidate_cache-rows true w = refl
  invalidate_cache-rows false w = refl

  send_task-rows :
      (refused : Option Text) (now : ℕ) (row : VoiceSession) (w : VoiceWorld)
      → get w.rows i ≡ some row
      → get (send_task refused i now w).rows j
        ≡ (if i =? j then some (sent refused now row) else get w.rows j)
  unfolding send_task
  send_task-rows none now row w at = ground (arith, nat_eq.beq_iff i j)
  send_task-rows (some error) now row w at =
      rw (send_task, at) (get-put w.rows i j (sent (some error) now row))

  -- A write of a row, and then the task.
  written_and_sent :
      (works : Bool) (refused : Option Text) (now : ℕ) (row : VoiceSession) (w : VoiceWorld)
      → get (send_task refused i now (invalidate_cache works i (with_row i row w))).rows j
        ≡ (if i =? j then some (sent refused now row) else get w.rows j)
  written_and_sent works refused now row w =
      let same = invalidate_cache-rows works (with_row i row w) in
      let at : get (invalidate_cache works i (with_row i row w)).rows i ≡ some row =
        ap (λ d. get d i) same ∙ get-put_self w.rows i row in
      send_task-rows refused now row (invalidate_cache works i (with_row i row w)) at
      ∙ ap (λ d. if i =? j then some (sent refused now row) else get d j) same
      ∙ overwritten (sent refused now row)
    where
      overwritten :
          (r : VoiceSession)
          → (if i =? j then some r else get (put w.rows i row) j)
            ≡ (if i =? j then some r else get w.rows j)
      overwritten r = ground (arith, get-put w.rows i j row)

  unchanged :
      (row : VoiceSession) (w : VoiceWorld)
      → get w.rows i ≡ some row
      → get w.rows j ≡ (if i =? j then some row else get w.rows j)
  unchanged row w at = elim (Bool-cases (i =? j)) [
    | inl same ↦ rw same (ap (λ k. get w.rows k) (sym ((nat_eq.beq_iff i j).0 same)) ∙ at)
    | inr other ↦ rw other refl
  ]

  module _ (works : Bool) (row : VoiceSession) (w : VoiceWorld) (at : get w.rows i ≡ some row) where
    abbrev After : Option VoiceSession → VoiceWorld → Type 0
    After r w' = get w'.rows j ≡ (if i =? j then r else get w.rows j)

    end-row :
        (now : ℕ) (refused : Option Text)
        → After
            (row_after (end_session now refused) row)
            (body works i (end_session now refused) row w).1
    unfolding body row_after
    end-row now refused = elim (Bool-cases (is_unfinished row.status)) [
      | inl open_session ↦
          rw (open_session, validate-completed, open_session)
            (written_and_sent works refused now (ended now row) w)
      | inr over ↦ rw (over, validate-completed, over) (unchanged row w at)
    ]

    pause-row :
        (now : ℕ)
        → After (row_after (pause_session now) row) (body works i (pause_session now) row w).1
    unfolding body row_after
    pause-row now = elim (Bool-cases (row.status =? in_progress)) [
      | inl live ↦
          rw (live, validate-paused, live)
            (ap (λ d. get d j) (invalidate_cache-rows works (with_row i (paused_row now row) w))
              ∙ get-put w.rows i j (paused_row now row))
      | inr other ↦ rw (other, validate-paused, other) (unchanged row w at)
    ]

    resume-row :
        (now : ℕ)
        → After (row_after (resume_session now) row) (body works i (resume_session now) row w).1
    unfolding body row_after
    resume-row now = elim (Bool-cases (row.status =? in_progress)) [
      | inl live ↦
          let not_paused : (row.status =? paused) ≡ false =
            ap (λ s. s =? paused) ((status_number_iff row.status in_progress).0 live) in
          rw (live, not_paused)
            (ap (λ d. get d j) (write_cache-rows works row w) ∙ unchanged row w at)
      | inr other ↦ elim (Bool-cases (row.status =? paused)) [
        | inl idle ↦
            rw (other, idle, validate-in_progress, idle)
              (ap (λ d. get d j)
                  (write_cache-rows works (resumed_row now row)
                    (with_row i (resumed_row now row) w))
                ∙ get-put w.rows i j (resumed_row now row))
        | inr over ↦ rw (other, over, validate-in_progress, over) (unchanged row w at)
      ]
    ]

    delete-row : After (row_after delete_session row) (body works i delete_session row w).1
    unfolding body row_after
    delete-row =
        ap (λ d. get d j) (invalidate_cache-rows works (record w { rows = remove w.rows i }))
        ∙ get-remove w.rows i j

    trigger-row :
        (now : ℕ) (refused : Option Text)
        → After
            (row_after (trigger_evaluation now refused) row)
            (body works i (trigger_evaluation now refused) row w).1
    unfolding body row_after
    trigger-row now refused = elim (Bool-cases (evaluation_stands row.evaluate_status)) [
      | inl stands ↦ rw stands (unchanged row w at)
      | inr open_task ↦ rw open_task (written_and_sent false refused now (waiting_row now row) w)
    ]

    body-row : (call : VoiceCall) → After (row_after call row) (body works i call row w).1
    body-row (end_session now refused) = end-row now refused
    body-row (pause_session now) = pause-row now
    body-row (resume_session now) = resume-row now
    body-row delete_session = delete-row
    body-row (trigger_evaluation now refused) = trigger-row now refused

-- A call turns the row of its session, if there is one, into `row_after`, and no other row.
pub perform-row :
    (works : Bool) (i j : ℕ) (call : VoiceCall) (w : VoiceWorld)
    → get (perform works i call w).1.rows j
      ≡ (if i =? j then and_then (get w.rows j) (row_after call) else get w.rows j)
unfolding perform and_then
perform-row works i j call w = elim (Option-cases (get w.rows i)) [
  | inl missing ↦
      rw (perform, load_session, missing)
        (elim (Bool-cases (i =? j)) [
          | inl same ↦ rw same (
              let there : get w.rows j ≡ none =
                ap (λ k. get w.rows k) (sym ((nat_eq.beq_iff i j).0 same)) ∙ missing in
              rw there refl)
          | inr other ↦ rw other refl
        ])
  | inr (row, at) ↦
      rw (perform, load_session, at)
        (body-row i j works row w at call ∙ elim (Bool-cases (i =? j)) [
          | inl same ↦ rw same (
              let there : get w.rows j ≡ some row =
                ap (λ k. get w.rows k) (sym ((nat_eq.beq_iff i j).0 same)) ∙ at in
              rw there refl)
          | inr other ↦ rw other refl
        ])
]
