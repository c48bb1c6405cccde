-- ===== src/Voice/Service/Final.antt =====
-- What a finished session keeps under the calls of the service, and how the status moves.
use interview_agent_py.Prelude.{
  ℕ, List, [], ◌∷◌, ◌≡◌, ◌⊎◌, inl, inr, refl, ap, sym, ◌∙◌, Option, none, some, Bool, false,
  Bool-cases, ◌=?◌, nat_eq, Text, arith, subst,
}
use interview_agent_py.Prelude.Dict.{get}
use interview_agent_py.Errors.{ok}
use interview_agent_py.Voice.{in_progress, paused, voice_status_eq}
use interview_agent_py.Voice.State.{validate_transition, is_unfinished}
use interview_agent_py.Voice.Table.{VoiceSession, VoiceWorld}
use interview_agent_py.Voice.Service.{
  VoiceCall, end_session, pause_session, resume_session, delete_session, trigger_evaluation,
  evaluation_stands, perform, ended, waiting_row,
}
use interview_agent_py.Voice.Service.Rows.{
  row_after, and_then, perform-row, sent, validate-completed, validate-paused, validate-in_progress,
}

-- What a finished session keeps, as long as it is there.
abbrev pub Kept : VoiceSession → Option VoiceSession → Type 0
Kept row none = Unit
Kept row (some later) =
    (later.status ≡ row.status)
    × (later.current_phase ≡ row.current_phase)
    × (later.end_time ≡ row.end_time)
    × (later.actual_duration ≡ row.actual_duration)
    × (later.messages ≡ row.messages)

-- The calls of a service, in turn, each with its session and whether Redis works then.
unfoldable pub run : List (Bool × ℕ × VoiceCall) → VoiceWorld → VoiceWorld
run [] w = w
run ((works, i, call) ∷ calls) w = run calls (perform works i call w).1

sent-Kept :
    (base row : VoiceSession) (refused : Option Text) (now : ℕ)
    → Kept base (some row)
    → Kept base (some (sent refused now row))
sent-Kept base row none now kept = kept
sent-Kept base row (some error) now kept = kept

row_after-Kept :
    (base row : VoiceSession) (call : VoiceCall)
    → is_unfinished row.status ≡ false
    → Kept base (some row)
    → Kept base (row_after call row)
unfolding row_after is_unfinished
row_after-Kept base row (end_session now refused) over kept = rw over kept
row_after-Kept base row (pause_session now) over kept =
    let idle : (row.status =? in_progress) ≡ false = ground arith in rw idle kept
row_after-Kept base row (resume_session now) over kept =
    let idle : (row.status =? paused) ≡ false = ground arith in rw idle kept
row_after-Kept base row delete_session over kept = tt
row_after-Kept base row (trigger_evaluation now refused) over kept =
    elim (Bool-cases (evaluation_stands row.evaluate_status)) [
      | inl stands ↦ rw stands kept
      | inr open_task ↦ rw open_task (sent-Kept base (waiting_row now row) refused now kept)
    ]

and_then-Kept :
    (base : VoiceSession) (o : Option VoiceSession) (call : VoiceCall)
    → is_unfinished base.status ≡ false
    → Kept base o
    → Kept base (and_then o (row_after call))
unfolding and_then
and_then-Kept base none call over kept = tt
and_then-Kept base (some row) call over kept =
    row_after-Kept base row call (ap is_unfinished kept.0 ∙ over) kept

perform-Kept :
    (base : VoiceSession) (works : Bool) (i j : ℕ) (call : VoiceCall) (w : VoiceWorld)
    → is_unfinished base.status ≡ false
    → Kept base (get w.rows j)
    → Kept base (get (perform works i call w).1.rows j)
perform-Kept base works i j call w over kept =
    subst (Kept base) (sym (perform-row works i j call w)) (elim (Bool-cases (i =? j)) [
      | inl same ↦ rw same (and_then-Kept base (get w.rows j) call over kept)
      | inr other ↦ rw other kept
    ])

run-Kept_from :
    (base : VoiceSession) (j : ℕ) (calls : List (Bool × ℕ × VoiceCall)) (w : VoiceWorld)
    → is_unfinished base.status ≡ false
    → Kept base (get w.rows j)
    → Kept base (get (run calls w).rows j)
unfolding run
run-Kept_from base j [] w over kept = kept
run-Kept_from base j ((works, i, call) ∷ calls) w over kept =
    run-Kept_from base j calls (perform works i call w).1 over
      (perform-Kept base works i j call w over kept)

-- A session that is COMPLETED or FAILED keeps its status, phase, end time, duration and messages
-- under any calls of the service on any sessions, until it is deleted.
pub run-Kept :
    (row : VoiceSession) (j : ℕ) (calls : List (Bool × ℕ × VoiceCall)) (w : VoiceWorld)
    → get w.rows j ≡ some row
    → is_unfinished row.status ≡ false
    → Kept row (get (run calls w).rows j)
run-Kept row j calls w at over =
    run-Kept_from row j calls w over (subst (Kept row) (sym at) (refl, refl, refl, refl, refl))

-- The status stays or makes a change that `validate_transition` accepts.
abbrev pub Accepted : VoiceSession → Option VoiceSession → Type 0
Accepted row none = Unit
Accepted row (some later) =
    (later.status ≡ row.status) ⊎ (validate_transition row.status later.status ≡ ok tt)

sent-Accepted :
    (row later : VoiceSession) (refused : Option Text) (now : ℕ)
    → Accepted row (some later)
    → Accepted row (some (sent refused now later))
sent-Accepted row later none now h = h
sent-Accepted row later (some error) now h = h

row_after-Accepted : (row : VoiceSession) (call : VoiceCall) → Accepted row (row_after call row)
unfolding row_after
row_after-Accepted row (end_session now refused) = elim (Bool-cases (is_unfinished row.status)) [
  | inl open_session ↦ rw open_session (
      sent-Accepted row (ended now row) refused now
        (inr (validate-completed row.status ∙ rw open_session refl)))
  | inr over ↦ rw over (inl refl)
]
row_after-Accepted row (pause_session now) = elim (Bool-cases (row.status =? in_progress)) [
  | inl live ↦ rw live (inr (validate-paused row.status ∙ rw live refl))
  | inr over ↦ rw over (inl refl)
]
row_after-Accepted row (resume_session now) = elim (Bool-cases (row.status =? paused)) [
  | inl idle ↦ rw idle (inr (validate-in_progress row.status ∙ rw idle refl))
  | inr over ↦ rw over (inl refl)
]
row_after-Accepted row delete_session = tt
row_after-Accepted row (trigger_evaluation now refused) =
    elim (Bool-cases (evaluation_stands row.evaluate_status)) [
      | inl stands ↦ rw stands (inl refl)
      | inr open_task ↦
          rw open_task (sent-Accepted row (waiting_row now row) refused now (inl refl))
    ]

-- Whatever session a call is for, the status of every session that is still there stays or makes a
-- change that the state machine accepts.
pub perform-Accepted :
    (works : Bool) (i j : ℕ) (call : VoiceCall) (w : VoiceWorld) (row : VoiceSession)
    → get w.rows j ≡ some row
    → Accepted row (get (perform works i call w).1.rows j)
unfolding and_then
perform-Accepted works i j call w row at =
    subst (Accepted row) (sym (perform-row works i j call w)) (elim (Bool-cases (i =? j)) [
      | inl same ↦ rw (same, at) (row_after-Accepted row call)
      | inr other ↦ rw (other, at) (inl refl)
    ])
