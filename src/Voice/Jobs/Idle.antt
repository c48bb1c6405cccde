-- ===== src/Voice/Jobs/Idle.antt =====
-- What the jobs do to the rows, and to an interview that is not idle.
use interview_agent_py.Prelude.{
  ℕ, ◌+◌, ◌-◌, ◌<◌, ◌≡◌, inl, inr, refl, ap, ◌∙◌, List, [], ◌∷◌, Option, none, some, Bool, true,
  Bool-cases, if◌then◌else◌, ◌=?◌, ltb, nat_eq, arith, lt→ltb,
}
use interview_agent_py.Prelude.Dict.{Dict, get, get-put_self}
use interview_agent_py.Evaluation.Prompts.{VoiceMessage}
use interview_agent_py.Voice.{in_progress, paused, voice_status_eq}
use interview_agent_py.Voice.Table.{VoiceSession, VoiceWorld, with_row}
use interview_agent_py.Voice.Handler.{persist_turn, save_turn, pause_idle_timeout_seconds}
use interview_agent_py.Voice.Handler.Turns.{Turn, save_turns}
use interview_agent_py.Voice.Jobs.{update_where, is_idle_since, pause_idle_voice_sessions}

abbrev changed_where :
    (VoiceSession → Bool)
    → (VoiceSession → VoiceSession)
    → Option VoiceSession
    → Option VoiceSession
changed_where test change none = none
changed_where test change (some row) = some (if test row then change row else row)

-- A bulk update changes each row that passes the test, and no other.
pub get-update_where :
    (test : VoiceSession → Bool) (change : VoiceSession → VoiceSession) (rows : Dict ℕ VoiceSession)
    (i : ℕ)
    → get (update_where test change rows) i ≡ changed_where test change (get rows i)
unfolding update_where get
get-update_where test change [] i = refl
get-update_where test change ((k, row) ∷ rows) i = elim (Bool-cases (k =? i)) [
  | inl same ↦ rw same refl
  | inr other ↦ rw other (get-update_where test change rows i)
]

-- The turns of a connection that stays in its phases, one after the other.
unfoldable pub persist_turns : ℕ → List Turn → VoiceWorld → VoiceWorld
persist_turns i [] w = w
persist_turns i ((phase, answer, reply) ∷ turns) w =
    persist_turns i turns (persist_turn i phase answer reply w)

abbrev with_messages : List VoiceMessage → VoiceSession → VoiceSession
with_messages messages row = record row { messages = messages }

persist_turns-row :
    (i : ℕ) (turns : List Turn) (row : VoiceSession) (w : VoiceWorld)
    → get w.rows i ≡ some row
    → get (persist_turns i turns w).rows i
      ≡ some (with_messages (save_turns turns row.messages) row)
unfolding persist_turns save_turns persist_turn
persist_turns-row i [] row w at = at
persist_turns-row i ((phase, answer, reply) ∷ turns) row w at =
    let saved = with_messages (save_turn phase answer reply row.messages) row in
    let stepped : persist_turn i phase answer reply w ≡ with_row i saved w =
      rw (persist_turn, at) refl in
    ap (λ v. get (persist_turns i turns v).rows i) stepped
    ∙ persist_turns-row i turns saved (with_row i saved w) (get-put_self w.rows i saved)

-- The turns of an interview are saved without a change of the session's `updated_at`: whatever turns
-- were saved, a session in progress whose row was last updated more than five minutes ago is PAUSED
-- by the job, with all the turns.
pub pause_idle-persist_turns :
    (i now : ℕ) (turns : List Turn) (row : VoiceSession) (w : VoiceWorld)
    → get w.rows i ≡ some row
    → row.status ≡ in_progress
    → row.updated_at + pause_idle_timeout_seconds < now
    → get (pause_idle_voice_sessions now (persist_turns i turns w)).rows i
      ≡ some (record row {
        status = paused;
        paused_at = some now;
        updated_at = now;
        messages = save_turns turns row.messages;
      })
unfolding pause_idle_voice_sessions
pause_idle-persist_turns i now turns row w at live old =
    let late : ltb row.updated_at (now - pause_idle_timeout_seconds) ≡ true =
      lt→ltb row.updated_at (now - pause_idle_timeout_seconds) (omega arith) in
    get-update_where (is_idle_since (now - pause_idle_timeout_seconds))
      (λ r. record r { status = paused; paused_at = some now; updated_at = now })
      (persist_turns i turns w).rows i
    ∙ rw (persist_turns-row i turns row w at, live, late) refl
