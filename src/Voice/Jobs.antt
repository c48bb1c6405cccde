-- ===== src/Voice/Jobs.antt =====
-- infrastructure/scheduler/jobs.py, with the bulk updates of voice_interview_repository.py: the jobs
-- that pause idle voice sessions and clean up stuck ones.
pub mod Idle
use interview_agent_py.Prelude.{
  ℕ, ◌-◌, ◌*◌, List, [], ◌∷◌, Option, none, some, Bool, ◌&&◌, if◌then◌else◌, ltb, ◌=?◌, Text, codes,
  option_eq,
}
use interview_agent_py.Prelude.Dict.{Dict}
use interview_agent_py.Tasks.{processing, failed, task_eq}
use interview_agent_py.Voice.{in_progress, paused, completed, voice_status_eq, finished}
use interview_agent_py.Voice.Table.{VoiceSession, VoiceWorld}
use interview_agent_py.Voice.Handler.{pause_idle_timeout_seconds}

abbrev pub zombie_session_timeout_seconds : ℕ
zombie_session_timeout_seconds = 2 * 60 * 60

abbrev pub eval_processing_timeout_seconds : ℕ
eval_processing_timeout_seconds = 30 * 60

abbrev pub eval_timeout_error : Text
eval_timeout_error = codes "评估超时，请重新触发"

-- `update(...).where(...).values(...)`; SQLAlchemy sets `updated_at` on every row that is updated.
unfoldable pub update_where :
    (VoiceSession → Bool)
    → (VoiceSession → VoiceSession)
    → Dict ℕ VoiceSession
    → Dict ℕ VoiceSession
update_where test change [] = []
update_where test change ((k, row) ∷ rows) =
    (k, (if test row then change row else row)) ∷ update_where test change rows

abbrev pub is_idle_since : ℕ → VoiceSession → Bool
is_idle_since threshold row = row.status =? in_progress && ltb row.updated_at threshold

unfoldable pub pause_idle_voice_sessions : ℕ → VoiceWorld → VoiceWorld
unfolding update_where
pause_idle_voice_sessions now w = record w {
  rows =
      update_where (is_idle_since (now - pause_idle_timeout_seconds))
        (λ row. record row { status = paused; paused_at = some now; updated_at = now }) w.rows;
}

unfoldable pub bulk_complete_zombie_sessions : ℕ → ℕ → Dict ℕ VoiceSession → Dict ℕ VoiceSession
unfolding update_where
bulk_complete_zombie_sessions threshold now rows =
    update_where (is_idle_since threshold)
      (λ row. record row {
        status = completed;
        end_time = some now;
        current_phase = finished;
        updated_at = now;
      })
      rows

abbrev pub is_stuck_since : ℕ → VoiceSession → Bool
is_stuck_since threshold row =
    row.evaluate_status =? some processing && ltb row.updated_at threshold

unfoldable pub bulk_fail_stuck_evaluations : ℕ → ℕ → Dict ℕ VoiceSession → Dict ℕ VoiceSession
unfolding update_where
bulk_fail_stuck_evaluations threshold now rows =
    update_where (is_stuck_since threshold)
      (λ row. record row {
        evaluate_status = some failed;
        evaluate_error = some eval_timeout_error;
        updated_at = now;
      })
      rows

unfoldable pub cleanup_voice_zombie_sessions : ℕ → VoiceWorld → VoiceWorld
unfolding bulk_complete_zombie_sessions bulk_fail_stuck_evaluations
cleanup_voice_zombie_sessions now w = record w {
  rows =
      bulk_fail_stuck_evaluations (now - eval_processing_timeout_seconds) now
        (bulk_complete_zombie_sessions (now - zombie_session_timeout_seconds) now w.rows);
}
