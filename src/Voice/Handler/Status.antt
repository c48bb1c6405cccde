-- ===== src/Voice/Handler/Status.antt =====
-- The status that a connection starts from, and what the pause after a timeout does to it.
use interview_agent_py.Prelude.{
  ℕ, ◌≡◌, inl, inr, refl, ap, ◌∙◌, Option, none, some, true, Option-cases, nat_eq, subst, =?-refl,
}
use interview_agent_py.Prelude.Dict.{get, get-put_self}
use interview_agent_py.Voice.{VoiceSessionStatus, in_progress, voice_status_eq}
use interview_agent_py.Voice.Table.{
  VoiceSession, CachedVoiceSession, VoiceSessionHash, VoiceWorld, with_row,
}
use interview_agent_py.Voice.Service.{resume_session, perform, resumed_row, paused_row}
use interview_agent_py.Voice.Service.Cached.{Agrees, IsCoherent}
use interview_agent_py.Voice.Service.Rows.{perform-row, row_after, and_then}
use interview_agent_py.Voice.Handler.{load_session_status, pause_on_timeout, admit, admitted}

abbrev stored_status : Option VoiceSession → Option VoiceSessionStatus
stored_status none = none
stored_status (some row) = some row.status

-- If the snapshots are in step with the table, a connection starts from the status in the table.
pub load_session_status-IsCoherent :
    (i : ℕ) (row : VoiceSession) (w : VoiceWorld)
    → IsCoherent w
    → get w.rows i ≡ some row
    → load_session_status true i w ≡ some row.status
unfolding load_session_status
load_session_status-IsCoherent i row w coherent at = elim (Option-cases (get w.cache i)) [
  | inl missing ↦ rw (load_session_status, missing, at) refl
  | inr (cached, here) ↦
      let same : cached.status ≡ row.status =
        ap (λ (c : CachedVoiceSession). c.status)
          (subst (λ o. Agrees i o (some cached)) at
            (subst (Agrees i (get w.rows i)) here (coherent i))) in
      rw (load_session_status, here) (ap some same)
]

-- The pause after a timeout leaves the snapshot: a session that is cached as IN_PROGRESS is PAUSED in
-- the table, and the next connection is admitted all the same.
pub pause_on_timeout-admitted :
    (i now : ℕ) (row : VoiceSession) (cached : VoiceSessionHash) (w : VoiceWorld)
    → get w.rows i ≡ some row
    → get w.cache i ≡ some cached
    → cached.status ≡ in_progress
    → (get (pause_on_timeout i now w).rows i ≡ some (paused_row now row))
      × (admit (load_session_status true i (pause_on_timeout i now w)) ≡ admitted)
unfolding pause_on_timeout load_session_status admit
pause_on_timeout-admitted i now row cached w at here live = (
  rw (pause_on_timeout, at) (get-put_self w.rows i (paused_row now row)),
  rw (pause_on_timeout, at, here, live) refl,
)

-- The pause after a timeout does not look at the status, so a session that was finished, too, is
-- PAUSED by it and can be resumed.
pub pause_on_timeout-reopened :
    (i now later : ℕ) (row : VoiceSession) (w : VoiceWorld)
    → get w.rows i ≡ some row
    → get (perform true i (resume_session later) (pause_on_timeout i now w)).1.rows i
      ≡ some (resumed_row later (paused_row now row))
unfolding pause_on_timeout and_then row_after
pause_on_timeout-reopened i now later row w at =
    rw (pause_on_timeout, at)
      (perform-row true i i (resume_session later) (with_row i (paused_row now row) w)
        ∙ rw (=?-refl i, get-put_self w.rows i (paused_row now row)) refl)
