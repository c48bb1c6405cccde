-- ===== src/Voice/State.antt =====
-- domain/services/voice_session_state.py: which changes of a voice session's status are accepted.
use interview_agent_py.Prelude.{
  List, [], ◌∷◌, Bool, ◌||◌, true, ◌≡◌, ◌≢◌, ◌↔◌, if◌then◌else◌, ◌=?◌, contains, pair_eq, arith,
}
use interview_agent_py.Errors.{Result, ok, raise, bad_request}
use interview_agent_py.Voice.{
  VoiceSessionStatus, in_progress, paused, completed, failed, voice_status_eq,
}

abbrev pub valid_transitions : List (VoiceSessionStatus × VoiceSessionStatus)
valid_transitions =
    (in_progress, paused)
    ∷ (paused, in_progress)
    ∷ (in_progress, completed)
    ∷ (paused, completed)
    ∷ (in_progress, failed)
    ∷ (paused, failed)
    ∷ []

unfoldable pub validate_transition : VoiceSessionStatus → VoiceSessionStatus → Result (Unit {0})
unfolding contains
validate_transition current target =
    if contains (current, target) valid_transitions then ok tt else raise bad_request

unfoldable pub is_unfinished : VoiceSessionStatus → Bool
is_unfinished status = status =? in_progress || status =? paused

-- A change of status is accepted exactly when the session is unfinished and the target is another
-- status: COMPLETED and FAILED are final, and everything else is open to an unfinished session.
pub voice_transition-eq-ok_iff :
    (s t : VoiceSessionStatus)
    → (validate_transition s t ≡ ok tt) ↔ ((is_unfinished s ≡ true) × (s ≢ t))
unfolding validate_transition is_unfinished
voice_transition-eq-ok_iff s t = ground arith
