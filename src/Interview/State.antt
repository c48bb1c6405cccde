-- ===== src/Interview/State.antt =====
-- domain/services/session_state.py: which changes of a session's status are accepted.
use interview_agent_py.Prelude.{
  List, [], ◌∷◌, Bool, ◌&&◌, ◌||◌, if◌then◌else◌, ◌=?◌, contains, pair_eq,
}
use interview_agent_py.Errors.{Result, ok, raise, bad_request, interview_already_completed}
use interview_agent_py.Interview.{
  SessionStatus, created, in_progress, completed, evaluated, status_eq,
}

abbrev pub valid_transitions : List (SessionStatus × SessionStatus)
valid_transitions = (created, in_progress) ∷ (created, completed) ∷ (in_progress, completed) ∷ []

unfoldable pub validate_transition : SessionStatus → SessionStatus → Result (Unit {0})
unfolding contains
validate_transition current target =
    if contains (current, target) valid_transitions
    then ok tt
    else if (current =? completed || current =? evaluated) && target =? completed
    then raise interview_already_completed
    else raise bad_request

unfoldable pub is_unfinished : SessionStatus → Bool
is_unfinished status = status =? created || status =? in_progress
