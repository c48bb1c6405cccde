-- ===== src/Voice/Service.antt =====
-- application/voice/service.py: the life of a voice session. The time, whether Redis works and
-- whether the stream takes a task (or its error) are arguments.
pub mod Rows
pub mod Final
pub mod Cached
use interview_agent_py.Prelude.{
  ℕ, ◌+◌, List, [], Option, none, some, Bool, true, false, if◌then◌else◌, ◌=?◌, ◌||◌, Text, codes,
  option_eq, nat_eq,
}
use interview_agent_py.Prelude.Int.{ℤ, sub_ℕ}
use interview_agent_py.Prelude.Dict.{Dict, get, put, remove}
use interview_agent_py.Errors.{Result, ok, raise, ErrorCode, ◌>>=◌, provider_not_found}
use interview_agent_py.Tasks.{AsyncTaskStatus, pending, processing, completed, task_eq}
use interview_agent_py.Voice.{
  VoiceSessionStatus, in_progress, paused, voice_status_eq, InterviewPhase, intro, tech, project,
  hr, finished,
}
use interview_agent_py.Voice as Voice
use interview_agent_py.Voice.State.{validate_transition}
use interview_agent_py.Voice.Table.{
  VoiceSession, VoiceWorld, VoiceOp, with_row, load_session, write_cache, invalidate_cache,
  send_task,
}

pub record CreateVoiceSessionRequest : Type 0 where
  pub role_type : Text
  pub skill_id : Text
  pub difficulty : Text
  pub custom_jd_text : Option Text
  pub resume_id : Option ℕ
  pub intro_enabled : Bool
  pub tech_enabled : Bool
  pub project_enabled : Bool
  pub hr_enabled : Bool
  pub llm_provider : Option Text
  pub planned_duration : ℕ

abbrev pub default_user_id : Text
default_user_id = codes "default"

unfoldable pub determine_first_phase : CreateVoiceSessionRequest → InterviewPhase
determine_first_phase request =
    if request.intro_enabled
    then intro
    else if request.tech_enabled
    then tech
    else if request.project_enabled
    then project
    else if request.hr_enabled
    then hr
    else intro

abbrev pub new_session : CreateVoiceSessionRequest → ℕ → VoiceSession
new_session request now = record {
  user_id = default_user_id;
  role_type = request.role_type;
  skill_id = request.skill_id;
  difficulty = request.difficulty;
  custom_jd_text = request.custom_jd_text;
  resume_id = request.resume_id;
  intro_enabled = request.intro_enabled;
  tech_enabled = request.tech_enabled;
  project_enabled = request.project_enabled;
  hr_enabled = request.hr_enabled;
  llm_provider = request.llm_provider;
  current_phase = determine_first_phase request;
  status = in_progress;
  planned_duration = request.planned_duration;
  actual_duration = none;
  start_time = now;
  end_time = none;
  updated_at = now;
  paused_at = none;
  resumed_at = none;
  evaluate_status = none;
  evaluate_error = none;
  messages = [];
}

-- A call of the service on a session; the flag tells whether Redis works.
pub data VoiceCall : Type 0 where
  end_session : ℕ → Option Text → VoiceCall
  pause_session : ℕ → VoiceCall
  resume_session : ℕ → VoiceCall
  delete_session : VoiceCall
  trigger_evaluation : ℕ → Option Text → VoiceCall

abbrev pub ended : ℕ → VoiceSession → VoiceSession
ended now row = record row {
  end_time = some now;
  current_phase = finished;
  status = Voice.completed;
  actual_duration = some (sub_ℕ now row.start_time);
  evaluate_status = some pending;
  evaluate_error = none;
  updated_at = now;
}

abbrev pub paused_row : ℕ → VoiceSession → VoiceSession
paused_row now row = record row { status = paused; paused_at = some now; updated_at = now }

abbrev pub resumed_row : ℕ → VoiceSession → VoiceSession
resumed_row now row = record row { status = in_progress; resumed_at = some now; updated_at = now }

abbrev pub waiting_row : ℕ → VoiceSession → VoiceSession
waiting_row now row = record row {
  evaluate_status = some pending;
  evaluate_error = none;
  updated_at = now;
}

-- `current in (COMPLETED, PENDING, PROCESSING)`
unfoldable pub evaluation_stands : Option AsyncTaskStatus → Bool
evaluation_stands current =
    current =? some completed || current =? some pending || current =? some processing

-- After a check that may raise.
abbrev pub if_accepted :
    {A : Type 0} → Result (Unit {0}) → A × VoiceWorld → VoiceWorld → Result A × VoiceWorld
if_accepted (ok _) (a, w') w = (ok a, w')
if_accepted (raise e) after w = (raise e, w)

module _ (cache_works : Bool) (session_id : ℕ) where
  -- The body of each method, after the session is loaded.
  unfoldable pub body : VoiceCall → VoiceSession → VoiceOp (Unit {0})
  unfolding evaluation_stands invalidate_cache write_cache send_task
  body (end_session now refused) row w =
      if_accepted (validate_transition row.status Voice.completed)
        (
          tt,
          send_task refused session_id now
              (invalidate_cache cache_works session_id (with_row session_id (ended now row) w)),
        )
        w
  body (pause_session now) row w =
      if_accepted (validate_transition row.status paused)
        (tt, invalidate_cache cache_works session_id (with_row session_id (paused_row now row) w)) w
  body (resume_session now) row w =
      if row.status =? in_progress
      then (ok tt, write_cache cache_works session_id row w)
      else if_accepted (validate_transition row.status in_progress)
          (
            tt,
            write_cache cache_works session_id (resumed_row now row)
                (with_row session_id (resumed_row now row) w),
          )
          w
  body delete_session row w = (
    ok tt,
    invalidate_cache cache_works session_id (record w { rows = remove w.rows session_id }),
  )
  body (trigger_evaluation now refused) row w =
      if evaluation_stands row.evaluate_status
      then (ok tt, w)
      else (ok tt, send_task refused session_id now (with_row session_id (waiting_row now row) w))

  unfoldable pub perform : VoiceCall → VoiceOp (Unit {0})
  unfolding body load_session
  perform call = load_session session_id (body call)

-- The new session's id; the provider that is named must be known.
unfoldable pub create_session : Bool → Bool → CreateVoiceSessionRequest → ℕ → VoiceOp ℕ
unfolding write_cache
create_session cache_works provider_known request now w =
    let row = new_session request now in
    let saved = record w { rows = put w.rows w.next_id row; next_id = w.next_id + 1 } in
    if provider_known
    then (ok w.next_id, write_cache cache_works w.next_id row saved)
    else (raise provider_not_found, w)
