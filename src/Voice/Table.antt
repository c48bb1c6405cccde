-- ===== src/Voice/Table.antt =====
-- infrastructure/db/models/voice_interview.py, infrastructure/redis/voice_session_cache.py and
-- infrastructure/db/repositories/voice_interview_repository.py: the table of voice sessions, with the
-- messages of each, the cached hashes, and the steps that the callers are made of. Times are in
-- whole seconds. The database is taken to work; a commit of changed columns sets `updated_at`.
use interview_agent_py.Prelude.{
  ℕ, List, [], ◌∷◌, ◌++◌, Option, none, some, Bool, true, false, Text, codes, nat_eq,
}
use interview_agent_py.Prelude.Int.{ℤ}
use interview_agent_py.Prelude.Dict.{Dict, get, put, remove}
use interview_agent_py.Session.{or_empty, or_none}
use interview_agent_py.Errors.{Result, raise, voice_session_not_found}
use interview_agent_py.Tasks.{AsyncTaskStatus, failed}
use interview_agent_py.Evaluation.Prompts.{VoiceMessage}
use interview_agent_py.Voice.{
  VoiceSessionStatus, InterviewPhase, intro, tech, project, hr, finished,
}

pub record VoiceSession : Type 0 where
  pub user_id : Text
  pub role_type : Text
  pub skill_id : Text
  pub difficulty : Text
  pub custom_jd_text : Option Text
  pub resume_id : Option ℕ
  pub intro_enabled : Bool
  pub tech_enabled : Bool
  pub project_enabled : Bool
  pub hr_enabled : Bool
  pub llm_provider : Option Text
  pub current_phase : InterviewPhase
  pub status : VoiceSessionStatus
  pub planned_duration : ℕ
  pub actual_duration : Option ℤ
  pub start_time : ℕ
  pub end_time : Option ℕ
  pub updated_at : ℕ
  pub paused_at : Option ℕ
  pub resumed_at : Option ℕ
  pub evaluate_status : Option AsyncTaskStatus
  pub evaluate_error : Option Text
  pub messages : List VoiceMessage

pub record CachedVoiceSession : Type 0 where
  pub session_id : ℕ
  pub user_id : Text
  pub role_type : Text
  pub skill_id : Text
  pub difficulty : Text
  pub current_phase : InterviewPhase
  pub status : VoiceSessionStatus
  pub resume_id : Option ℕ
  pub llm_provider : Option Text

-- The hash that Redis holds. A number and its `str` stand for each other, and so do the values of a
-- phase and of a status; the text of a missing number is the empty one.
pub record VoiceSessionHash : Type 0 where
  pub user_id : Text
  pub role_type : Text
  pub skill_id : Text
  pub difficulty : Text
  pub current_phase : InterviewPhase
  pub status : VoiceSessionStatus
  pub resume_id : Option ℕ
  pub llm_provider : Text

-- `save_session`
abbrev pub to_hash : CachedVoiceSession → VoiceSessionHash
to_hash snapshot = record {
  user_id = snapshot.user_id;
  role_type = snapshot.role_type;
  skill_id = snapshot.skill_id;
  difficulty = snapshot.difficulty;
  current_phase = snapshot.current_phase;
  status = snapshot.status;
  resume_id = snapshot.resume_id;
  llm_provider = or_empty snapshot.llm_provider;
}

abbrev pub parse_cached_session : ℕ → VoiceSessionHash → CachedVoiceSession
parse_cached_session session_id raw = record {
  session_id = session_id;
  user_id = raw.user_id;
  role_type = raw.role_type;
  skill_id = raw.skill_id;
  difficulty = raw.difficulty;
  current_phase = raw.current_phase;
  status = raw.status;
  resume_id = raw.resume_id;
  llm_provider = or_none raw.llm_provider;
}

-- The table by primary key, the next key, the cached hashes by key, and the sessions in the stream of
-- evaluation tasks.
pub record VoiceWorld : Type 0 where
  pub rows : Dict ℕ VoiceSession
  pub next_id : ℕ
  pub cache : Dict ℕ VoiceSessionHash
  pub tasks : List ℕ

abbrev pub VoiceOp : Type 0 → Type 0
VoiceOp A = VoiceWorld → Result A × VoiceWorld

-- `InterviewPhase.value`
unfoldable pub phase_value : InterviewPhase → Text
phase_value intro = codes "INTRO"
phase_value tech = codes "TECH"
phase_value project = codes "PROJECT"
phase_value hr = codes "HR"
phase_value finished = codes "COMPLETED"

abbrev pub with_row : ℕ → VoiceSession → VoiceWorld → VoiceWorld
with_row session_id row w = record w { rows = put w.rows session_id row }

-- `_load_session`, and what follows it.
unfoldable pub load_session : {A : Type 0} → ℕ → (VoiceSession → VoiceOp A) → VoiceOp A
load_session session_id next w = elim (get w.rows session_id) [
  | none ↦ (raise voice_session_not_found, w)
  | some row ↦ next row w
]

abbrev pub to_cache_snapshot : ℕ → VoiceSession → CachedVoiceSession
to_cache_snapshot session_id row = record {
  session_id = session_id;
  user_id = row.user_id;
  role_type = row.role_type;
  skill_id = row.skill_id;
  difficulty = row.difficulty;
  current_phase = row.current_phase;
  status = row.status;
  resume_id = row.resume_id;
  llm_provider = row.llm_provider;
}

-- `_write_cache`; the flag tells whether Redis worked, and a failure is only logged.
unfoldable pub write_cache : Bool → ℕ → VoiceSession → VoiceWorld → VoiceWorld
write_cache false session_id row w = w
write_cache true session_id row w = record w {
  cache = put w.cache session_id (to_hash (to_cache_snapshot session_id row));
}

unfoldable pub invalidate_cache : Bool → ℕ → VoiceWorld → VoiceWorld
invalidate_cache false session_id w = w
invalidate_cache true session_id w = record w { cache = remove w.cache session_id }

-- `send_task` with `on_send_failed`, whose failure to write is left out.
unfoldable pub send_task : Option Text → ℕ → ℕ → VoiceWorld → VoiceWorld
send_task none session_id now w = record w { tasks = w.tasks ++ session_id ∷ [] }
send_task (some error) session_id now w = elim (get w.rows session_id) [
  | none ↦ w
  | some row ↦
      with_row session_id
        (record row {
          evaluate_status = some failed;
          evaluate_error = some error;
          updated_at = now;
        })
        w
]
