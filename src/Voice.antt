-- ===== src/Voice.antt =====
-- domain/entities/voice_interview.py: the statuses, the phases and the limits of each phase.
pub mod State
pub mod Phase
pub mod Dialogue
pub mod Table
pub mod Service
pub mod Handler
pub mod Jobs
mod Examples
use interview_agent_py.Prelude.{ℕ, ◌*◌, ◌≡◌, ◌↔◌, Option, none, some, true, arith, ◌==◌, Eq}

pub data VoiceSessionStatus : Type 0 where
  in_progress paused completed failed : VoiceSessionStatus

abbrev pub status_number : VoiceSessionStatus → ℕ
status_number in_progress = 0
status_number paused = 1
status_number completed = 2
status_number failed = 3

pub status_number_iff :
    (a b : VoiceSessionStatus) → ((status_number a == status_number b) ≡ true) ↔ (a ≡ b)
status_number_iff a b = ground arith

instance abbrev pub voice_status_eq : Eq VoiceSessionStatus
voice_status_eq = record {
  beq = λ a b. status_number a == status_number b;
  beq_iff = status_number_iff;
}

pub data InterviewPhase : Type 0 where
  intro tech project hr finished : InterviewPhase

-- The place of a phase in INTRO, TECH, PROJECT, HR, COMPLETED (here `finished`).
abbrev pub phase_number : InterviewPhase → ℕ
phase_number intro = 0
phase_number tech = 1
phase_number project = 2
phase_number hr = 3
phase_number finished = 4

pub phase_number_iff :
    (a b : InterviewPhase) → ((phase_number a == phase_number b) ≡ true) ↔ (a ≡ b)
phase_number_iff a b = ground arith

instance abbrev pub phase_eq : Eq InterviewPhase
phase_eq = record { beq = λ a b. phase_number a == phase_number b; beq_iff = phase_number_iff }

pub record PhaseConfig : Type 0 where
  pub phase : InterviewPhase
  pub min_duration_seconds : ℕ
  pub suggested_duration_seconds : ℕ
  pub max_duration_seconds : ℕ
  pub min_questions : ℕ
  pub max_questions : ℕ

-- `PHASE_CONFIGS.get(phase)`
unfoldable pub phase_config : InterviewPhase → Option PhaseConfig
phase_config intro = some (record {
  phase = intro;
  min_duration_seconds = 3 * 60;
  suggested_duration_seconds = 5 * 60;
  max_duration_seconds = 8 * 60;
  min_questions = 2;
  max_questions = 5;
})
phase_config tech = some (record {
  phase = tech;
  min_duration_seconds = 8 * 60;
  suggested_duration_seconds = 10 * 60;
  max_duration_seconds = 15 * 60;
  min_questions = 3;
  max_questions = 8;
})
phase_config project = some (record {
  phase = project;
  min_duration_seconds = 8 * 60;
  suggested_duration_seconds = 10 * 60;
  max_duration_seconds = 15 * 60;
  min_questions = 2;
  max_questions = 5;
})
phase_config hr = some (record {
  phase = hr;
  min_duration_seconds = 3 * 60;
  suggested_duration_seconds = 5 * 60;
  max_duration_seconds = 8 * 60;
  min_questions = 2;
  max_questions = 5;
})
phase_config finished = none
