-- ===== src/Interview.antt =====
-- domain/entities/interview.py: questions, session statuses and the constants of the question path.
pub mod State
pub mod Machine
pub mod Codec
pub mod RoundTrip
pub mod Numbered
mod Examples
use interview_agent_py.Prelude.{
  ℕ, ◌↔◌, ◌≡◌, List, [], Option, none, some, Bool, true, false, arith, Eq, Text, ◌==◌,
}
use interview_agent_py.Prelude.Int.{ℤ}

pub data SessionStatus : Type 0 where
  created in_progress completed evaluated : SessionStatus

-- The position of a status in the lifecycle CREATED, IN_PROGRESS, COMPLETED, EVALUATED.
abbrev pub stage : SessionStatus → ℕ
stage created = 0
stage in_progress = 1
stage completed = 2
stage evaluated = 3

pub stage_iff : (a b : SessionStatus) → ((stage a == stage b) ≡ true) ↔ (a ≡ b)
stage_iff a b = ground arith

instance abbrev pub status_eq : Eq SessionStatus
status_eq = record { beq = λ a b. stage a == stage b; beq_iff = stage_iff }

pub record InterviewQuestion : Type 0 where
  pub question_index : ℕ
  pub question : Text
  pub type : Text
  pub category : Text
  pub topic_summary : Option Text
  pub user_answer : Option Text
  pub score : Option ℤ
  pub feedback : Option Text
  pub is_follow_up : Bool
  pub parent_question_index : Option ℕ
  pub reference_answer : Option Text
  pub key_points : List Text
  pub scoring_rubric : Option Text
  pub source_context : Option Text

abbrev pub with_answer : InterviewQuestion → Text → InterviewQuestion
with_answer q answer = record q { user_answer = some answer }

pub record HistoricalQuestion : Type 0 where
  pub question : Text
  pub type : Option Text
  pub topic_summary : Option Text

abbrev pub max_follow_up : ℕ
max_follow_up = 2

abbrev pub max_historical_questions : ℕ
max_historical_questions = 60
