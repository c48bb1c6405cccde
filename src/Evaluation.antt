-- ===== src/Evaluation.antt =====
-- domain/entities/evaluation.py: the records of the evaluation of an interview. A score is whatever
-- integer the model returned: the schema does not bound it.
pub mod Batches
pub mod Items
pub mod Prompts
pub mod Report
pub mod Graph
mod Examples
use interview_agent_py.Prelude.{ℕ, List, Option, some, none, Text, Bool, true, false, not, is_empty}
use interview_agent_py.Prelude.Int.{ℤ}

pub record QaRecord : Type 0 where
  pub question_index : ℕ
  pub question : Text
  pub category : Text
  pub user_answer : Option Text

pub record QuestionEvaluationItem : Type 0 where
  pub question_index : ℕ
  pub score : ℤ
  pub feedback : Text
  pub reference_answer : Text
  pub key_points : List Text

pub record BatchReport : Type 0 where
  pub overall_score : ℤ
  pub overall_feedback : Text
  pub strengths : List Text
  pub improvements : List Text
  pub question_evaluations : List QuestionEvaluationItem

pub record QaBatch : Type 0 where
  pub start_index : ℕ
  pub end_index : ℕ
  pub records : List QaRecord

-- No report: the batch failed.
pub record BatchResult : Type 0 where
  pub start_index : ℕ
  pub end_index : ℕ
  pub report : Option BatchReport

pub record Summary : Type 0 where
  pub overall_feedback : Text
  pub strengths : List Text
  pub improvements : List Text

pub record CategoryScore : Type 0 where
  pub category : Text
  pub score : ℤ
  pub question_count : ℕ

pub record QuestionEvaluation : Type 0 where
  pub question_index : ℕ
  pub question : Text
  pub category : Text
  pub user_answer : Option Text
  pub score : ℤ
  pub feedback : Text

pub record ReferenceAnswer : Type 0 where
  pub question_index : ℕ
  pub question : Text
  pub reference_answer : Text
  pub key_points : List Text

pub record EvaluationReport : Type 0 where
  pub session_id : Text
  pub total_questions : ℕ
  pub overall_score : ℤ
  pub category_scores : List CategoryScore
  pub question_details : List QuestionEvaluation
  pub overall_feedback : Text
  pub strengths : List Text
  pub improvements : List Text
  pub reference_answers : List ReferenceAnswer
  pub degraded_reasons : List Text

-- `bool(answer)`: neither `None` nor the empty text.
unfoldable pub has_text : Option Text → Bool
has_text none = false
has_text (some s) = not (is_empty s)
