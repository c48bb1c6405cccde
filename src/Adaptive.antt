-- ===== src/Adaptive.antt =====
-- graphs/adaptive_interview.py and domain/services/adaptive_strategy.py: an interview that an agent
-- leads with tools. What a tool answers is a parameter.
pub mod Tools
pub mod Order
pub mod Strategy
pub mod Update
pub mod Graph
pub mod Service
mod Examples
use interview_agent_py.Prelude.{ℕ, List, Option, Text}
use interview_agent_py.Prelude.Int.{ℤ}
use interview_agent_py.Prelude.Dict.{Dict}

pub record QaTurn : Type 0 where
  pub question_index : ℕ
  pub question : Text
  pub category : Text
  pub difficulty : Text
  pub answer : Option Text
  pub score : Option ℤ
  pub feedback : Option Text

pub record TraceEntry : Type 0 where
  pub step : ℕ
  pub action : Text
  pub result : Text

-- The working memory of the agent, without the messages to the model.
pub record Memory : Type 0 where
  pub difficulty : Text
  pub qa_history : List QaTurn
  pub category_scores : Dict Text (List ℤ)
  pub turn_count : ℕ
  pub current_question : Option Text
  pub current_category : Option Text
  pub decision_trace : List TraceEntry

pub record QaPatch : Type 0 where
  pub question_index : ℕ
  pub score : ℤ
  pub feedback : Text

-- What a tool changes: increments, and values that take the place of the old ones.
pub record SideEffect : Type 0 where
  pub qa_patch : Option QaPatch
  pub category_scores_delta : Dict Text (List ℤ)
  pub turn_count_delta : ℕ
  pub new_question : Option Text
  pub new_category : Option Text
  pub new_difficulty : Option Text

pub record ToolEffect : Type 0 where
  pub tool_call_index : ℕ
  pub side_effect : SideEffect
  pub trace_entry : TraceEntry
