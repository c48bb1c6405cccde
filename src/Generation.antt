-- ===== src/Generation.antt =====
-- The generation of questions for a knowledge base: the statuses, and the columns of a knowledge
-- base that belong to it (infrastructure/db/models/knowledge_base.py).
pub mod Service
pub mod Machine
pub mod Kept
pub mod WellFormed
mod Examples
use interview_agent_py.Prelude.{ℕ, ◌≡◌, ◌↔◌, List, Option, true, arith, Eq, Text, codes, ◌==◌}
use interview_agent_py.Prelude.Dict.{Dict}

-- NONE, QUEUED, PROCESSING, COMPLETED and FAILED.
pub data GenerationStatus : Type 0 where
  idle queued processing completed failed : GenerationStatus

abbrev pub number : GenerationStatus → ℕ
number idle = 0
number queued = 1
number processing = 2
number completed = 3
number failed = 4

pub number_iff : (a b : GenerationStatus) → ((number a == number b) ≡ true) ↔ (a ≡ b)
number_iff a b = ground arith

instance abbrev pub generation_eq : Eq GenerationStatus
generation_eq = record { beq = λ a b. number a == number b; beq_iff = number_iff }

-- A knowledge base with its questions (the rows of the other table that refer to it). A question
-- is whatever the generator made; times are numbers; the vector status is the text that is stored.
pub record KnowledgeBase {ℓ} (Question : Type ℓ) : Type ℓ where
  pub vector_status : Text
  pub question_gen_status : GenerationStatus
  pub question_gen_error : Option Text
  pub question_gen_task_id : Option Text
  pub question_gen_config : Option Text
  pub question_gen_message : Option Text
  pub question_gen_saved_count : ℕ
  pub question_gen_skipped_count : ℕ
  pub question_gen_updated_at : Option ℕ
  pub questions : List Question

-- The table of knowledge bases, by id.
abbrev pub Table {ℓ} : Type ℓ → Type ℓ
Table Question = Dict ℕ (KnowledgeBase Question)

abbrev pub safe_failure_message : Text
safe_failure_message = codes "题目生成失败，请稍后重试"

-- The vector status of a knowledge base whose documents are vectorized.
abbrev pub vectorized : Text
vectorized = codes "COMPLETED"
