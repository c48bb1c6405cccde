-- ===== src/Evaluation/Batches.antt =====
-- `split_batches` and `merge_question_evaluations` of domain/services/evaluation.py.
pub mod Split
pub mod Align
use interview_agent_py.Prelude.{
  ℕ, zero, suc, ◌+◌, ◌-◌, max, min, List, [], ◌∷◌, ◌++◌, map, Option, none, some, ltb,
  if◌then◌else◌, codes, length, take, drop, get_elem?,
}
use interview_agent_py.Prelude.Int.{pos}
use interview_agent_py.Evaluation.{
  QaRecord, QuestionEvaluationItem, BatchReport, QaBatch, BatchResult,
}

-- `range(start, stop, step)` on fuel: each number is one longer way from the start than the last,
-- so `stop` is fuel enough.
pub range_step : ℕ → ℕ → ℕ → ℕ → List ℕ
range_step zero start stop step = []
range_step (suc fuel) start stop step =
    let rest = range_step fuel (start + step) stop step in
    if ltb start stop then start ∷ rest else []

-- `xs[start:end]`
pub slice {ℓ} : {A : Type ℓ} → List A → ℕ → ℕ → List A
slice xs start end = take (end - start) (drop start xs)

pub batch_at : List QaRecord → ℕ → ℕ → QaBatch
unfolding slice
batch_at qa_records size start =
    let end = min (start + size) (length qa_records) in
    record { start_index = start; end_index = end; records = slice qa_records start end }

-- With no records the range is empty, which is the early return of the source.
unfoldable pub split_batches : List QaRecord → ℕ → List QaBatch
unfolding range_step batch_at
split_batches qa_records batch_size =
    let size = max 1 batch_size in
    map (batch_at qa_records size) (range_step (length qa_records) 0 (length qa_records) size)

-- `_NO_EVAL_FEEDBACK`, and the item that stands in for a missing evaluation.
unfoldable pub missing_item : ℕ → QuestionEvaluationItem
missing_item index = record {
  question_index = index;
  score = pos 0;
  feedback = codes "该题未成功生成评估结果，系统按 0 分处理。";
  reference_answer = [];
  key_points = [];
}

unfoldable pub current_items : BatchResult → List QuestionEvaluationItem
current_items result = elim result.report [ none ↦ [] | some report ↦ report.question_evaluations ]

-- `current[i]` if it is there, and an item of zero points if not.
unfoldable pub item_at : BatchResult → ℕ → QuestionEvaluationItem
unfolding current_items missing_item
item_at result i = elim (get_elem? (current_items result) i) [
  | some item ↦ item
  | none ↦ missing_item (result.start_index + i)
]

-- The inner loop, from `i` on, with `left` rounds to go.
pub merge_batch : BatchResult → ℕ → ℕ → List QuestionEvaluationItem
unfolding item_at
merge_batch result i zero = []
merge_batch result i (suc left) = item_at result i ∷ merge_batch result (i + 1) left

unfoldable pub merge_question_evaluations : List BatchResult → List QuestionEvaluationItem
unfolding merge_batch
merge_question_evaluations [] = []
merge_question_evaluations (result ∷ results) =
    merge_batch result 0 (result.end_index - result.start_index)
    ++ merge_question_evaluations results
