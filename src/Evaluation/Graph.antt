-- ===== src/Evaluation/Graph.antt =====
-- graphs/evaluation.py: the evaluation graph. The calls of the model are parameters: what each of
-- the two attempts at a batch returns or raises, and the outcome of the summary call. The prompts
-- are not modelled. Fan-out results are added in the order of the batches, as LangGraph documents.
pub mod Robust
use interview_agent_py.Prelude.{
  ℕ, ◌+◌, List, [], ◌∷◌, ◌++◌, map, Option, none, some, if◌then◌else◌, Text, codes, decimal, strip,
  is_empty, Bool, ◌||◌, join,
}
use interview_agent_py.Prelude.Int.{ℤ}
use interview_agent_py.Evaluation.{
  QaRecord, QuestionEvaluationItem, BatchReport, QaBatch, BatchResult, Summary, EvaluationReport,
}
use interview_agent_py.Evaluation.Batches.{split_batches, merge_question_evaluations}
use interview_agent_py.Evaluation.Items.{merge_list_items, sanitize_items}
use interview_agent_py.Evaluation.Report.{build_report}

pub record QuestionEvaluationOutput : Type 0 where
  pub question_index : ℤ
  pub score : ℤ
  pub feedback : Text
  pub reference_answer : Text
  pub key_points : List Text

pub record BatchEvaluationOutput : Type 0 where
  pub overall_score : ℤ
  pub overall_feedback : Text
  pub strengths : List Text
  pub improvements : List Text
  pub question_evaluations : List QuestionEvaluationOutput

pub record SummaryEvaluationOutput : Type 0 where
  pub overall_feedback : Text
  pub strengths : List Text
  pub improvements : List Text

-- A call of `invoker.invoke`: its output, or the text of the exception that it raised.
pub data Invocation : Type 0 where
  returned : BatchEvaluationOutput → Invocation
  raised : Text → Invocation

-- `invoke attempt batch`: the first call for a batch and its retry.
abbrev pub Invoker : Type 0
Invoker = Bool → QaBatch → Invocation

pub items_from : ℕ → List QuestionEvaluationOutput → List QuestionEvaluationItem
items_from index [] = []
items_from index (e ∷ es) =
    record {
      question_index = index;
      score = e.score;
      feedback = e.feedback;
      reference_answer = e.reference_answer;
      key_points = e.key_points;
    }
    ∷ items_from (index + 1) es

unfoldable pub to_batch_report : BatchEvaluationOutput → ℕ → BatchReport
unfolding items_from
to_batch_report output start_index = record {
  overall_score = output.overall_score;
  overall_feedback = output.overall_feedback;
  strengths = output.strengths;
  improvements = output.improvements;
  question_evaluations = items_from start_index output.question_evaluations;
}

-- `[{start},{end})` with what stands behind the comma.
batch_text : Text → QaBatch → Text
batch_text space batch =
    codes "["
    ++ (decimal batch.start_index
        ++ (codes "," ++ (space ++ (decimal batch.end_index ++ codes ")"))))

failure : QaBatch → Text → BatchResult × List Text
unfolding batch_text
failure batch error = (
  record { start_index = batch.start_index; end_index = batch.end_index; report = none },
  (codes "批次" ++ (batch_text [] batch ++ (codes ": " ++ error))) ∷ [],
)

success : QaBatch → BatchEvaluationOutput → BatchResult × List Text
unfolding to_batch_report
success batch output = (
  record {
    start_index = batch.start_index;
    end_index = batch.end_index;
    report = some (to_batch_report output batch.start_index);
  },
  [],
)

-- The retry: an output without evaluations is an error the second time.
retried : QaBatch → Invocation → BatchResult × List Text
unfolding failure success
retried batch (raised error) = failure batch error
retried batch (returned output) =
    if is_empty output.question_evaluations
    then failure batch (
        codes "LLM 重试后仍返回空 questionEvaluations (batch "
        ++ (batch_text (codes " ") batch ++ codes ")"))
    else success batch output

first_try : Invoker → QaBatch → Invocation → BatchResult × List Text
unfolding failure success retried
first_try invoke batch (raised error) = failure batch error
first_try invoke batch (returned output) =
    if is_empty output.question_evaluations
    then retried batch (invoke Bool.true batch)
    else success batch output

unfoldable pub evaluate_batch : Invoker → QaBatch → BatchResult × List Text
unfolding first_try
evaluate_batch invoke batch = first_try invoke batch (invoke Bool.false batch)

-- `merge_overall_feedback` of domain/services/evaluation.py.
feedbacks : List BatchResult → List Text
feedbacks [] = []
feedbacks (result ∷ results) = elim result.report [
  | none ↦ feedbacks results
  | some report ↦
      if is_empty report.overall_feedback || is_empty (strip report.overall_feedback)
      then feedbacks results
      else report.overall_feedback ∷ feedbacks results
]

unfoldable pub merge_overall_feedback : List BatchResult → Text
unfolding feedbacks
merge_overall_feedback batch_results =
    let feedback = join (10 ∷ 10 ∷ []) (feedbacks batch_results) in
    if is_empty feedback then codes "本次面试已完成分批评估，但未生成有效综合评语。" else feedback

-- The summary that stands in when the summary call fails.
unfoldable pub fallback_summary : List BatchResult → Summary
unfolding merge_overall_feedback merge_list_items
fallback_summary batch_results = record {
  overall_feedback = merge_overall_feedback batch_results;
  strengths = merge_list_items batch_results Bool.true;
  improvements = merge_list_items batch_results Bool.false;
}

unfoldable pub to_summary : SummaryEvaluationOutput → Summary → Summary
unfolding sanitize_items
to_summary output fallback = record {
  overall_feedback =
      if is_empty output.overall_feedback || is_empty (strip output.overall_feedback)
      then fallback.overall_feedback
      else output.overall_feedback;
  strengths = sanitize_items output.strengths fallback.strengths;
  improvements = sanitize_items output.improvements fallback.improvements;
}

-- `none` for a summary call that raised.
unfoldable pub summarize : List QaRecord → Option SummaryEvaluationOutput → Summary → Summary
unfolding to_summary
summarize qa_records outcome fallback =
    if is_empty qa_records
    then fallback
    else elim outcome [ none ↦ fallback | some output ↦ to_summary output fallback ]

pub results_of : List (BatchResult × List Text) → List BatchResult
results_of [] = []
results_of ((result, errors) ∷ outcomes) = result ∷ results_of outcomes

pub errors_of : List (BatchResult × List Text) → List Text
errors_of [] = []
errors_of ((result, errors) ∷ outcomes) = errors ++ errors_of outcomes

-- The results of the fan-out over the batches.
unfoldable pub batch_results : ℕ → Invoker → List QaRecord → List BatchResult
unfolding results_of evaluate_batch split_batches
batch_results batch_size invoke qa_records =
    results_of (map (evaluate_batch invoke) (split_batches qa_records batch_size))

unfoldable pub evaluate :
    ℕ → Invoker → Option SummaryEvaluationOutput → Text → List QaRecord → EvaluationReport
unfolding batch_results errors_of fallback_summary summarize merge_question_evaluations build_report
evaluate batch_size invoke summary_outcome session_id qa_records =
    let results = batch_results batch_size invoke qa_records in
    let errors = errors_of (map (evaluate_batch invoke) (split_batches qa_records batch_size)) in
    build_report session_id qa_records (merge_question_evaluations results)
      (summarize qa_records summary_outcome (fallback_summary results)) errors
