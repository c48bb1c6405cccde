-- ===== src/Evaluation/Graph/Robust.antt =====
-- The report covers every question, whatever the model does.
use interview_agent_py.Prelude.{
  ℕ, zero, suc, ◌+◌, ◌-◌, ◌≤◌, ◌<◌, ◌≡◌, refl, ap, sym, ◌∙◌, List, [], ◌∷◌, map, none, some, Option,
  Bool, true, false, inl, inr, Bool-cases, Option-cases, subst, if◌then◌else◌, length, get_elem?,
  arith, Text, is_empty, max, lt-length_of_get_elem?,
}
use native.Mathlib.Decide.{dec_lt}
use interview_agent_py.Prelude.Int.{pos}
use interview_agent_py.Evaluation.{
  QaRecord, QaBatch, QuestionEvaluationItem, BatchResult, QuestionEvaluation, has_text,
}
use interview_agent_py.Evaluation.Batches.{
  split_batches, merge_question_evaluations, item_at, missing_item, current_items,
}
use interview_agent_py.Evaluation.Batches.Split.{Tiles, span, split_batches-Tiles}
use interview_agent_py.Evaluation.Batches.Align.{result_span, length-merge, get_elem?-merge}
use interview_agent_py.Evaluation.Report.{question_detail, build_report}
use interview_agent_py.Evaluation.Report.Overall.{get_elem?-details_from}
use interview_agent_py.Evaluation.Graph.{
  QuestionEvaluationOutput, BatchEvaluationOutput, to_batch_report, Invocation, returned, raised,
  Invoker, items_from, evaluate_batch, batch_results, results_of, success, failure, retried,
  first_try, SummaryEvaluationOutput, evaluate,
}

module _ (invoke : Invoker) where
  -- A result keeps the range of its batch.
  span-evaluate_batch : (batch : QaBatch) → result_span (evaluate_batch invoke batch).0 ≡ span batch
  unfolding evaluate_batch
  span-evaluate_batch batch = ground arith

  spans-results :
      (batches : List QaBatch)
      → map result_span (results_of (map (evaluate_batch invoke) batches)) ≡ map span batches
  unfolding results_of
  spans-results [] = refl
  spans-results (b ∷ bs) = cc (span-evaluate_batch b, spans-results bs)

  pub batch_results-Tiles :
      (size : ℕ) (qa : List QaRecord)
      → Tiles (max 1 size) 0 (map result_span (batch_results size invoke qa)) (length qa)
  unfolding batch_results
  batch_results-Tiles size qa = rw spans-results (split_batches-Tiles qa size).1

  pub length-merged :
      (size : ℕ) (qa : List QaRecord)
      → length (merge_question_evaluations (batch_results size invoke qa)) ≡ length qa
  length-merged size qa = omega (
    arith,
    length-merge (max 1 size) 0 (length qa) (batch_results size invoke qa)
        (batch_results-Tiles size qa),
  )

-- Every item carries the index of its question.
IsIndexed : BatchResult → Type 0
IsIndexed r = (i : ℕ) → (item_at r i).question_index ≡ r.start_index + i

index-items_from :
    (s i : ℕ) (es : List QuestionEvaluationOutput) (item : QuestionEvaluationItem)
    → get_elem? (items_from s es) i ≡ some item
    → item.question_index ≡ s + i
unfolding items_from
index-items_from s i [] item at = absurd (ground arith)
index-items_from s zero (e ∷ es) item at = ground arith
index-items_from s (suc i) (e ∷ es) item at = omega (arith, index-items_from (s + 1) i es item at)

item_at-failed :
    (r : BatchResult) (i : ℕ) → r.report ≡ none → item_at r i ≡ missing_item (r.start_index + i)
unfolding item_at current_items
item_at-failed r i failed = rw failed refl

IsIndexed-none : (r : BatchResult) → r.report ≡ none → IsIndexed r
unfolding IsIndexed missing_item
IsIndexed-none r failed i = rw (item_at-failed r i failed) refl

success-IsIndexed :
    (batch : QaBatch) (output : BatchEvaluationOutput) → IsIndexed (success batch output).0
unfolding IsIndexed success to_batch_report item_at current_items missing_item
success-IsIndexed batch output i =
    let es = output.question_evaluations in
    elim (Option-cases (get_elem? (items_from batch.start_index es) i)) [
      | inl missing ↦ rw (item_at, missing) refl
      | inr (item, found) ↦ rw (item_at, found) (index-items_from batch.start_index i es item found)
    ]

failure-IsIndexed : (batch : QaBatch) (error : Text) → IsIndexed (failure batch error).0
unfolding failure
failure-IsIndexed batch error = IsIndexed-none _ refl

retried-IsIndexed : (batch : QaBatch) (result : Invocation) → IsIndexed (retried batch result).0
unfolding retried
retried-IsIndexed batch (raised error) = failure-IsIndexed batch error
retried-IsIndexed batch (returned output) =
    elim (Bool-cases (is_empty output.question_evaluations)) [
      | inl empty ↦ rw empty (IsIndexed-none _ refl)
      | inr some_items ↦ rw some_items (success-IsIndexed batch output)
    ]

first_try-IsIndexed :
    (invoke : Invoker) (batch : QaBatch) (result : Invocation)
    → IsIndexed (first_try invoke batch result).0
unfolding first_try
first_try-IsIndexed invoke batch (raised error) = failure-IsIndexed batch error
first_try-IsIndexed invoke batch (returned output) =
    elim (Bool-cases (is_empty output.question_evaluations)) [
      | inl empty ↦ rw empty (retried-IsIndexed batch (invoke true batch))
      | inr some_items ↦ rw some_items (success-IsIndexed batch output)
    ]

evaluate_batch-IsIndexed :
    (invoke : Invoker) (batch : QaBatch) → IsIndexed (evaluate_batch invoke batch).0
unfolding evaluate_batch
evaluate_batch-IsIndexed invoke batch = first_try-IsIndexed invoke batch (invoke false batch)

results-IsIndexed :
    (invoke : Invoker) (batches : List QaBatch) (j : ℕ) (r : BatchResult)
    → get_elem? (results_of (map (evaluate_batch invoke) batches)) j ≡ some r
    → IsIndexed r
unfolding results_of
results-IsIndexed invoke [] j r at = absurd (ground arith)
results-IsIndexed invoke (b ∷ bs) zero r at =
    let same : (evaluate_batch invoke b).0 ≡ r = cc in
    subst IsIndexed same (evaluate_batch-IsIndexed invoke b)
results-IsIndexed invoke (b ∷ bs) (suc j) r at = results-IsIndexed invoke bs j r at

batch_results-IsIndexed :
    (size : ℕ) (invoke : Invoker) (qa : List QaRecord) (j : ℕ) (r : BatchResult)
    → get_elem? (batch_results size invoke qa) j ≡ some r
    → IsIndexed r
unfolding batch_results
batch_results-IsIndexed size invoke qa j r at =
    results-IsIndexed invoke (split_batches qa size) j r at

-- The batch of a question, and its place in the batch.
locate :
    (size a b k : ℕ) (results : List BatchResult)
    → Tiles size a (map result_span results) b
    → a ≤ k
    → k < b
    → (j : ℕ) × (i : ℕ) × (r : BatchResult) × (get_elem? results j ≡ some r)
      × (i < r.end_index - r.start_index)
      × (k ≡ r.start_index + i)
locate size a b k [] t le lt = absurd (omega arith)
locate size a b k (r ∷ rs) t le lt = elim (dec_lt k r.end_index) [
  | yes inside ↦ (0, k - r.start_index, r, refl, omega arith, omega arith)
  | no beyond ↦
      let (j, i, q, at, small, e) = locate size r.end_index b k rs t.3 (omega arith) lt in
      (suc j, i, q, at, small, e)
]

zero_points : (b : Bool) → (if b then pos 0 else pos 0) ≡ pos 0
zero_points true = refl
zero_points false = refl

module _ (size : ℕ) (invoke : Invoker) (outcome : Option SummaryEvaluationOutput)
    (session_id : Text) (qa : List QaRecord) (k : ℕ) (q : QaRecord)
    (at : get_elem? qa k ≡ some q) where
  merged : List QuestionEvaluationItem
  merged = merge_question_evaluations (batch_results size invoke qa)

  detail_at :
      get_elem? (evaluate size invoke outcome session_id qa).question_details k
      ≡ some (question_detail q (get_elem? merged k))
  unfolding evaluate build_report merged
  detail_at = get_elem?-details_from merged 0 k k qa q at (omega arith)

  -- The graph gives every question a detail of its own, at its place, made from the evaluation item
  -- that carries its index: whatever the batch calls returned or raised, none is lost, added or
  -- moved to another question.
  pub evaluate-aligned :
      (item : QuestionEvaluationItem) × (get_elem?
          (merge_question_evaluations (batch_results size invoke qa))
          k
        ≡ some item)
      × (item.question_index ≡ k)
      × (get_elem? (evaluate size invoke outcome session_id qa).question_details k
          ≡ some (question_detail q (some item)))
  unfolding merged IsIndexed
  evaluate-aligned =
      let tiles = batch_results-Tiles invoke size qa in
      let (j, i, r, here, small, e) =
        locate (max 1 size) 0 (length qa) k (batch_results size invoke qa) tiles (omega arith)
          (lt-length_of_get_elem? qa k at) in
      let found =
        get_elem?-merge (max 1 size) 0 (length qa) (batch_results size invoke qa) j i k r tiles here
          small (omega (arith, e)) in
      (
        item_at r i,
        found,
        batch_results-IsIndexed size invoke qa j r here i ∙ sym e,
        rw found at detail_at,
      )

  -- A question whose batch failed (both in the call and in what it returned) gets no points.
  pub evaluate_failed :
      (j : ℕ) (r : BatchResult)
      → get_elem? (batch_results size invoke qa) j ≡ some r
      → r.report ≡ none
      → r.start_index ≤ k
      → k < r.end_index
      → (detail : QuestionEvaluation) × (get_elem?
            (evaluate size invoke outcome session_id qa).question_details
            k
          ≡ some detail)
        × (detail.score ≡ pos 0)
  unfolding merged question_detail missing_item
  evaluate_failed j r here failed from to =
      let i = k - r.start_index in
      let tiles = batch_results-Tiles invoke size qa in
      let found =
        get_elem?-merge (max 1 size) 0 (length qa) (batch_results size invoke qa) j i k r tiles here
          (omega arith) (omega arith) in
      let lost = found ∙ ap some (item_at-failed r i failed) in
      (_, detail_at, rw lost (zero_points (has_text q.user_answer)))
