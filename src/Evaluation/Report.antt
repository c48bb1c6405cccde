-- ===== src/Evaluation/Report.antt =====
-- `compute_category_scores` and `build_report` of domain/services/evaluation.py. An average is the
-- exact quotient truncated; the source divides floats, which is the same below 2 ^ 53.
pub mod Categories
pub mod Overall
use interview_agent_py.Prelude.{
  ℕ, ◌+◌, List, [], ◌∷◌, ◌++◌, map, Option, none, some, Bool, ◌&&◌, if◌then◌else◌, ◌==◌, length,
  get_elem?, Text, codes, is_empty, filter, list_eq, nat_eq,
}
use interview_agent_py.Prelude.Int.{ℤ, pos, sum_ℤ, trunc_div}
use interview_agent_py.Prelude.Dict.{Dict, get, put}
use interview_agent_py.Evaluation.{
  QaRecord, QuestionEvaluationItem, Summary, CategoryScore, QuestionEvaluation, ReferenceAnswer,
  EvaluationReport, has_text,
}

-- `d.category or "未知"`
unfoldable pub category_of : QuestionEvaluation → Text
category_of d = if is_empty d.category then codes "未知" else d.category

-- `scores_by_category.setdefault(cat, []).append(score)`
pub append_score : Dict Text (List ℤ) → Text → ℤ → Dict Text (List ℤ)
append_score d cat score =
    put d cat (elim (get d cat) [ none ↦ score ∷ [] | some scores ↦ scores ++ score ∷ [] ])

pub group_scores : Dict Text (List ℤ) → List QuestionEvaluation → Dict Text (List ℤ)
unfolding append_score category_of has_text
group_scores scores_by_category [] = scores_by_category
group_scores scores_by_category (d ∷ details) =
    group_scores
      (if has_text d.user_answer
        then append_score scores_by_category (category_of d) d.score
        else scores_by_category)
      details

-- `int(sum(scores) / len(scores))`
unfoldable pub average : List ℤ → ℤ
average scores = trunc_div (sum_ℤ scores) (length scores)

pub category_score : Text × List ℤ → CategoryScore
unfolding average
category_score (cat, scores) = record {
  category = cat;
  score = average scores;
  question_count = length scores;
}

unfoldable pub compute_category_scores : List QuestionEvaluation → List CategoryScore
unfolding group_scores category_score
compute_category_scores details = map category_score (group_scores [] details)

abbrev pub no_feedback : Text
no_feedback = codes "该题未成功生成评估反馈。"

unfoldable pub question_detail : QaRecord → Option QuestionEvaluationItem → QuestionEvaluation
unfolding has_text
question_detail q eval_item = record {
  question_index = q.question_index;
  question = q.question;
  category = q.category;
  user_answer = q.user_answer;
  score = elim eval_item [
    | none ↦ pos 0
    | some item ↦ if has_text q.user_answer then item.score else pos 0
  ];
  feedback = elim eval_item [
    | none ↦ no_feedback
    | some item ↦ if is_empty item.feedback then no_feedback else item.feedback
  ];
}

unfoldable pub reference_answer : QaRecord → Option QuestionEvaluationItem → ReferenceAnswer
reference_answer q eval_item = record {
  question_index = q.question_index;
  question = q.question;
  reference_answer = elim eval_item [ none ↦ [] | some item ↦ item.reference_answer ];
  key_points = elim eval_item [ none ↦ [] | some item ↦ item.key_points ];
}

-- The loop `for i, q in enumerate(qa_records)`, one list at a time.
pub details_from : List QuestionEvaluationItem → ℕ → List QaRecord → List QuestionEvaluation
unfolding question_detail
details_from evaluations i [] = []
details_from evaluations i (q ∷ qa_records) =
    question_detail q (get_elem? evaluations i) ∷ details_from evaluations (i + 1) qa_records

pub references_from : List QuestionEvaluationItem → ℕ → List QaRecord → List ReferenceAnswer
unfolding reference_answer
references_from evaluations i [] = []
references_from evaluations i (q ∷ qa_records) =
    reference_answer q (get_elem? evaluations i) ∷ references_from evaluations (i + 1) qa_records

pub answered_count : List QaRecord → ℕ
unfolding filter has_text
answered_count qa_records = length (filter (λ q. has_text q.user_answer) qa_records)

unfoldable pub overall_score : List QaRecord → List QuestionEvaluation → ℤ
unfolding answered_count
overall_score qa_records details =
    if answered_count qa_records == 0
    then pos 0
    else trunc_div (sum_ℤ (map (λ d. d.score) details)) (answered_count qa_records)

unfoldable pub build_report :
    Text → List QaRecord → List QuestionEvaluationItem → Summary → List Text → EvaluationReport
unfolding details_from references_from overall_score compute_category_scores
build_report session_id qa_records evaluations summary degraded_reasons =
    let question_details = details_from evaluations 0 qa_records in
    record {
      session_id = session_id;
      total_questions = length qa_records;
      overall_score = overall_score qa_records question_details;
      category_scores = compute_category_scores question_details;
      question_details = question_details;
      overall_feedback = summary.overall_feedback;
      strengths = summary.strengths;
      improvements = summary.improvements;
      reference_answers = references_from evaluations 0 qa_records;
      degraded_reasons = degraded_reasons;
    }
