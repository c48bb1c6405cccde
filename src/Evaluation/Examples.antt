-- ===== src/Evaluation/Examples.antt =====
-- An interview of three questions, evaluated in batches of two.
use interview_agent_py.Prelude.{
  ℕ, zero, suc, ◌≡◌, refl, List, [], ◌∷◌, map, none, some, Option, true, length, get_elem?, Text,
  codes, join, decimal, strip, lstrip, is_space, arith, sum, filter, IsDistinct, list_eq, nat_eq,
}
use interview_agent_py.Prelude.Int.{ℤ, pos, ◌≤ℤ◌}
use interview_agent_py.Evaluation.{
  QaRecord, QuestionEvaluationItem, BatchResult, QuestionEvaluation, Summary, has_text,
}
use interview_agent_py.Evaluation.Batches.{split_batches, merge_question_evaluations}
use interview_agent_py.Evaluation.Batches.Split.{Tiles, span, all_records, split_batches-Tiles}
use interview_agent_py.Evaluation.Items.{
  merge_list_items, report_items, sanitize_items, merge_list_items-eq-sanitize_items,
}
use interview_agent_py.Evaluation.Report.{question_detail, compute_category_scores, build_report}
use interview_agent_py.Evaluation.Report.Categories.{
  entry_of, described, scores_in, entry_of-compute_category_scores,
  compute_category_scores-partition,
}
use interview_agent_py.Evaluation.Report.Overall.{overall_score-InRange}
use interview_agent_py.Evaluation.Graph.{
  QuestionEvaluationOutput, returned, raised, Invoker, evaluate, batch_results,
}
use interview_agent_py.Evaluation.Prompts.{
  build_qa_records_text, record_text, build_voice_qa_records, stripped_answer,
}
use interview_agent_py.Evaluation.Graph.Robust.{evaluate-aligned}

abbrev record_of : ℕ → Option Text → QaRecord
record_of i answer = record {
  question_index = i;
  question = codes "q";
  category = codes "mysql";
  user_answer = answer;
}

abbrev three : List QaRecord
three = record_of 0 (some (codes "a")) ∷ record_of 1 none ∷ record_of 2 (some (codes "b")) ∷ []

abbrev output_of : ℤ → QuestionEvaluationOutput
output_of score = record {
  question_index = pos 0;
  score = score;
  feedback = codes "ok";
  reference_answer = [];
  key_points = [];
}

-- Both calls for a batch that starts after the first question fail; the others return one
-- evaluation.
abbrev half_broken : Invoker
half_broken attempt batch = elim (batch.start_index) [
  | zero ↦ returned (record {
    overall_score = pos 70;
    overall_feedback = [];
    strengths = [];
    improvements = [];
    question_evaluations = output_of (pos 70) ∷ [];
  })
  | suc n ↦ raised (codes "timeout")
]

abbrev detail_of : Option Text → ℤ → QuestionEvaluation
detail_of answer score = record {
  question_index = 0;
  question = codes "q";
  category = codes "mysql";
  user_answer = answer;
  score = score;
  feedback = [];
}

abbrev details : List QuestionEvaluation
details = detail_of (some (codes "a")) (pos 70) ∷ detail_of none (pos 0) ∷ []

abbrev scored : QuestionEvaluationItem
scored = record {
  question_index = 0;
  score = pos 70;
  feedback = [];
  reference_answer = [];
  key_points = [];
}

abbrev no_summary : Summary
no_summary = record { overall_feedback = []; strengths = []; improvements = [] }

split_batches-Tiles_example :
    (all_records (split_batches three 2) ≡ three) × Tiles 2 0 (map span (split_batches three 2)) 3
split_batches-Tiles_example = split_batches-Tiles three 2

abbrev praised : BatchResult
praised = record {
  start_index = 0;
  end_index = 1;
  report = some (record {
    overall_score = pos 70;
    overall_feedback = [];
    strengths = codes " clear" ∷ codes "clear" ∷ [];
    improvements = [];
    question_evaluations = [];
  });
}

merge_list_items_example :
    merge_list_items (praised ∷ []) true ≡ sanitize_items (report_items true (praised ∷ [])) []
merge_list_items_example = merge_list_items-eq-sanitize_items (praised ∷ []) true

entry_of_example :
    entry_of (codes "mysql") (compute_category_scores details)
    ≡ described (codes "mysql") (scores_in (codes "mysql") details)
entry_of_example = entry_of-compute_category_scores details (codes "mysql")

partition_example :
    IsDistinct (map (λ c. c.category) (compute_category_scores details))
    × (sum (map (λ c. c.question_count) (compute_category_scores details))
        ≡ length (filter (λ x. has_text x.user_answer) details))
partition_example = compute_category_scores-partition details

overall_score_example :
    (pos 0 ≤ℤ (build_report (codes "s") three (scored ∷ []) no_summary []).overall_score)
    × ((build_report (codes "s") three (scored ∷ []) no_summary []).overall_score ≤ℤ pos 100)
overall_score_example =
    overall_score-InRange (codes "s") three (scored ∷ []) no_summary [] 100
      (omega arith, omega arith, tt)

evaluate-aligned_example :
    (item : QuestionEvaluationItem) × (get_elem?
        (merge_question_evaluations (batch_results 2 half_broken three))
        1
      ≡ some item)
    × (item.question_index ≡ 1)
    × (get_elem? (evaluate 2 half_broken none (codes "s") three).question_details 1
        ≡ some (question_detail (record_of 1 none) (some item)))
evaluate-aligned_example =
    evaluate-aligned 2 half_broken none (codes "s") three 1 (record_of 1 none) refl

abbrev lost : BatchResult
lost = record { start_index = 2; end_index = 3; report = none }

no_answer_is_said :
    build_qa_records_text (record_of 0 none ∷ []) ≡ codes "问题1 [mysql]: q\n回答: (未回答)\n"
unfolding build_qa_records_text record_text has_text join decimal
no_answer_is_said = refl

silence_is_no_answer :
    map
      (λ (q : QaRecord). q.user_answer)
      (build_voice_qa_records (
        (record {
          sequence_num = 1;
          phase = codes "intro";
          ai_generated_text = some (codes " hello ");
          user_recognized_text = some (codes "  ");
        })
        ∷ []))
    ≡ none ∷ []
unfolding build_voice_qa_records stripped_answer strip lstrip is_space
silence_is_no_answer = refl
