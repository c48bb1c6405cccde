-- ===== src/Evaluation/Prompts.antt =====
-- domain/services/evaluation.py, domain/services/voice_qa_adapter.py: what the evaluation reads of an
-- interview, and the texts of its prompts.
use interview_agent_py.Prelude.{
  ℕ, zero, suc, ◌+◌, List, [], ◌∷◌, ◌++◌, map, Option, none, some, Bool, if◌then◌else◌, ltb, leb,
  length, take, get_elem?, set, Text, codes, join, decimal, strip, is_empty, nat_eq, list_eq,
}
use interview_agent_py.Prelude.Int.{ℤ, pos, negsuc}
use interview_agent_py.Prelude.Dict.{Dict, get, put}
use interview_agent_py.Prelude.Dict as Dict
use interview_agent_py.Prelude.Sorting.{sorted, text_leb}
use interview_agent_py.Interview.{InterviewQuestion, with_answer}
use interview_agent_py.Evaluation.{QaRecord, QuestionEvaluationItem, has_text}
use interview_agent_py.Evaluation.Report.{average}

-- `str(n)`
unfoldable pub decimal_ℤ : ℤ → Text
decimal_ℤ (pos n) = decimal n
decimal_ℤ (negsuc n) = codes "-" ++ decimal (suc n)

unfoldable pub truncate_resume : Option Text → ℕ → Text
truncate_resume none limit = []
truncate_resume (some text) limit =
    if leb (length text) limit then text else take limit text ++ codes "\n...(简历内容过长，已截断)"

unfoldable pub truncate_reference : Option Text → ℕ → Text
truncate_reference none limit = []
truncate_reference (some text) limit =
    let stripped = strip text in
    if is_empty text
    then []
    else if leb (length stripped) limit
    then stripped
    else take limit stripped ++ codes "\n...(参考基线过长，已截断)"

unfoldable pub record_text : QaRecord → Text
unfolding has_text
record_text q =
    let answer =
      if has_text q.user_answer
      then elim q.user_answer [ none ↦ [] | some a ↦ a ]
      else codes "(未回答)" in
    codes "问题"
    ++ (decimal (q.question_index + 1)
        ++ (codes " ["
            ++ (q.category
                ++ (codes "]: " ++ (q.question ++ (codes "\n回答: " ++ (answer ++ codes "\n")))))))

unfoldable pub build_qa_records_text : List QaRecord → Text
unfolding record_text
build_qa_records_text batch = join (codes "\n") (map record_text batch)

-- An answer whose index is out of range changes nothing.
unfoldable pub overlay_answers : List InterviewQuestion → Dict ℕ Text → List InterviewQuestion
overlay_answers questions [] = questions
overlay_answers questions ((idx, answer) ∷ answer_map) =
    overlay_answers
      (elim (get_elem? questions idx) [
        | none ↦ questions
        | some q ↦ set questions idx (with_answer q answer)
      ])
      answer_map

unfoldable pub build_qa_records : List InterviewQuestion → List QaRecord
build_qa_records [] = []
build_qa_records (q ∷ questions) =
    (record {
      question_index = q.question_index;
      question = q.question;
      category = q.category;
      user_answer = q.user_answer;
    })
    ∷ build_qa_records questions

-- `for i, q in enumerate(qa_records)`, with the evaluations from the place `i` on.
unfoldable pub collect_scores :
    Dict Text (List ℤ) → List QaRecord → List QuestionEvaluationItem → Dict Text (List ℤ)
unfolding has_text
collect_scores by_category [] evaluations = by_category
collect_scores by_category (q ∷ qs) [] =
    collect_scores
      (if has_text q.user_answer
        then put by_category q.category (Dict.get_or by_category q.category [] ++ pos 0 ∷ [])
        else by_category)
      qs []
collect_scores by_category (q ∷ qs) (e ∷ evaluations) =
    collect_scores
      (if has_text q.user_answer
        then put by_category q.category (Dict.get_or by_category q.category [] ++ e.score ∷ [])
        else by_category)
      qs evaluations

-- `sorted(items)`: the categories differ, so their scores are not compared.
abbrev pub category_leb : Text × List ℤ → Text × List ℤ → Bool
category_leb (cat, scores) (cat', scores') = text_leb cat cat'

unfoldable pub summary_line : Text × List ℤ → Text
summary_line (cat, scores) =
    codes "- "
    ++ (cat
        ++ (codes ": 平均分 "
            ++ (decimal_ℤ (average scores) ++ (codes ", 题数 " ++ decimal (length scores)))))

unfoldable pub build_category_summary : List QaRecord → List QuestionEvaluationItem → Text
unfolding collect_scores summary_line
build_category_summary qa_records evaluations =
    join (codes "\n")
      (map summary_line (sorted category_leb (collect_scores [] qa_records evaluations)))

abbrev pub max_question_highlights : ℕ
max_question_highlights = 20

-- A text cut to a length, with dots if it was longer.
unfoldable pub shortened : ℕ → Text → Text
shortened limit text = if ltb limit (length text) then take limit text ++ codes "..." else text

unfoldable pub highlight : QaRecord → Option QuestionEvaluationItem → Text
unfolding shortened decimal_ℤ
highlight q eval_item =
    let score : ℤ = elim eval_item [ none ↦ pos 0 | some item ↦ item.score ] in
    let feedback : Text = elim eval_item [ none ↦ [] | some item ↦ item.feedback ] in
    codes "- Q"
    ++ (decimal (q.question_index + 1)
        ++ (codes " | "
            ++ (shortened 50 q.question
                ++ (codes " | 分数:"
                    ++ (decimal_ℤ score ++ (codes " | 反馈:" ++ shortened 80 feedback))))))

-- The loop over the first `room` records.
unfoldable pub highlights : ℕ → List QaRecord → List QuestionEvaluationItem → List Text
unfolding highlight
highlights zero qa_records evaluations = []
highlights (suc room) [] evaluations = []
highlights (suc room) (q ∷ qs) [] = highlight q none ∷ highlights room qs []
highlights (suc room) (q ∷ qs) (e ∷ evaluations) =
    highlight q (some e) ∷ highlights room qs evaluations

unfoldable pub build_question_highlights : List QaRecord → List QuestionEvaluationItem → Text
unfolding highlights
build_question_highlights qa_records evaluations =
    join (codes "\n") (highlights max_question_highlights qa_records evaluations)

pub record VoiceMessage : Type 0 where
  pub sequence_num : ℕ
  pub phase : Text
  pub ai_generated_text : Option Text
  pub user_recognized_text : Option Text

-- A text without the space around it, if any is left.
unfoldable pub stripped_answer : Option Text → Option Text
stripped_answer none = none
stripped_answer (some answer) = if is_empty (strip answer) then none else some (strip answer)

unfoldable pub build_voice_qa_records : List VoiceMessage → List QaRecord
unfolding stripped_answer
build_voice_qa_records [] = []
build_voice_qa_records (msg ∷ messages) =
    let question = strip (elim msg.ai_generated_text [ none ↦ [] | some text ↦ text ]) in
    let rest = build_voice_qa_records messages in
    if is_empty question
    then rest
    else (record {
      question_index = msg.sequence_num;
      question = question;
      category = msg.phase;
      user_answer = stripped_answer msg.user_recognized_text;
    })
      ∷ rest
