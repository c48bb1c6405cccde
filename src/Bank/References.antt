-- ===== src/Bank/References.antt =====
-- domain/services/question_bank.py: the reference answers that a question carries from the bank, in
-- the prompt of the evaluation and in its report.
use mathlib.Core.Bool.{true≢false}
use interview_agent_py.Prelude.{
  ℕ, ◌+◌, ◌≡◌, refl, ap, sym, ◌∙◌, List, [], ◌∷◌, ◌++◌, map, Option, none, some, inl, inr, Bool,
  true, false, not, ◌||◌, if◌then◌else◌, Text, codes, join, decimal, strip, is_empty, nat_eq,
  Bool-cases, Option-cases,
}
use interview_agent_py.Prelude.Dict.{Dict, get, put}
use interview_agent_py.Interview.{InterviewQuestion}
use interview_agent_py.Evaluation.{EvaluationReport, ReferenceAnswer}
use interview_agent_py.Bank.{trim_to_none}

abbrev pub is_some : Option Text → Bool
is_some none = false
is_some (some s) = true

unfoldable pub has_question_reference : InterviewQuestion → Bool
unfolding trim_to_none
has_question_reference q =
    is_some (trim_to_none q.reference_answer)
    || not (is_empty q.key_points)
    || is_some (trim_to_none q.scoring_rubric)

-- A line with its title, where there is a text.
abbrev pub titled : Text → Option Text → List Text
titled title none = []
titled title (some s) = (title ++ s) ∷ []

unfoldable pub reference_section : InterviewQuestion → Text
unfolding trim_to_none
reference_section q = join (codes "\n") (
    (codes "问题" ++ (decimal (q.question_index + 1) ++ (codes ": " ++ q.question)))
      ∷ titled (codes "参考答案: ") (trim_to_none q.reference_answer)
    ++ (if is_empty q.key_points
        then []
        else titled (codes "评分要点: ") (some (join (codes "、") q.key_points)))
    ++ titled (codes "评分规则: ") (trim_to_none q.scoring_rubric))

unfoldable pub reference_sections : List InterviewQuestion → List Text
unfolding has_question_reference reference_section
reference_sections [] = []
reference_sections (q ∷ qs) =
    if has_question_reference q
    then reference_section q ∷ reference_sections qs
    else reference_sections qs

unfoldable pub build_question_reference_context : List InterviewQuestion → Text
unfolding reference_sections
build_question_reference_context questions =
    let sections = reference_sections questions in
    if is_empty sections then [] else join (codes "\n\n") sections ++ codes "\n"

-- `{q.question_index: q for q in questions}`
unfoldable pub questions_by_index :
    Dict ℕ InterviewQuestion → List InterviewQuestion → Dict ℕ InterviewQuestion
questions_by_index d [] = d
questions_by_index d (q ∷ qs) = questions_by_index (put d q.question_index q) qs

-- The answer of the bank for a reference of the report, with its key points.
unfoldable pub bank_answer : Option InterviewQuestion → Option (Text × List Text)
bank_answer none = none
bank_answer (some q) = elim q.reference_answer [
  | none ↦ none
  | some answer ↦ if is_empty (strip answer) then none else some (answer, q.key_points)
]

-- The loop: the references and whether one of them changed.
unfoldable pub merge_references :
    Dict ℕ InterviewQuestion → List ReferenceAnswer → List ReferenceAnswer × Bool
unfolding bank_answer
merge_references question_map [] = ([], false)
merge_references question_map (reference ∷ references) =
    let rest = merge_references question_map references in
    elim (bank_answer (get question_map reference.question_index)) [
      | none ↦ (reference ∷ rest.0, rest.1)
      | some (answer, key_points) ↦
          (record reference { reference_answer = answer; key_points = key_points } ∷ rest.0, true)
    ]

unfoldable pub apply_question_references :
    EvaluationReport → List InterviewQuestion → EvaluationReport
unfolding merge_references questions_by_index
apply_question_references report questions =
    let merged = merge_references (questions_by_index [] questions) report.reference_answers in
    if merged.1 then record report { reference_answers = merged.0 } else report

-- What the bank makes of one reference.
unfoldable pub with_bank_answer : Dict ℕ InterviewQuestion → ReferenceAnswer → ReferenceAnswer
unfolding bank_answer
with_bank_answer question_map reference =
    elim (bank_answer (get question_map reference.question_index)) [
      | none ↦ reference
      | some (answer, key_points) ↦ record reference {
        reference_answer = answer;
        key_points = key_points;
      }
    ]

merge_references-eq_map :
    (d : Dict ℕ InterviewQuestion) (rs : List ReferenceAnswer)
    → (merge_references d rs).0 ≡ map (with_bank_answer d) rs
unfolding merge_references with_bank_answer
merge_references-eq_map d [] = refl
merge_references-eq_map d (r ∷ rs) = elim (Option-cases (bank_answer (get d r.question_index))) [
  | inl none_there ↦
      rw (merge_references, with_bank_answer, none_there)
        (ap (λ t. r ∷ t) (merge_references-eq_map d rs))
  | inr (pair, there) ↦
      rw (merge_references, with_bank_answer, there)
        (ap (λ t. record r { reference_answer = pair.0; key_points = pair.1 } ∷ t)
          (merge_references-eq_map d rs))
]

merge_references-unchanged :
    (d : Dict ℕ InterviewQuestion) (rs : List ReferenceAnswer)
    → (merge_references d rs).1 ≡ false
    → (merge_references d rs).0 ≡ rs
unfolding merge_references
merge_references-unchanged d [] h = refl
merge_references-unchanged d (r ∷ rs) h =
    elim (Option-cases (bank_answer (get d r.question_index))) [
      | inl none_there ↦
          rw (merge_references, none_there)
            (ap (λ t. r ∷ t)
              (merge_references-unchanged d rs (rw (merge_references, none_there) at h)))
      | inr (pair, there) ↦ absurd (true≢false (rw (merge_references, there) at h))
    ]

-- A report with the bank's answers is the report with each reference replaced by the bank's, if the
-- bank has one, and with the same fields else.
pub apply_question_references-eq :
    (report : EvaluationReport) (questions : List InterviewQuestion)
    → apply_question_references report questions ≡ record report {
      reference_answers =
          map (with_bank_answer (questions_by_index [] questions)) report.reference_answers;
    }
unfolding apply_question_references
apply_question_references-eq report questions =
    let d = questions_by_index [] questions in
    let merged = merge_references-eq_map d report.reference_answers in
    elim (Bool-cases (merge_references d report.reference_answers).1) [
      | inl changed ↦ rw changed (ap (λ rs. record report { reference_answers = rs }) merged)
      | inr unchanged ↦ rw unchanged (
          ap (λ rs. record report { reference_answers = rs })
            (sym (merge_references-unchanged d report.reference_answers unchanged) ∙ merged))
    ]
