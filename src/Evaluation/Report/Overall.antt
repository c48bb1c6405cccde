-- ===== src/Evaluation/Report/Overall.antt =====
-- The bounds of the overall score, and the detail of each question.
use interview_agent_py.Prelude.{
  ℕ, zero, suc, ◌+◌, ◌*◌, ◌≤◌, ◌≡◌, ap, List, [], ◌∷◌, map, some, inl, inr, Bool-cases,
  Option-cases, subst, if◌then◌else◌, get_elem?, arith, Text, filter, ◌==◌,
}
use native.Mathlib.Nat.{div-le_of_le-mul}
use interview_agent_py.Prelude.Int.{ℤ, pos, negsuc, sum_ℤ, trunc_div, ◌≤ℤ◌, int_laws}
use interview_agent_py.Evaluation.{QaRecord, QuestionEvaluationItem, Summary, has_text}
use interview_agent_py.Evaluation.Report.{
  question_detail, details_from, answered_count, overall_score, build_report,
}

-- Every item's score is between 0 and `top`.
abbrev pub Scored : ℕ → List QuestionEvaluationItem → Type 0
Scored top [] = Unit
Scored top (item ∷ items) = (pos 0 ≤ℤ item.score) × (item.score ≤ℤ pos top) × Scored top items

abbrev InRange : ℕ → ℤ → Type 0
InRange top score = (pos 0 ≤ℤ score) × (score ≤ℤ pos top)

get_elem?-Scored :
    (top : ℕ) (items : List QuestionEvaluationItem) (i : ℕ) (item : QuestionEvaluationItem)
    → Scored top items
    → get_elem? items i ≡ some item
    → InRange top item.score
get_elem?-Scored top [] i item h at = absurd (ground arith)
get_elem?-Scored top (x ∷ xs) zero item h at =
    let same : x ≡ item = cc in subst (λ y. InRange top y.score) same (h.0, h.1)
get_elem?-Scored top (x ∷ xs) (suc i) item h at = get_elem?-Scored top xs i item h.2 at

-- What one question may add to the sum: nothing, if it was not answered.
question_detail-InRange :
    (top : ℕ) (items : List QuestionEvaluationItem) (i : ℕ) (q : QaRecord)
    → Scored top items
    → InRange
        (top * (if has_text q.user_answer then 1 else 0))
        (question_detail q (get_elem? items i)).score
unfolding question_detail
question_detail-InRange top items i q h = elim (Option-cases (get_elem? items i)) [
  | inl missing ↦ rw missing (omega arith)
  | inr (item, found) ↦ elim (Bool-cases (has_text q.user_answer)) [
    | inl answered ↦
        let range = get_elem?-Scored top items i item h found in
        rw (found, answered) (omega (arith, range))
    | inr silent ↦ rw (found, silent) (omega arith)
  ]
]

sum-InRange :
    (top : ℕ) (items : List QuestionEvaluationItem) (i : ℕ) (qa : List QaRecord)
    → Scored top items
    → InRange (top * answered_count qa) (sum_ℤ (map (λ d. d.score) (details_from items i qa)))
unfolding details_from sum_ℤ answered_count filter
sum-InRange top items i [] h = omega arith
sum-InRange top items i (q ∷ qa) h =
    let this = question_detail-InRange top items i q h in
    let rest = sum-InRange top items (i + 1) qa h in
    elim (Bool-cases (has_text q.user_answer)) [
      | inl answered ↦ rw answered (omega (int_laws, rw answered at this, rest))
      | inr silent ↦ rw silent (omega (int_laws, rw silent at this, rest))
    ]

trunc_div-InRange : (top n : ℕ) (s : ℤ) → InRange (top * n) s → InRange top (trunc_div s n)
unfolding trunc_div
trunc_div-InRange top n (pos a) h =
    let small : a ≤ n * top = grind arith in omega (arith, div-le_of_le-mul n small)
trunc_div-InRange top n (negsuc a) h = absurd (omega arith)

-- If every score that the model gave is between 0 and `top`, so is the overall score, whatever
-- questions were answered and however many evaluations are missing.
pub overall_score-InRange :
    (session_id : Text) (qa : List QaRecord) (items : List QuestionEvaluationItem)
    (summary : Summary) (reasons : List Text) (top : ℕ)
    → Scored top items
    → (pos 0 ≤ℤ (build_report session_id qa items summary reasons).overall_score)
      × ((build_report session_id qa items summary reasons).overall_score ≤ℤ pos top)
unfolding build_report overall_score
overall_score-InRange session_id qa items summary reasons top h =
    elim (Bool-cases (answered_count qa == 0)) [
      | inl empty ↦ rw empty (omega arith)
      | inr some_answered ↦
          let range = trunc_div-InRange top (answered_count qa) _ (sum-InRange top items 0 qa h) in
          rw some_answered (range.0, range.1)
    ]

-- The details stand in the order of the records, one for each.
pub get_elem?-details_from :
    (items : List QuestionEvaluationItem) (i j k : ℕ) (qa : List QaRecord) (q : QaRecord)
    → get_elem? qa k ≡ some q
    → j ≡ i + k
    → get_elem? (details_from items i qa) k ≡ some (question_detail q (get_elem? items j))
unfolding details_from
get_elem?-details_from items i j k [] q at e = absurd (ground arith)
get_elem?-details_from items i j zero (x ∷ qa) q at e =
    let same : x ≡ q = cc in
    let here : j ≡ i = omega arith in
    rw here (ap (λ y. some (question_detail y (get_elem? items i))) same)
get_elem?-details_from items i j (suc k) (x ∷ qa) q at e =
    get_elem?-details_from items (i + 1) j k qa q at (omega arith)
