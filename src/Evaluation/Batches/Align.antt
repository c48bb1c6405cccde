-- ===== src/Evaluation/Batches/Align.antt =====
-- Where the evaluation of a question stands in the merged list.
use interview_agent_py.Prelude.{
  ℕ, zero, suc, ◌+◌, ◌-◌, ◌≤◌, ◌<◌, ◌≡◌, refl, ap, ◌∙◌, List, [], ◌∷◌, map, some, length,
  length-append, get_elem?, get_elem?-append_left, get_elem?-append_right, arith,
}
use interview_agent_py.Evaluation.{BatchResult}
use interview_agent_py.Evaluation.Batches.{item_at, merge_batch, merge_question_evaluations}
use interview_agent_py.Evaluation.Batches.Split.{Tiles}

abbrev pub result_span : BatchResult → ℕ × ℕ
result_span result = (result.start_index, result.end_index)

length-merge_batch : (r : BatchResult) (i left : ℕ) → length (merge_batch r i left) ≡ left
unfolding merge_batch
length-merge_batch r i zero = refl
length-merge_batch r i (suc left) = ap suc (length-merge_batch r (i + 1) left)

get_elem?-merge_batch :
    (r : BatchResult) (i left k j : ℕ)
    → k < left
    → j ≡ i + k
    → get_elem? (merge_batch r i left) k ≡ some (item_at r j)
unfolding merge_batch
get_elem?-merge_batch r i zero k j h e = elim h [ ]
get_elem?-merge_batch r i (suc left) zero j h e = let e' : j ≡ i = omega arith in rw e' refl
get_elem?-merge_batch r i (suc left) (suc k) j h e =
    get_elem?-merge_batch r (i + 1) left k j (omega arith) (omega arith)

Tiles-start :
    (size a b : ℕ) (results : List BatchResult) (j : ℕ) (r : BatchResult)
    → Tiles size a (map result_span results) b
    → get_elem? results j ≡ some r
    → a ≤ r.start_index
Tiles-start size a b [] j r t at = absurd (ground arith)
Tiles-start size a b (q ∷ rs) zero r t at =
    let same : q ≡ r = cc in omega (arith, ap (λ s. s.start_index) same)
Tiles-start size a b (q ∷ rs) (suc j) r t at =
    omega (arith, Tiles-start size q.end_index b rs j r t.3 at)

pub length-merge :
    (size a b : ℕ) (results : List BatchResult)
    → Tiles size a (map result_span results) b
    → a + length (merge_question_evaluations results) ≡ b
unfolding merge_question_evaluations
length-merge size a b [] t = omega arith
length-merge size a b (r ∷ rs) t = omega (
  arith,
  length-append (merge_batch r 0 (r.end_index - r.start_index)) (merge_question_evaluations rs),
  length-merge_batch r 0 (r.end_index - r.start_index),
  length-merge size r.end_index b rs t.3,
)

-- If the results cover `[a, b)` in order, the question that is the `i`-th of the `j`-th batch has
-- place `start_index + i` (less `a`) in the merged list.
pub get_elem?-merge :
    (size a b : ℕ) (results : List BatchResult) (j i k : ℕ) (r : BatchResult)
    → Tiles size a (map result_span results) b
    → get_elem? results j ≡ some r
    → i < r.end_index - r.start_index
    → a + k ≡ r.start_index + i
    → get_elem? (merge_question_evaluations results) k ≡ some (item_at r i)
unfolding merge_question_evaluations
get_elem?-merge size a b [] j i k r t at h e = absurd (ground arith)
get_elem?-merge size a b (q ∷ rs) zero i k r t at h e =
    let same : q ≡ r = cc in
    let spans : q.end_index - q.start_index ≡ r.end_index - r.start_index =
      ap (λ s. s.end_index - s.start_index) same in
    let starts : q.start_index ≡ r.start_index = ap (λ s. s.start_index) same in
    let n = q.end_index - q.start_index in
    get_elem?-append_left (merge_batch q 0 n) (merge_question_evaluations rs) k
      (omega (arith, length-merge_batch q 0 n))
    ∙ get_elem?-merge_batch q 0 n k i (omega arith) (omega arith)
    ∙ ap (λ s. some (item_at s i)) same
get_elem?-merge size a b (q ∷ rs) (suc j) i k r t at h e =
    let n = q.end_index - q.start_index in
    let later = Tiles-start size q.end_index b rs j r t.3 at in
    let m = r.start_index + i - q.end_index in
    get_elem?-append_right (merge_batch q 0 n) (merge_question_evaluations rs) k m
      (omega (arith, length-merge_batch q 0 n))
    ∙ get_elem?-merge size q.end_index b rs j i m r t.3 at h (omega arith)
