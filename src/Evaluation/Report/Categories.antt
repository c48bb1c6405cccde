-- ===== src/Evaluation/Report/Categories.antt =====
-- The scores of the categories against a direct description.
use interview_agent_py.Prelude.{
  ℕ, ◌+◌, ◌≡◌, refl, ap, sym, ◌∙◌, List, [], ◌∷◌, ◌++◌, map, none, some, Option, inl, inr,
  Bool-cases, if◌then◌else◌, length, length-append, arith, Text, list_eq, nat_eq, IsDistinct,
  text_iff, ◌=?◌, ◌&&◌, filter, sum,
}
use interview_agent_py.Prelude.Int.{ℤ}
use interview_agent_py.Prelude.Dict.{Dict, get, put, get-put, keys, keys-put-IsDistinct}
use interview_agent_py.Evaluation.{QuestionEvaluation, CategoryScore, has_text}
use interview_agent_py.Evaluation.Report.{
  category_of, append_score, group_scores, average, category_score, compute_category_scores,
}
use mathlib.Core.List.{append_assoc, append-nil}

-- The scores of the answered questions of one category, in order.
abbrev pub scores_in : Text → List QuestionEvaluation → List ℤ
scores_in cat details =
    map (λ d. d.score) (filter (λ d. has_text d.user_answer && category_of d =? cat) details)

abbrev pub described : Text → List ℤ → Option CategoryScore
described cat [] = none
described cat (s ∷ ss) =
    some (record { category = cat; score = average (s ∷ ss); question_count = length (s ∷ ss) })

-- The first entry of the report for a category.
unfoldable pub entry_of : Text → List CategoryScore → Option CategoryScore
entry_of cat [] = none
entry_of cat (c ∷ cs) = if c.category =? cat then some c else entry_of cat cs

-- What is stored under a category once more scores have come in.
abbrev add_scores : Option (List ℤ) → List ℤ → Option (List ℤ)
add_scores none [] = none
add_scores none (s ∷ ss) = some (s ∷ ss)
add_scores (some old) new = some (old ++ new)

add_scores-nil : (o : Option (List ℤ)) → add_scores o [] ≡ o
add_scores-nil none = refl
add_scores-nil (some old) = ap some (append-nil old)

add_scores_assoc :
    (o : Option (List ℤ)) (s : ℤ) (ss : List ℤ)
    → add_scores (add_scores o (s ∷ [])) ss ≡ add_scores o (s ∷ ss)
add_scores_assoc none s [] = refl
add_scores_assoc none s (t ∷ ts) = refl
add_scores_assoc (some old) s ss = ap some (append_assoc old (s ∷ []) ss)

get-append_score :
    (d : Dict Text (List ℤ)) (cat k : Text) (s : ℤ)
    → get (append_score d cat s) k ≡ (if cat =? k then add_scores (get d k) (s ∷ []) else get d k)
unfolding append_score
get-append_score d cat k s =
    let v : List ℤ = elim (get d cat) [ none ↦ s ∷ [] | some scores ↦ scores ++ s ∷ [] ] in
    ground (arith, get-put d cat k v, text_iff cat k)

get-group_scores :
    (d : Dict Text (List ℤ)) (details : List QuestionEvaluation) (k : Text)
    → get (group_scores d details) k ≡ add_scores (get d k) (scores_in k details)
unfolding group_scores filter
get-group_scores d [] k = sym (add_scores-nil (get d k))
get-group_scores d (x ∷ xs) k = elim (Bool-cases (has_text x.user_answer)) [
  | inr silent ↦ rw silent (get-group_scores d xs k)
  | inl answered ↦
      let cat = category_of x in
      let later = get-group_scores (append_score d cat x.score) xs k in
      elim (Bool-cases (cat =? k)) [
        | inl same ↦
            rw (answered, same)
              (later
                ∙ rw (get-append_score, same) (add_scores_assoc (get d k) x.score (scores_in k xs)))
        | inr other ↦ rw (answered, other) (later ∙ rw (get-append_score, other) refl)
      ]
]

abbrev entry : Text → Option (List ℤ) → Option CategoryScore
entry k none = none
entry k (some scores) = some (category_score (k, scores))

entry_of-map :
    (d : Dict Text (List ℤ)) (k : Text) → entry_of k (map category_score d) ≡ entry k (get d k)
unfolding entry_of category_score get
entry_of-map [] k = refl
entry_of-map ((j, ss) ∷ d) k = elim (Bool-cases (j =? k)) [
  | inl same ↦ rw same (ap (λ c. some (category_score (c, ss))) ((text_iff j k).0 same))
  | inr other ↦ rw other (entry_of-map d k)
]

entry_add : (cat : Text) (ss : List ℤ) → entry cat (add_scores (get [] cat) ss) ≡ described cat ss
unfolding get category_score
entry_add cat [] = refl
entry_add cat (s ∷ ss) = refl

-- For every category the report has an entry exactly when one of its questions was answered, and
-- then it holds the average and the number of the answered questions' scores.
pub entry_of-compute_category_scores :
    (details : List QuestionEvaluation) (cat : Text)
    → entry_of cat (compute_category_scores details) ≡ described cat (scores_in cat details)
unfolding compute_category_scores
entry_of-compute_category_scores details cat =
    entry_of-map (group_scores [] details) cat
    ∙ rw get-group_scores (entry_add cat (scores_in cat details))

keys-append_score :
    (d : Dict Text (List ℤ)) (cat : Text) (s : ℤ)
    → IsDistinct (keys d)
    → IsDistinct (keys (append_score d cat s))
unfolding append_score
keys-append_score d cat s h = keys-put-IsDistinct d cat _ h

keys-group_scores :
    (d : Dict Text (List ℤ)) (details : List QuestionEvaluation)
    → IsDistinct (keys d)
    → IsDistinct (keys (group_scores d details))
unfolding group_scores
keys-group_scores d [] h = h
keys-group_scores d (x ∷ xs) h = elim (Bool-cases (has_text x.user_answer)) [
  | inr silent ↦ rw silent (keys-group_scores d xs h)
  | inl answered ↦ rw answered (
      keys-group_scores (append_score d (category_of x) x.score) xs
        (keys-append_score d (category_of x) x.score h))
]

counted : List (Text × List ℤ) → ℕ
counted [] = 0
counted ((k, ss) ∷ d) = length ss + counted d

counted-append_score :
    (d : Dict Text (List ℤ)) (cat : Text) (s : ℤ) → counted (append_score d cat s) ≡ counted d + 1
unfolding counted append_score get put
counted-append_score [] cat s = refl
counted-append_score ((j, ss) ∷ d) cat s = elim (Bool-cases (j =? cat)) [
  | inl same ↦ rw same (omega (arith, length-append ss (s ∷ [])))
  | inr other ↦ rw other (omega (arith, counted-append_score d cat s))
]

counted-group_scores :
    (d : Dict Text (List ℤ)) (details : List QuestionEvaluation)
    → counted (group_scores d details)
      ≡ counted d + length (filter (λ x. has_text x.user_answer) details)
unfolding group_scores filter
counted-group_scores d [] = omega arith
counted-group_scores d (x ∷ xs) = elim (Bool-cases (has_text x.user_answer)) [
  | inr silent ↦ rw silent (counted-group_scores d xs)
  | inl answered ↦ rw answered (
      omega (
        arith,
        counted-group_scores (append_score d (category_of x) x.score) xs,
        counted-append_score d (category_of x) x.score,
      ))
]

categories-map : (d : Dict Text (List ℤ)) → map (λ c. c.category) (map category_score d) ≡ keys d
unfolding category_score
categories-map [] = refl
categories-map ((k, ss) ∷ d) = ap (λ t. k ∷ t) (categories-map d)

counts-map :
    (d : Dict Text (List ℤ)) → sum (map (λ c. c.question_count) (map category_score d)) ≡ counted d
unfolding category_score counted sum
counts-map [] = refl
counts-map ((k, ss) ∷ d) = omega (arith, counts-map d)

-- No category has two entries in the report, and the question counts of its entries add up to the
-- number of answered questions.
pub compute_category_scores-partition :
    (details : List QuestionEvaluation)
    → IsDistinct (map (λ c. c.category) (compute_category_scores details))
      × (sum (map (λ c. c.question_count) (compute_category_scores details))
          ≡ length (filter (λ x. has_text x.user_answer) details))
unfolding compute_category_scores
compute_category_scores-partition details = (
  rw categories-map (keys-group_scores [] details tt),
  counts-map (group_scores [] details)
      ∙ counted-group_scores [] details
      ∙ (unfold counted in omega arith),
)
