-- ===== src/Evaluation/Items.antt =====
-- The lists of strengths and improvements: `merge_list_items` of domain/services/evaluation.py and
-- `_sanitize_items` of graphs/evaluation.py.
use interview_agent_py.Prelude.{
  ℕ, zero, suc, ◌≤◌, ◌<◌, ◌≡◌, refl, ap, sym, ◌∙◌, List, [], ◌∷◌, ◌++◌, none, some, Bool, false,
  inl, inr, Bool-cases, leb, if◌then◌else◌, length, length-append, take, length-take, arith, tests,
  Text, strip, is_empty, contains, list_eq, nat_eq, contains-append, text_iff, ◌||◌,
}
use interview_agent_py.Evaluation.{BatchResult}

abbrev pub max_merged_list_items : ℕ
max_merged_list_items = 8

-- The items that the nested loops of `merge_list_items` go through, in their order.
unfoldable pub report_items : Bool → List BatchResult → List Text
report_items strengths_mode [] = []
report_items strengths_mode (result ∷ results) = elim result.report [
  | none ↦ report_items strengths_mode results
  | some report ↦
      (if strengths_mode then report.strengths else report.improvements)
      ++ report_items strengths_mode results
]

-- The loops, with the `return` from within: `merged` is also the content of `seen`.
pub merge_from : List Text → List Text → List Text
merge_from merged [] = merged
merge_from merged (item ∷ items) =
    let cleaned = strip item in
    let rest = merge_from merged items in
    let longer = merged ++ cleaned ∷ [] in
    let rest' = merge_from longer items in
    if is_empty item || is_empty cleaned
    then rest
    else if contains cleaned merged
    then rest
    else if leb max_merged_list_items (length longer)
    then longer
    else rest'

unfoldable pub merge_list_items : List BatchResult → Bool → List Text
unfolding merge_from report_items
merge_list_items batch_results strengths_mode =
    merge_from [] (report_items strengths_mode batch_results)

-- The loop of `_sanitize_items`: `result` is also the content of `seen`.
pub clean_from : List Text → List Text → List Text
clean_from result [] = result
clean_from result (item ∷ items) =
    let cleaned = strip item in
    clean_from
      (if is_empty item || is_empty cleaned
        then result
        else if contains cleaned result
        then result
        else result ++ cleaned ∷ [])
      items

unfoldable pub sanitize_items : List Text → List Text → List Text
unfolding clean_from
sanitize_items primary fallback =
    take max_merged_list_items (clean_from [] (if is_empty primary then fallback else primary))

take-append_le : (n : ℕ) (xs ys : List Text) → n ≤ length xs → take n (xs ++ ys) ≡ take n xs
take-append_le zero xs ys h = refl
take-append_le (suc n) [] ys h = absurd (omega arith)
take-append_le (suc n) (x ∷ xs) ys h = ap (λ t. x ∷ t) (take-append_le n xs ys (omega arith))

take-all : (n : ℕ) (xs : List Text) → length xs ≤ n → take n xs ≡ xs
take-all zero [] h = refl
take-all zero (x ∷ xs) h = absurd (omega arith)
take-all (suc n) [] h = refl
take-all (suc n) (x ∷ xs) h = ap (λ t. x ∷ t) (take-all n xs (omega arith))

-- `clean_from` only adds behind what it has.
take-clean_from :
    (n : ℕ) (result items : List Text)
    → n ≤ length result
    → take n (clean_from result items) ≡ take n result
unfolding clean_from
take-clean_from n result [] h = refl
take-clean_from n result (item ∷ items) h =
    elim (Bool-cases (is_empty item || is_empty (strip item))) [
      | inl blank ↦ rw blank (take-clean_from n result items h)
      | inr text ↦ elim (Bool-cases (contains (strip item) result)) [
        | inl seen ↦ rw (text, seen) (take-clean_from n result items h)
        | inr fresh ↦
            rw (text, fresh)
              (take-clean_from n (result ++ strip item ∷ []) items
                  (omega (arith, length-append result (strip item ∷ [])))
                ∙ take-append_le n result (strip item ∷ []) h)
      ]
    ]

merge_from-eq :
    (merged items : List Text)
    → length merged < max_merged_list_items
    → merge_from merged items ≡ take max_merged_list_items (clean_from merged items)
unfolding merge_from clean_from
merge_from-eq merged [] h = sym (take-all max_merged_list_items merged (omega arith))
merge_from-eq merged (item ∷ items) h = elim (Bool-cases (is_empty item || is_empty (strip item))) [
  | inl blank ↦ rw blank (merge_from-eq merged items h)
  | inr text ↦ elim (Bool-cases (contains (strip item) merged)) [
    | inl seen ↦ rw (text, seen) (merge_from-eq merged items h)
    | inr fresh ↦
        let longer = merged ++ strip item ∷ [] in
        elim (Bool-cases (leb max_merged_list_items (length longer))) [
          | inl full ↦
              rw (text, fresh, full)
                (sym (
                  take-clean_from max_merged_list_items longer items (omega (tests, full))
                  ∙ take-all max_merged_list_items longer
                      (omega (arith, length-append merged (strip item ∷ [])))))
          | inr room ↦ rw (text, fresh, room) (merge_from-eq longer items (ground arith))
        ]
  ]
]

if-is_empty : (xs : List Text) → (if is_empty xs then [] else xs) ≡ xs
if-is_empty [] = refl
if-is_empty (x ∷ xs) = refl

-- The loop that stops at the eighth item and the loop that cleans everything and cuts the list to
-- eight give the same list: merging the items of the batches is sanitizing them.
pub merge_list_items-eq-sanitize_items :
    (results : List BatchResult) (strengths_mode : Bool)
    → merge_list_items results strengths_mode
      ≡ sanitize_items (report_items strengths_mode results) []
unfolding merge_list_items sanitize_items
merge_list_items-eq-sanitize_items results strengths_mode =
    rw if-is_empty (merge_from-eq [] (report_items strengths_mode results) (omega arith))

-- No text of the list is empty, and none stands in it twice.
abbrev pub IsClean : List Text → Type 0
IsClean [] = Unit
IsClean (x ∷ xs) = (is_empty x ≡ false) × (contains x xs ≡ false) × IsClean xs

IsClean-snoc :
    (xs : List Text) (a : Text)
    → IsClean xs
    → is_empty a ≡ false
    → contains a xs ≡ false
    → IsClean (xs ++ a ∷ [])
unfolding contains
IsClean-snoc [] a h text new = (text, refl, tt)
IsClean-snoc (x ∷ xs) a h text new = (
  h.0,
  ground (arith, contains-append x xs (a ∷ []), text_iff x a, text_iff a x),
  IsClean-snoc xs a h.2 text (ground arith),
)

contains-take :
    (n : ℕ) (a : Text) (xs : List Text) → contains a xs ≡ false → contains a (take n xs) ≡ false
unfolding contains
contains-take zero a xs h = refl
contains-take (suc n) a [] h = refl
contains-take (suc n) a (x ∷ xs) h = ground (arith, contains-take n a xs)

IsClean-take : (n : ℕ) (xs : List Text) → IsClean xs → IsClean (take n xs)
IsClean-take zero xs h = tt
IsClean-take (suc n) [] h = tt
IsClean-take (suc n) (x ∷ xs) h = (h.0, contains-take n x xs h.1, IsClean-take n xs h.2)

clean_from-IsClean : (result items : List Text) → IsClean result → IsClean (clean_from result items)
unfolding clean_from
clean_from-IsClean result [] h = h
clean_from-IsClean result (item ∷ items) h =
    elim (Bool-cases (is_empty item || is_empty (strip item))) [
      | inl blank ↦ rw blank (clean_from-IsClean result items h)
      | inr text ↦ elim (Bool-cases (contains (strip item) result)) [
        | inl seen ↦ rw (text, seen) (clean_from-IsClean result items h)
        | inr fresh ↦
            rw (text, fresh)
              (clean_from-IsClean (result ++ strip item ∷ []) items
                (IsClean-snoc result (strip item) h (ground arith) fresh))
      ]
    ]

-- Whatever the model returned, a sanitized list has at most eight texts, none empty and none
-- twice.
pub sanitize_items-IsClean :
    (primary fallback : List Text)
    → (length (sanitize_items primary fallback) ≤ 8) × IsClean (sanitize_items primary fallback)
unfolding sanitize_items
sanitize_items-IsClean primary fallback =
    let source : List Text = if is_empty primary then fallback else primary in
    (
      omega (arith, length-take max_merged_list_items (clean_from [] source)),
      IsClean-take max_merged_list_items _ (clean_from-IsClean [] source tt),
    )
