-- ===== src/Questions/Distinct.antt =====
-- domain/services/question_gen.py: what `dedupe_historical` keeps.
use interview_agent_py.Prelude.{
  ◌+◌, ◌≤◌, ◌<◌, ◌≡◌, refl, ap, sym, ◌∙◌, subst, List, [], ◌∷◌, ◌++◌, map, inl, inr, false, leb,
  Bool-cases, length, length-append, Text, is_empty, contains, contains-append, IsDistinct,
  IsDistinct-snoc, nat_eq, list_eq, arith,
}
use interview_agent_py.Interview.{HistoricalQuestion, max_historical_questions}
use interview_agent_py.Questions.History.{history_key, dedupe_from, dedupe_historical}

module _ (upper : Text → Text) where
  -- What a list of kept questions must be: at most 60, no two with the same key.
  abbrev pub Kept : List HistoricalQuestion → Type 0
  Kept result =
      (length result ≤ max_historical_questions) × IsDistinct (map (history_key upper) result)

  abbrev SeenIs : List Text → List HistoricalQuestion → Type 0
  SeenIs seen result = (k : Text) → contains k seen ≡ contains k (map (history_key upper) result)

  keys-snoc :
      (result : List HistoricalQuestion) (hq : HistoricalQuestion)
      → map (history_key upper) (result ++ hq ∷ [])
        ≡ map (history_key upper) result ++ history_key upper hq ∷ []
  keys-snoc [] hq = refl
  keys-snoc (q ∷ qs) hq = ap (λ t. history_key upper q ∷ t) (keys-snoc qs hq)

  SeenIs-snoc :
      (seen : List Text) (result : List HistoricalQuestion) (hq : HistoricalQuestion)
      → SeenIs seen result
      → SeenIs (history_key upper hq ∷ seen) (result ++ hq ∷ [])
  unfolding contains
  SeenIs-snoc seen result hq same k =
      let key = history_key upper hq in
      let e = contains-append k (map (history_key upper) result) (key ∷ []) in
      ground (arith, same k, e) ∙ ap (λ t. contains k t) (sym (keys-snoc result hq))

  dedupe_from-Kept :
      (seen : List Text) (result hqs : List HistoricalQuestion)
      → SeenIs seen result
      → length result < max_historical_questions
      → IsDistinct (map (history_key upper) result)
      → Kept (dedupe_from upper seen result hqs)
  unfolding dedupe_from
  dedupe_from-Kept seen result [] same room distinct = (omega arith, distinct)
  dedupe_from-Kept seen result (hq ∷ hqs) same room distinct =
      let key = history_key upper hq in
      let longer = result ++ hq ∷ [] in
      elim (Bool-cases (is_empty key)) [
        | inl blank ↦ rw blank (dedupe_from-Kept seen result hqs same room distinct)
        | inr text ↦ elim (Bool-cases (contains key seen)) [
          | inl known ↦
              let e : leb max_historical_questions (length result) ≡ false = ground arith in
              rw (text, known, e) (dedupe_from-Kept seen result hqs same room distinct)
          | inr fresh ↦
              let one_more : length longer ≡ length result + 1 =
                omega (arith, length-append result (hq ∷ [])) in
              let distinct' = subst IsDistinct (sym (keys-snoc result hq)) (
                IsDistinct-snoc (map (history_key upper) result) key distinct
                  (sym (same key) ∙ fresh)) in
              elim (Bool-cases (leb max_historical_questions (length longer))) [
                | inl full ↦ rw (text, fresh, full) (omega arith, distinct')
                | inr more ↦
                    rw (text, fresh, more)
                      (dedupe_from-Kept (key ∷ seen) longer hqs (SeenIs-snoc seen result hq same)
                        (ground arith) distinct')
              ]
        ]
      ]

  -- At most 60 questions are kept, and no two of them have the same key.
  pub dedupe_historical-Kept : (raw : List HistoricalQuestion) → Kept (dedupe_historical upper raw)
  unfolding dedupe_historical
  dedupe_historical-Kept raw = dedupe_from-Kept [] [] raw (λ k. refl) (omega arith) tt
