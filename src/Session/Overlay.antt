-- ===== src/Session/Overlay.antt =====
-- The questions of a session with its answers put in, question by question.
use interview_agent_py.Prelude.{
  ℕ, suc, ◌≡◌, refl, ap, sym, ◌∙◌, subst, inl, inr, List, [], ◌∷◌, Option, none, some, Bool-cases,
  Option-cases, arith, if◌then◌else◌, Text, get_elem?, set, get_elem?-set_self, get_elem?-set_ne,
  lt-length_of_get_elem?, ◌==◌, ==_iff, nat_eq, IsDistinct,
}
use interview_agent_py.Prelude.Dict.{
  Dict, get, put, keys, get-put, get-none_of_contains, keys-put-IsDistinct,
}
use interview_agent_py.Interview.{InterviewQuestion, with_answer}
use interview_agent_py.Session.{InterviewAnswer, or_empty, answer_at, overlay}

pub list_ext {ℓ} :
    {A : Type ℓ} (xs ys : List A) → ((k : ℕ) → get_elem? xs k ≡ get_elem? ys k) → xs ≡ ys
list_ext [] [] h = refl
list_ext [] (y ∷ ys) h = absurd (let e = h 0 in ground arith)
list_ext (x ∷ xs) [] h = absurd (let e = h 0 in ground arith)
list_ext (x ∷ xs) (y ∷ ys) h =
    let first : x ≡ y = (let e = h 0 in cc) in
    let rest : xs ≡ ys = list_ext xs ys (λ k. h (suc k)) in rw (first, rest) refl

-- One question with the answer that the table has for it.
abbrev pub answered : Option InterviewQuestion → Option InterviewAnswer → Option InterviewQuestion
answered none ans = none
answered (some q) none = some q
answered (some q) (some ans) = some (with_answer q (or_empty ans.user_answer))

abbrev given : Option InterviewQuestion → Text → Option InterviewQuestion
given none a = none
given (some q) a = some (with_answer q a)

given_answer :
    (o : Option InterviewQuestion) (ans : InterviewAnswer)
    → answered (given o (or_empty ans.user_answer)) none ≡ answered o (some ans)
given_answer none ans = refl
given_answer (some q) ans = refl

get_elem?-answer_at :
    (qs : List InterviewQuestion) (j k : ℕ) (a : Text)
    → get_elem? (answer_at qs j a) k ≡ (if j == k then given (get_elem? qs k) a else get_elem? qs k)
unfolding answer_at
get_elem?-answer_at qs j k a = elim (Option-cases (get_elem? qs j)) [
  | inl missing ↦ elim (Bool-cases (j == k)) [
    | inl same ↦
        let absent : get_elem? qs k ≡ none =
          subst (λ i. get_elem? qs i ≡ none) ((==_iff j k).0 same) missing in
        rw (answer_at, missing, same, absent) refl
    | inr other ↦ rw (answer_at, missing, other) refl
  ]
  | inr (q, here) ↦ elim (Bool-cases (j == k)) [
    | inl same ↦
        let e : j ≡ k = (==_iff j k).0 same in
        let there : get_elem? qs k ≡ some q = subst (λ i. get_elem? qs i ≡ some q) e here in
        let written =
          get_elem?-set_self qs j (with_answer q a) (lt-length_of_get_elem? qs j here) in
        rw (answer_at, here, same, there)
          (subst (λ i. get_elem? (set qs j (with_answer q a)) i ≡ some (with_answer q a)) e written)
    | inr other ↦
        rw (answer_at, here, other) (get_elem?-set_ne qs _ (λ e. ground (arith, ==_iff j k)))
  ]
]

get_elem?-overlay :
    (answers : Dict ℕ InterviewAnswer) (qs : List InterviewQuestion) (k : ℕ)
    → IsDistinct (keys answers)
    → get_elem? (overlay answers qs) k ≡ answered (get_elem? qs k) (get answers k)
unfolding overlay get
get_elem?-overlay [] qs k h = elim (Option-cases (get_elem? qs k)) [
  | inl missing ↦ rw missing refl
  | inr (q, here) ↦ rw here refl
]
get_elem?-overlay ((j, ans) ∷ answers) qs k h =
    let a = or_empty ans.user_answer in
    let ih = get_elem?-overlay answers (answer_at qs j a) k h.1 in
    elim (Bool-cases (j == k)) [
      | inl same ↦
          let e : j ≡ k = (==_iff j k).0 same in
          let gone : get answers k ≡ none =
            subst (λ i. get answers i ≡ none) e (get-none_of_contains answers j h.0) in
          rw same (ih ∙ rw (gone, get_elem?-answer_at, same) (given_answer (get_elem? qs k) ans))
      | inr other ↦ rw other (ih ∙ rw (get_elem?-answer_at, other) refl)
    ]

given_again :
    (o : Option InterviewQuestion) (old : Option InterviewAnswer) (q : InterviewQuestion)
    (ans : InterviewAnswer)
    → answered o old ≡ some q
    → answered o (some ans) ≡ some (with_answer q (or_empty ans.user_answer))
given_again none old q ans h = absurd (ground arith)
given_again (some p) none q ans h = ap (λ o. answered o (some ans)) h
given_again (some p) (some old) q ans h = ap (λ o. answered o (some ans)) h

-- Saving an answer in the table and overlaying the table is overlaying it and then answering the
-- question.
pub overlay-put :
    (answers : Dict ℕ InterviewAnswer) (qs : List InterviewQuestion) (i : ℕ) (ans : InterviewAnswer)
    (q : InterviewQuestion)
    → IsDistinct (keys answers)
    → get_elem? (overlay answers qs) i ≡ some q
    → overlay (put answers i ans) qs
      ≡ set (overlay answers qs) i (with_answer q (or_empty ans.user_answer))
overlay-put answers qs i ans q h at = list_ext _ _ same_at
  where
    before : (k : ℕ) → get_elem? (overlay answers qs) k ≡ answered (get_elem? qs k) (get answers k)
    before k = get_elem?-overlay answers qs k h

    after :
        (k : ℕ)
        → get_elem? (overlay (put answers i ans) qs) k
          ≡ answered (get_elem? qs k) (if i == k then some ans else get answers k)
    after k =
        get_elem?-overlay (put answers i ans) qs k (keys-put-IsDistinct answers i ans h)
        ∙ ap (λ o. answered (get_elem? qs k) o) (get-put answers i k ans)

    written : ℕ → Option InterviewQuestion
    written k = get_elem? (set (overlay answers qs) i (with_answer q (or_empty ans.user_answer))) k

    same_at : (k : ℕ) → get_elem? (overlay (put answers i ans) qs) k ≡ written k
    same_at k = elim (Bool-cases (i == k)) [
      | inl same ↦
          let e : i ≡ k = (==_iff i k).0 same in
          let there = subst (λ j. get_elem? (overlay answers qs) j ≡ some q) e at in
          after k
          ∙ rw same (given_again (get_elem? qs k) (get answers k) q ans (sym (before k) ∙ there))
          ∙ sym (
              subst (λ j. written j ≡ some (with_answer q (or_empty ans.user_answer))) e
                (get_elem?-set_self (overlay answers qs) i _
                  (lt-length_of_get_elem? (overlay answers qs) i at)))
      | inr other ↦
          after k
          ∙ rw other (sym (before k))
          ∙ sym (get_elem?-set_ne (overlay answers qs) _ (λ e. ground (arith, ==_iff i k)))
    ]
