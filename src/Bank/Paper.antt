-- ===== src/Bank/Paper.antt =====
-- domain/services/question_bank.py: the papers that `assemble_interview_questions` may give, whatever
-- the random source draws.
use mathlib.Core.List.{Perm, append_assoc, append-nil}
use interview_agent_py.Prelude.{
  ℕ, zero, suc, ◌+◌, ◌≤◌, ◌<◌, ◌≡◌, ◌⊎◌, refl, ap, sym, ◌∙◌, subst, List, [], ◌∷◌, ◌++◌, inl, inr,
  Bool-cases, Bool, true, ltb, length, take, drop, filter, length-take, length-append,
  take-append-drop, arith,
}
use interview_agent_py.Prelude.Permutations.{all, all-Perm, length-Perm}
use interview_agent_py.Errors.{Result, ok, raise, interview_question_insufficient, ◌>>=◌}
use interview_agent_py.Interview.{InterviewQuestion}
use interview_agent_py.Bank.{
  Random, QuestionBankFollowUp, QuestionCandidate, has_follow_ups, main_question,
  follow_up_question, append_follow_ups, append_questions, assemble_interview_questions,
}
use interview_agent_py.Bank.Picked.{Drawn, pick_follow_ups-Drawn}

-- The follow-ups of the main question `main`, numbered from `index`.
unfoldable pub numbered_follow_ups :
    ℕ → ℕ → QuestionCandidate → List QuestionBankFollowUp → List InterviewQuestion
numbered_follow_ups index main c [] = []
numbered_follow_ups index main c (f ∷ fs) =
    follow_up_question index main c f ∷ numbered_follow_ups (suc index) main c fs

-- The questions from place `index` on: for each chosen candidate its question, then follow-ups drawn
-- from its pool, `count` each.
pub data Paper (count : ℕ) : ℕ → List QuestionCandidate → List InterviewQuestion → Type 0 where
  done : {index : ℕ} → Paper count index [] []
  ask :
      {index : ℕ} {c : QuestionCandidate} {cs : List QuestionCandidate}
      {qs : List InterviewQuestion} (picked : List QuestionBankFollowUp)
      → Drawn c.follow_ups count picked
      → Paper count (suc index + count) cs qs
      → Paper count index
          (c ∷ cs)
          (main_question index c ∷ numbered_follow_ups (suc index) index c picked ++ qs)

append_follow_ups-eq :
    (c : QuestionCandidate) (main : ℕ) (qs : List InterviewQuestion)
    (fs : List QuestionBankFollowUp)
    → append_follow_ups c main qs fs ≡ qs ++ numbered_follow_ups (length qs) main c fs
unfolding append_follow_ups numbered_follow_ups
append_follow_ups-eq c main qs [] = sym (append-nil qs)
append_follow_ups-eq c main qs (f ∷ fs) =
    let q = follow_up_question (length qs) main c f in
    let longer : length (qs ++ q ∷ []) ≡ suc (length qs) =
      omega (arith, length-append qs (q ∷ [])) in
    append_follow_ups-eq c main (qs ++ q ∷ []) fs
    ∙ ap (λ n. (qs ++ q ∷ []) ++ numbered_follow_ups n main c fs) longer
    ∙ append_assoc qs (q ∷ []) (numbered_follow_ups (suc (length qs)) main c fs)

pub length-numbered_follow_ups :
    (index main : ℕ) (c : QuestionCandidate) (fs : List QuestionBankFollowUp)
    → length (numbered_follow_ups index main c fs) ≡ length fs
unfolding numbered_follow_ups
length-numbered_follow_ups index main c [] = refl
length-numbered_follow_ups index main c (f ∷ fs) =
    ap suc (length-numbered_follow_ups (suc index) main c fs)

-- One round of the outer loop appends a candidate's question and follow-ups.
round : ℕ → QuestionCandidate → List QuestionBankFollowUp → List InterviewQuestion
round index c picked = main_question index c ∷ numbered_follow_ups (suc index) index c picked

append-round :
    (qs : List InterviewQuestion) (c : QuestionCandidate) (picked : List QuestionBankFollowUp)
    → append_follow_ups c (length qs) (qs ++ main_question (length qs) c ∷ []) picked
      ≡ qs ++ round (length qs) c picked
unfolding round
append-round qs c picked =
    let m = main_question (length qs) c in
    let longer : length (qs ++ m ∷ []) ≡ suc (length qs) =
      omega (arith, length-append qs (m ∷ [])) in
    append_follow_ups-eq c (length qs) (qs ++ m ∷ []) picked
    ∙ ap (λ n. (qs ++ m ∷ []) ++ numbered_follow_ups n (length qs) c picked) longer
    ∙ append_assoc qs (m ∷ []) (numbered_follow_ups (suc (length qs)) (length qs) c picked)

length-round :
    (index : ℕ) (c : QuestionCandidate) (picked : List QuestionBankFollowUp)
    → length (round index c picked) ≡ suc (length picked)
unfolding round
length-round index c picked = ap suc (length-numbered_follow_ups (suc index) index c picked)

all-filter :
    (p : QuestionCandidate → Bool) (cs : List QuestionCandidate) → all p (filter p cs) ≡ true
unfolding all filter
all-filter p [] = refl
all-filter p (c ∷ cs) = ground (arith, all-filter p cs)

all-take :
    (p : QuestionCandidate → Bool) (n : ℕ) (cs : List QuestionCandidate)
    → all p cs ≡ true
    → all p (take n cs) ≡ true
unfolding all
all-take p zero cs h = refl
all-take p (suc n) [] h = refl
all-take p (suc n) (c ∷ cs) h = ground (arith, all-take p n cs)

-- The two outcomes of a call.
unfoldable pub Assembled : List QuestionCandidate → ℕ → ℕ → Result (List InterviewQuestion) → Type 0
Assembled candidates main_count follow_up_count result =
    let eligible = filter (has_follow_ups follow_up_count) candidates in
    ((length eligible < main_count) × (result ≡ raise interview_question_insufficient))
    ⊎ ((paper : List InterviewQuestion) × (result ≡ ok paper)
        × (chosen : List QuestionCandidate) × (others : List QuestionCandidate) × (length chosen
            ≡ main_count)
        × Perm (chosen ++ others) eligible
        × Paper follow_up_count 0 chosen paper)

module _ (rng : Random) where
  open rng use {State, shuffle, shuffle-Perm}

  append_questions-Paper :
      (count : ℕ) (qs : List InterviewQuestion) (cs : List QuestionCandidate) (s : State)
      → all (has_follow_ups count) cs ≡ true
      → (paper : List InterviewQuestion) × (append_questions rng count qs cs s ≡ ok (qs ++ paper))
        × Paper count (length qs) cs paper
  unfolding append_questions all has_follow_ups round
  append_questions-Paper count qs [] s enough = ([], ap ok (sym (append-nil qs)), done)
  append_questions-Paper count qs (c ∷ cs) s enough =
      let (picked, s', drawn, is_drawn) =
        pick_follow_ups-Drawn rng c.follow_ups count s (ground arith) in
      let qs' = qs ++ round (length qs) c picked in
      let (paper, appended, is_paper) = append_questions-Paper count qs' cs s' (ground arith) in
      let place : length qs' ≡ suc (length qs) + count = omega (
        arith,
        length-append qs (round (length qs) c picked),
        length-round (length qs) c picked,
        is_drawn.0,
      ) in
      (
        round (length qs) c picked ++ paper,
        ap
              (λ r. r >>= λ p.
                append_questions rng count
                  (append_follow_ups c (length qs) (qs ++ main_question (length qs) c ∷ []) p.0) cs
                  p.1)
              drawn
            ∙ ap (λ t. append_questions rng count t cs s') (append-round qs c picked)
            ∙ appended
            ∙ ap ok (append_assoc qs (round (length qs) c picked) paper),
        ask picked is_drawn (subst (λ n. Paper count n cs paper) place is_paper),
      )

  -- If enough candidates have `follow_up_count` follow-ups, the code gives a paper on `main_count`
  -- different ones of them; if not, it raises INTERVIEW_QUESTION_INSUFFICIENT.
  pub assemble_interview_questions-Paper :
      (candidates : List QuestionCandidate) (main_count follow_up_count : ℕ) (s : State)
      → Assembled candidates main_count follow_up_count
          (assemble_interview_questions rng candidates main_count follow_up_count s)
  unfolding assemble_interview_questions Assembled
  assemble_interview_questions-Paper candidates main_count follow_up_count s =
      let eligible = filter (has_follow_ups follow_up_count) candidates in
      elim (Bool-cases (ltb (length eligible) main_count)) [
        | inl few ↦ rw few (inl (ground (arith, few), refl))
        | inr enough ↦
            let enough_are_there : main_count ≤ length eligible = ground arith in
            let shuffled = shuffle eligible s in
            let moved = shuffle-Perm eligible s in
            let chosen = take main_count shuffled.0 in
            let (paper, assembled, is_paper) =
              append_questions-Paper follow_up_count [] chosen shuffled.1 (
                all-take (has_follow_ups follow_up_count) main_count shuffled.0 (
                  all-Perm (has_follow_ups follow_up_count) moved
                  ∙ all-filter (has_follow_ups follow_up_count) candidates)) in
            rw enough (
              inr (
                paper,
                assembled,
                chosen,
                drop main_count shuffled.0,
                omega
                    (arith, length-take main_count shuffled.0, length-Perm moved, enough_are_there),
                rw (take-append-drop main_count shuffled.0) moved,
                is_paper,
              ))
      ]
