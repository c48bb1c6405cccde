-- ===== src/Bank/Numbering.antt =====
-- domain/services/question_bank.py: the numbers of the questions on a paper.
use interview_agent_py.Prelude.{
  ℕ, suc, ◌+◌, ◌*◌, ◌≡◌, refl, ap, sym, ◌∙◌, subst, List, [], ◌∷◌, ◌++◌, length, length-append,
  arith, Option, none, some, inl, inr,
}
use native.Mathlib.Nat.{zero-mul, suc-mul}
use interview_agent_py.Errors.{ok}
use interview_agent_py.Interview.{InterviewQuestion}
use interview_agent_py.Interview.Numbered.{NumberedFrom, Numbered}
use interview_agent_py.Bank.{
  Random, QuestionBankFollowUp, QuestionCandidate, assemble_interview_questions,
}
use interview_agent_py.Bank.Paper.{
  Paper, done, ask, Assembled, numbered_follow_ups, length-numbered_follow_ups,
  assemble_interview_questions-Paper,
}

numbered_follow_ups-NumberedFrom :
    (index main : ℕ) (c : QuestionCandidate) (fs : List QuestionBankFollowUp)
    (qs : List InterviewQuestion)
    → NumberedFrom (index + length fs) (some main) qs
    → NumberedFrom index (some main) (numbered_follow_ups index main c fs ++ qs)
unfolding numbered_follow_ups
numbered_follow_ups-NumberedFrom index main c [] qs rest =
    let e : index + 0 ≡ index = omega arith in subst (λ n. NumberedFrom n (some main) qs) e rest
numbered_follow_ups-NumberedFrom index main c (f ∷ fs) qs rest =
    let e : index + suc (length fs) ≡ suc index + length fs = omega arith in
    (
      refl,
      refl,
      λ _ no. absurd (ground (arith, no)),
      numbered_follow_ups-NumberedFrom (suc index) main c fs qs
          (subst (λ n. NumberedFrom n (some main) qs) e rest),
    )

Paper-NumberedFrom :
    {count index : ℕ} {cs : List QuestionCandidate} {qs : List InterviewQuestion}
    → Paper count index cs qs
    → (main : Option ℕ) → NumberedFrom index main qs
Paper-NumberedFrom done main = tt
Paper-NumberedFrom {count} (ask {index} {c} {cs} {qs} picked drawn rest) main =
    let e : suc index + count ≡ suc index + length picked = omega (arith, drawn.0) in
    (
      refl,
      refl,
      λ no _. absurd (ground (arith, no)),
      numbered_follow_ups-NumberedFrom (suc index) index c picked qs
          (subst (λ n. NumberedFrom n (some index) qs) e (Paper-NumberedFrom rest (some index))),
    )

length-Paper :
    {count index : ℕ} {cs : List QuestionCandidate} {qs : List InterviewQuestion}
    → Paper count index cs qs
    → length qs ≡ length cs * suc count
length-Paper {count} done = sym (zero-mul (suc count))
length-Paper {count} (ask {index} {c} {cs} {qs} picked drawn rest) = omega (
  arith,
  suc-mul (length cs) (suc count),
  length-append (numbered_follow_ups (suc index) index c picked) qs,
  length-numbered_follow_ups (suc index) index c picked,
  drawn.0,
  length-Paper rest,
)

module _ (rng : Random) where
  open rng use {State}

  -- If a call gives an interview, it has `main_count` times one plus `follow_up_count` questions, each
  -- with its place as its index, and each follow-up names the last main question before it.
  pub assemble_interview_questions-Numbered :
      (candidates : List QuestionCandidate) (main_count follow_up_count : ℕ) (s : State)
      {qs : List InterviewQuestion}
      → assemble_interview_questions rng candidates main_count follow_up_count s ≡ ok qs
      → (length qs ≡ main_count * suc follow_up_count) × Numbered qs
  unfolding Assembled Numbered
  assemble_interview_questions-Numbered candidates main_count follow_up_count s {qs} assembled =
      elim (assemble_interview_questions-Paper rng candidates main_count follow_up_count s) [
        | inl (few, refused) ↦ absurd (ground arith)
        | inr (paper, given, chosen, others, count, part, is_paper) ↦
            let same : paper ≡ qs = ground arith in
            (
              subst (λ t. length t ≡ main_count * suc follow_up_count) same
                  (length-Paper is_paper ∙ ap (λ n. n * suc follow_up_count) count),
              subst Numbered same (Paper-NumberedFrom is_paper none),
            )
      ]
