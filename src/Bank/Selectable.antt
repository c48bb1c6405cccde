-- ===== src/Bank/Selectable.antt =====
-- domain/services/question_bank.py: the capacity that is promised is the one that assembling has.
use interview_agent_py.Prelude.{
  ℕ, zero, suc, ◌+◌, ◌≤◌, ◌<◌, ◌≡◌, ◌↔◌, List, Option, some, inl, inr, true, length, filter,
  get_elem?, length-append, Text, arith,
}
use interview_agent_py.Prelude.Permutations.{length-Perm}
use interview_agent_py.Errors.{ok}
use interview_agent_py.Interview.{InterviewQuestion}
use interview_agent_py.Bank.{
  Random, QuestionCandidate, has_follow_ups, assemble_interview_questions,
}
use interview_agent_py.Bank.Paper.{Assembled, assemble_interview_questions-Paper}
use interview_agent_py.Bank.Capacity.{
  FollowUpOption, in_scope, follow_up_options, calculate_interview_capacity,
}

module _ (rng : Random) where
  open rng use {State}

  -- A call that gives a paper.
  abbrev pub Succeeds : List QuestionCandidate → ℕ → ℕ → State → Type 0
  Succeeds candidates main_count follow_up_count s =
      (qs : List InterviewQuestion) × (assemble_interview_questions rng candidates main_count
          follow_up_count s
        ≡ ok qs)

  assemble_interview_questions-Succeeds_iff :
      (candidates : List QuestionCandidate) (main_count follow_up_count : ℕ) (s : State)
      → (main_count ≤ length (filter (has_follow_ups follow_up_count) candidates))
        ↔ Succeeds candidates main_count follow_up_count s
  unfolding Assembled
  assemble_interview_questions-Succeeds_iff candidates main_count follow_up_count s =
      elim (assemble_interview_questions-Paper rng candidates main_count follow_up_count s) [
        | inl (few, refused) ↦
            (λ enough. absurd (omega arith), λ (qs, given). absurd (ground arith))
        | inr (paper, given, chosen, others, count, part, is_paper) ↦ (
          λ enough. (paper, given),
          λ _. omega (arith, length-append chosen others, length-Perm part, count),
        )
      ]

  follow_up_options-selectable_iff :
      (scoped : List QuestionCandidate) (main_count start n k : ℕ) (s : State) {o : FollowUpOption}
      → get_elem? (follow_up_options scoped main_count start n) k ≡ some o
      → (o.follow_up_count ≡ start + k)
        × ((o.selectable ≡ true) ↔ ((0 < main_count) × Succeeds scoped main_count (start + k) s))
  unfolding follow_up_options
  follow_up_options-selectable_iff scoped main_count start zero k s at = absurd (ground arith)
  follow_up_options-selectable_iff scoped main_count start (suc n) zero s at =
      let e : start + 0 ≡ start = omega arith in
      let succeeds = assemble_interview_questions-Succeeds_iff scoped main_count start s in
      let enough = filter (has_follow_ups start) scoped in
      rw e (
        ground arith,
        (
          λ selectable. (ground arith, succeeds.0 (ground arith)),
          λ (some_main, given).
              let fits : main_count ≤ length enough = succeeds.1 given in ground (arith, fits),
        ),
      )
  follow_up_options-selectable_iff scoped main_count start (suc n) (suc k) s at =
      let e : start + suc k ≡ suc start + k = omega arith in
      rw e (follow_up_options-selectable_iff scoped main_count (suc start) n k s at)

  -- The option at place `follow_up_count` of the capacity is selectable exactly when an interview of at
  -- least one main question, with so many follow-ups each, can be assembled from the candidates in scope.
  pub calculate_interview_capacity-selectable_iff :
      (all_candidates : List QuestionCandidate) (category : Option Text)
      (main_count max_follow_up follow_up_count : ℕ) (s : State) {o : FollowUpOption}
      → get_elem?
          (calculate_interview_capacity all_candidates category main_count max_follow_up).1
          follow_up_count
        ≡ some o
      → (o.follow_up_count ≡ follow_up_count)
        × ((o.selectable ≡ true) ↔ (
            (0 < main_count)
            × Succeeds (filter (in_scope category) all_candidates) main_count follow_up_count s))
  unfolding calculate_interview_capacity
  calculate_interview_capacity-selectable_iff all_candidates category main_count max_follow_up
        follow_up_count s at =
      let e : 0 + follow_up_count ≡ follow_up_count = omega arith in
      rw e at (
        follow_up_options-selectable_iff (filter (in_scope category) all_candidates) main_count 0
          (max_follow_up + 1) follow_up_count s at)
