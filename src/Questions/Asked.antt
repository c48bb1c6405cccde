-- ===== src/Questions/Asked.antt =====
-- application/interview/question_service.py: the questions that are generated, whatever the models
-- answer.
use interview_agent_py.Prelude.{
  ℕ, suc, ◌*◌, ◌≤◌, ◌≡◌, subst, List, [], ◌∷◌, ◌++◌, Option, none, some, inl, inr, ltb, Bool-cases,
  Option-cases, length, take, length-take, Text, arith,
}
use interview_agent_py.Errors.{Result, ok, raise, ◌>>=◌}
use interview_agent_py.Interview.{InterviewQuestion, max_follow_up}
use interview_agent_py.Interview.Numbered.{Numbered}
use interview_agent_py.Skill.{Skill}
use interview_agent_py.Questions.Service.{
  MainQuestion, Models, call_llm, cap_and_attach, merge_with_follow_ups, combine,
  generate_with_resume, generate_direction_only, generate, resolve_skill, looked_up, by_resume,
}
use interview_agent_py.Questions.Numbering.{
  main_count, GoodFrom, attach-Good, generate_fallback_questions-Good,
}

-- Numbered from the start, with at most `count` main questions and two follow-ups for each.
abbrev pub Asked : ℕ → List InterviewQuestion → Type 0
Asked count qs =
    Numbered qs × (main_count qs ≤ count) × (length qs ≤ main_count qs * suc max_follow_up)

Good-Asked :
    {mains count : ℕ} (qs : List InterviewQuestion)
    → GoodFrom 0 none mains qs
    → mains ≤ count
    → Asked count qs
unfolding Numbered
Good-Asked {mains} {count} qs good few = (good.0, omega (arith, good.1, few), rw good.1 good.2)

cap_and_attach-Asked :
    (items : List MainQuestion) (total : ℕ) → Asked total (cap_and_attach items total)
unfolding cap_and_attach
cap_and_attach-Asked items total =
    Good-Asked _ (attach-Good (take total items)) (omega (arith, length-take total items))

merge_with_follow_ups-Asked :
    (resume direction : List MainQuestion) (total : ℕ)
    → Asked total (merge_with_follow_ups resume direction total)
unfolding merge_with_follow_ups
merge_with_follow_ups-Asked resume direction total =
    let combined = resume ++ direction in
    elim (Bool-cases (ltb total (length combined))) [
      | inl long ↦
          rw (merge_with_follow_ups, long)
            (Good-Asked _ (attach-Good (take total combined))
              (omega (arith, length-take total combined)))
      | inr short ↦
          rw (merge_with_follow_ups, short) (Good-Asked _ (attach-Good combined) (ground arith))
    ]

combine-Asked :
    (skill : Skill) (count : ℕ) (resume direction : Option (List MainQuestion))
    → Asked count (combine skill count resume direction)
unfolding combine
combine-Asked skill count (some resume) (some direction) =
    merge_with_follow_ups-Asked resume direction count
combine-Asked skill count (some resume) none = cap_and_attach-Asked resume count
combine-Asked skill count none (some direction) = cap_and_attach-Asked direction count
combine-Asked skill count none none =
    Good-Asked _ (generate_fallback_questions-Good skill count) (omega arith)

generate_direction_only-Asked :
    (models : Models) (skill : Skill) (count : ℕ)
    → Asked count (generate_direction_only models skill count)
unfolding generate_direction_only
generate_direction_only-Asked models skill count =
    elim (Option-cases (call_llm models.direction count)) [
      | inl failed ↦
          rw (generate_direction_only, failed)
            (Good-Asked _ (generate_fallback_questions-Good skill count) (omega arith))
      | inr (qs, answered) ↦ rw (generate_direction_only, answered) (cap_and_attach-Asked qs count)
    ]

by_resume-Asked :
    (models : Models) (skill : Skill) (resume_text : Option Text) (count : ℕ)
    → Asked count (by_resume models skill resume_text count)
unfolding by_resume generate_with_resume
by_resume-Asked models skill none count = generate_direction_only-Asked models skill count
by_resume-Asked models skill (some []) count = generate_direction_only-Asked models skill count
by_resume-Asked models skill (some (c ∷ text)) count = combine-Asked skill count _ _

-- The questions that are generated, by resume or not, are numbered by their places, each follow-up
-- names the main question before it, and there are at most as many main questions as asked for, with
-- at most two follow-ups each, whatever the models answer.
pub generate-Asked :
    (models : Models) (skills : List Skill) (skill_id : Text) (resume_text : Option Text)
    (question_count : ℕ) (provider : Option (Result (Unit {0}))) {qs : List InterviewQuestion}
    → generate models skills skill_id resume_text question_count provider ≡ ok qs
    → Asked question_count qs
unfolding generate
generate-Asked models skills skill_id resume_text question_count provider {qs} given =
    go (resolve_skill skills skill_id) (looked_up provider) given
  where
    go :
        (skill : Result Skill) (found : Result (Unit {0}))
        → (skill >>= λ skill. found >>= λ _. ok (by_resume models skill resume_text question_count))
          ≡ ok qs
        → Asked question_count qs
    go (raise e) found given = absurd (ground arith)
    go (ok skill) (raise e) given = absurd (ground arith)
    go (ok skill) (ok tt) given =
        let same : by_resume models skill resume_text question_count ≡ qs = ground arith in
        subst (Asked question_count) same (by_resume-Asked models skill resume_text question_count)
