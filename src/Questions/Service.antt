-- ===== src/Questions/Service.antt =====
-- application/interview/question_service.py: how the questions of an interview are made. What a model
-- answers to the prompts of a call for so many questions is a parameter, `none` where the call raises.
use interview_agent_py.Prelude.{
  ℕ, suc, List, [], ◌∷◌, ◌++◌, Option, none, some, if◌then◌else◌, ltb, ◌==◌, ◌=?◌, length, take,
  Text, codes, is_empty, nat_eq, list_eq,
}
use interview_agent_py.Prelude.Dict.{Dict, put}
use interview_agent_py.Errors.{Result, ok, raise, ◌>>=◌, skill_not_found}
use interview_agent_py.Interview.{InterviewQuestion}
use interview_agent_py.Skill.{Skill}
use interview_agent_py.Questions.{
  split_resume_direction_counts, plain_question, attach_follow_ups, generate_fallback_questions,
}

pub record QuestionItem : Type 0 where
  pub question : Text
  pub type : Text
  pub category : Text
  pub topic_summary : Option Text
  pub follow_ups : List Text

-- A main question with the texts of its follow-ups.
abbrev pub MainQuestion : Type 0
MainQuestion = InterviewQuestion × List Text

-- `for i, item in enumerate(items, start=i)`
unfoldable pub convert_from : ℕ → List QuestionItem → List MainQuestion
convert_from i [] = []
convert_from i (item ∷ items) =
    let category = if is_empty item.category then codes "通用" else item.category in
    (plain_question i item.question item.type category item.topic_summary, item.follow_ups)
    ∷ convert_from (suc i) items

unfoldable pub convert_to_questions : List QuestionItem → ℕ → List MainQuestion
unfolding convert_from
convert_to_questions questions target_count = convert_from 0 (take target_count questions)

-- `_call_resume_llm` and `_call_direction_llm`.
unfoldable pub call_llm : (ℕ → Option (List QuestionItem)) → ℕ → Option (List MainQuestion)
unfolding convert_to_questions
call_llm answer question_count =
    if question_count == 0 then some [] else elim (answer question_count) [
      | none ↦ none
      | some items ↦ some (convert_to_questions items question_count)
    ]

unfoldable pub renumbered : ℕ → List MainQuestion → List InterviewQuestion
renumbered i [] = []
renumbered i ((q, fus) ∷ items) =
    plain_question i q.question q.type q.category q.topic_summary ∷ renumbered (suc i) items

-- `{i: fus for i, (_, fus) in enumerate(items) if fus}`
unfoldable pub follow_up_map : Dict ℕ (List Text) → ℕ → List MainQuestion → Dict ℕ (List Text)
follow_up_map d i [] = d
follow_up_map d i ((q, fus) ∷ items) =
    follow_up_map (if is_empty fus then d else put d i fus) (suc i) items

unfoldable pub attach : List MainQuestion → List InterviewQuestion
unfolding renumbered follow_up_map
attach items = attach_follow_ups (renumbered 0 items) (follow_up_map [] 0 items)

unfoldable pub cap_and_attach : List MainQuestion → ℕ → List InterviewQuestion
unfolding attach
cap_and_attach items total = attach (take total items)

unfoldable pub merge_with_follow_ups :
    List MainQuestion → List MainQuestion → ℕ → List InterviewQuestion
unfolding attach
merge_with_follow_ups resume direction total =
    let combined = resume ++ direction in
    attach (if ltb total (length combined) then take total combined else combined)

-- The branches on the results of `asyncio.gather`.
unfoldable pub combine :
    Skill → ℕ → Option (List MainQuestion) → Option (List MainQuestion) → List InterviewQuestion
unfolding merge_with_follow_ups cap_and_attach
combine skill question_count (some resume_qs) (some direction_qs) =
    merge_with_follow_ups resume_qs direction_qs question_count
combine skill question_count (some resume_qs) none = cap_and_attach resume_qs question_count
combine skill question_count none (some direction_qs) = cap_and_attach direction_qs question_count
combine skill question_count none none = generate_fallback_questions skill question_count

-- The two models, one for the questions on the resume and one for those on the skill.
pub record Models : Type 0 where
  pub resume : ℕ → Option (List QuestionItem)
  pub direction : ℕ → Option (List QuestionItem)

unfoldable pub generate_with_resume : Models → Skill → ℕ → List InterviewQuestion
unfolding combine call_llm
generate_with_resume models skill question_count =
    let counts = split_resume_direction_counts question_count in
    combine skill question_count (call_llm models.resume counts.0)
      (call_llm models.direction counts.1)

unfoldable pub generate_direction_only : Models → Skill → ℕ → List InterviewQuestion
unfolding call_llm cap_and_attach
generate_direction_only models skill question_count =
    elim (call_llm models.direction question_count) [
      | none ↦ generate_fallback_questions skill question_count
      | some qs ↦ cap_and_attach qs question_count
    ]

-- Without custom categories: the first skill with the id.
unfoldable pub resolve_skill : List Skill → Text → Result Skill
resolve_skill [] skill_id = raise skill_not_found
resolve_skill (s ∷ skills) skill_id =
    if s.id =? skill_id then ok s else resolve_skill skills skill_id

-- `if resume_text`
unfoldable pub by_resume : Models → Skill → Option Text → ℕ → List InterviewQuestion
unfolding generate_with_resume generate_direction_only
by_resume models skill none question_count = generate_direction_only models skill question_count
by_resume models skill (some text) question_count =
    if is_empty text
    then generate_direction_only models skill question_count
    else generate_with_resume models skill question_count

-- No lookup without a name.
abbrev pub looked_up : Option (Result (Unit {0})) → Result (Unit {0})
looked_up none = ok tt
looked_up (some found) = found

-- `provider` is what looking up the named provider gives, `none` if none is named.
unfoldable pub generate :
    Models
    → List Skill
    → Text
    → Option Text
    → ℕ
    → Option (Result (Unit {0}))
    → Result (List InterviewQuestion)
unfolding resolve_skill by_resume
generate models skills skill_id resume_text question_count provider =
    resolve_skill skills skill_id >>= λ skill.
    looked_up provider >>= λ _. ok (by_resume models skill resume_text question_count)
