-- ===== src/Questions.antt =====
-- domain/services/question_gen.py: the questions of an interview from what a model answered, without
-- the model.
pub mod History
pub mod Distinct
pub mod Service
pub mod Numbering
pub mod Asked
mod Examples
use interview_agent_py.Prelude.{
  ℕ, zero, suc, ◌+◌, ◌-◌, ◌*◌, ◌/◌, ◌%◌, List, [], ◌∷◌, ◌++◌, Option, none, some, Bool, true, false,
  if◌then◌else◌, ltb, ◌==◌, length, take, Text, codes, is_empty, nat_eq, list_eq, join, decimal,
}
use interview_agent_py.Prelude as Prelude
use interview_agent_py.Prelude.Dict.{Dict, get, put}
use interview_agent_py.Prelude.Dict as Dict
use interview_agent_py.Interview.{InterviewQuestion, HistoricalQuestion, max_follow_up}
use interview_agent_py.Skill.{Skill, SkillCategory}

-- `round(total * 0.6)`: three fifths are never half way between two numbers. The source multiplies a
-- float, which rounds the same way for all totals below 2 ^ 50.
unfoldable pub split_resume_direction_counts : ℕ → ℕ × ℕ
split_resume_direction_counts total =
    let resume_count = (6 * total + 5) / 10 in (resume_count, total - resume_count)

-- `{c.key: c.label for c in categories}`
unfoldable pub label_map : Dict Text Text → List SkillCategory → Dict Text Text
label_map d [] = d
label_map d (c ∷ cs) = label_map (put d c.key c.label) cs

unfoldable pub allocation_lines : Dict Text Text → Dict Text ℕ → List Text
allocation_lines labels [] = []
allocation_lines labels ((key, count) ∷ allocation) =
    (codes "| " ++ (Dict.get_or labels key key ++ (codes " | " ++ (decimal count ++ codes " |"))))
    ∷ allocation_lines labels allocation

unfoldable pub build_allocation_table : Dict Text ℕ → List SkillCategory → Text
unfolding label_map allocation_lines
build_allocation_table allocation categories =
    if is_empty allocation
    then codes "（无分配）"
    else join (codes "\n") (
        codes "| 方向 | 数量 |"
        ∷ codes "|------|------|"
        ∷ allocation_lines (label_map [] categories) allocation)

-- A text with `{skill.name}` in it.
abbrev pub persona_question : Text → Text
persona_question name = codes "请结合 " ++ (name ++ codes " 方向，介绍你最有挑战的一次技术实践。")

abbrev pub default_fallback_questions : List Text
default_fallback_questions =
    codes "请介绍你最熟悉的一个项目，包括你的角色、技术选型与主要贡献。"
    ∷ codes "在最近的工作中，你遇到的最有挑战性的技术问题是什么？你是如何定位和解决的？"
    ∷ codes "请谈谈你对系统设计中可用性与一致性权衡的理解，并举一个实际例子。"
    ∷ codes "如果让你从零设计一个高并发的接口服务，你会从哪些维度考虑？关键瓶颈在哪里？"
    ∷ codes "请回顾过去一年你最有成就感的一次技术决策，为什么它是对的？事后有无改进空间？"
    ∷ []

-- `while len(texts) < count`, with fuel for each text.
unfoldable pub fill : ℕ → ℕ → List Text → List Text
fill zero count texts = texts
fill (suc fuel) count texts =
    let next =
      Prelude.get_or default_fallback_questions (length texts % length default_fallback_questions)
        [] in
    let rest = fill fuel count (texts ++ next ∷ []) in
    if ltb (length texts) count then rest else texts

abbrev pub plain_question : ℕ → Text → Text → Text → Option Text → InterviewQuestion
plain_question index text type category topic_summary = record {
  question_index = index;
  question = text;
  type = type;
  category = category;
  topic_summary = topic_summary;
  user_answer = none;
  score = none;
  feedback = none;
  is_follow_up = false;
  parent_question_index = none;
  reference_answer = none;
  key_points = [];
  scoring_rubric = none;
  source_context = none;
}

-- `for i, text in enumerate(texts, start=i)`
unfoldable pub fallback_from : ℕ → List Text → List InterviewQuestion
fallback_from i [] = []
fallback_from i (text ∷ texts) =
    plain_question i text (codes "GENERAL") (codes "通用") none ∷ fallback_from (suc i) texts

-- The texts before the loop: the question on the skill, if it has a persona.
unfoldable pub persona_texts : Skill → List Text
persona_texts skill = elim skill.persona [
  | none ↦ []
  | some persona ↦ if is_empty persona then [] else persona_question skill.name ∷ []
]

unfoldable pub generate_fallback_questions : Skill → ℕ → List InterviewQuestion
unfolding fill fallback_from persona_texts
generate_fallback_questions skill count =
    if count == 0 then [] else fallback_from 0 (take count (fill count count (persona_texts skill)))

-- The main question at its new place. The reference fields are not passed on.
abbrev pub replaced : ℕ → InterviewQuestion → InterviewQuestion
replaced index q = record (plain_question index q.question q.type q.category q.topic_summary) {
  user_answer = q.user_answer;
  score = q.score;
  feedback = q.feedback;
}

-- The inner loop, with what follows it.
unfoldable pub follow_ups_from :
    InterviewQuestion → ℕ → ℕ → List Text → List InterviewQuestion → List InterviewQuestion
follow_ups_from main_q main_index next_index [] rest = rest
follow_ups_from main_q main_index next_index (fu ∷ fus) rest =
    record (plain_question next_index fu main_q.type main_q.category none) {
      is_follow_up = true;
      parent_question_index = some main_index;
    }
    ∷ follow_ups_from main_q main_index (suc next_index) fus rest

unfoldable pub attach_from :
    ℕ → Dict ℕ (List Text) → ℕ → List InterviewQuestion → List InterviewQuestion
unfolding follow_ups_from
attach_from max_count follow_up_map next_index [] = []
attach_from max_count follow_up_map next_index (main_q ∷ main_qs) =
    let follow_ups = take max_count (Dict.get_or follow_up_map main_q.question_index []) in
    replaced next_index main_q
    ∷ follow_ups_from main_q next_index (suc next_index) follow_ups
        (attach_from max_count follow_up_map (suc next_index + length follow_ups) main_qs)

-- With the default limit of follow-ups, which every caller takes.
unfoldable pub attach_follow_ups :
    List InterviewQuestion → Dict ℕ (List Text) → List InterviewQuestion
unfolding attach_from
attach_follow_ups main_qs follow_up_map = attach_from max_follow_up follow_up_map 0 main_qs
