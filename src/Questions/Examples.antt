-- ===== src/Questions/Examples.antt =====
-- Questions generated from the answers of a model that fails on resumes.
use interview_agent_py.Prelude.{◌≡◌, refl, List, [], ◌∷◌, none, some, false, codes, list_beq}
use interview_agent_py.Interview.{InterviewQuestion, HistoricalQuestion}
use interview_agent_py.Skill.{Skill}
use interview_agent_py.Questions.{split_resume_direction_counts}
use interview_agent_py.Questions.History.{dedupe_historical}
use interview_agent_py.Questions.Distinct.{Kept, dedupe_historical-Kept}
use interview_agent_py.Questions.Service.{QuestionItem, Models, generate, by_resume, resolve_skill}
use interview_agent_py.Questions.Asked.{Asked, generate-Asked}

abbrev skill : Skill
skill = record {
  id = codes "java";
  name = codes "Java";
  description = none;
  categories = [];
  is_preset = false;
  persona = none;
  source_jd = none;
  icon = none;
  gradient = none;
  icon_bg = none;
  icon_color = none;
}

abbrev item : QuestionItem
item = record {
  question = codes "q";
  type = codes "T";
  category = [];
  topic_summary = none;
  follow_ups = codes "f" ∷ codes "g" ∷ codes "h" ∷ [];
}

abbrev models : Models
models = record { resume = λ n. none; direction = λ n. some (item ∷ item ∷ []) }

resume_counts : split_resume_direction_counts 7 ≡ (4, 3)
unfolding split_resume_direction_counts
resume_counts = refl

generated : List InterviewQuestion
generated = by_resume models skill (some (codes "r")) 3

generate-Asked_example : Asked 3 generated
unfolding generated generate resolve_skill list_beq
generate-Asked_example =
    generate-Asked models (skill ∷ []) (codes "java") (some (codes "r")) 3 none refl

abbrev asked_before : List HistoricalQuestion
asked_before =
    record { question = codes " q"; type = none; topic_summary = none }
    ∷ record { question = codes "p"; type = none; topic_summary = some (codes "q ") }
    ∷ []

dedupe_historical-Kept_example : Kept (λ t. t) (dedupe_historical (λ t. t) asked_before)
dedupe_historical-Kept_example = dedupe_historical-Kept (λ t. t) asked_before
