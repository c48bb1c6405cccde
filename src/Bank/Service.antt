-- ===== src/Bank/Service.antt =====
-- application/knowledgebase/interview_service.py: interviews on the questions of a knowledge base. A
-- column with JSON text holds what the text encodes.
use interview_agent_py.Prelude.{
  ℕ, List, [], ◌∷◌, map, Option, none, some, Bool, true, ◌&&◌, if◌then◌else◌, ◌=?◌, ◌==◌, Text,
  codes, contains, filter, nat_eq, list_eq, option_eq,
}
use interview_agent_py.Errors.{Result, ok, raise, ◌>>=◌, knowledge_base_not_found}
use interview_agent_py.Interview.{InterviewQuestion}
use interview_agent_py.Session.{SessionView, Op}
use interview_agent_py.Session.Service.{create_session_from_questions}
use interview_agent_py.Bank.{
  Random, QuestionBankFollowUp, QuestionCandidate, trim_to_none, assemble_interview_questions,
}
use interview_agent_py.Bank.Capacity.{
  CategoryOption, FollowUpOption, calculate_interview_capacity, max_follow_up_count,
}

-- A row of the bank, with its candidate before its follow-ups are cleaned.
pub record KnowledgeBaseQuestion : Type 0 where
  pub knowledge_base_id : ℕ
  pub difficulty : Option Text
  pub status : Text
  pub content : QuestionCandidate

-- The ids of the knowledge bases, and the questions, the last updated first.
pub record KnowledgeBases : Type 0 where
  pub ids : List ℕ
  pub questions : List KnowledgeBaseQuestion

unfoldable pub parse_usable_follow_ups : List QuestionBankFollowUp → List QuestionBankFollowUp
unfolding trim_to_none
parse_usable_follow_ups [] = []
parse_usable_follow_ups (item ∷ items) = elim (trim_to_none (some item.question)) [
  | none ↦ parse_usable_follow_ups items
  | some question ↦ record item { question = question } ∷ parse_usable_follow_ups items
]

unfoldable pub to_candidate : KnowledgeBaseQuestion → QuestionCandidate
unfolding parse_usable_follow_ups
to_candidate row = record row.content {
  follow_ups = parse_usable_follow_ups row.content.follow_ups;
}

abbrev pub valid_difficulties : List Text
valid_difficulties = codes "junior" ∷ codes "mid" ∷ codes "senior" ∷ []

unfoldable pub normalize_difficulty : Option Text → Text
unfolding trim_to_none contains
normalize_difficulty difficulty = elim (trim_to_none difficulty) [
  | none ↦ codes "mid"
  | some trimmed ↦ if contains trimmed valid_difficulties then trimmed else codes "mid"
]

-- The conditions of the query without the category.
unfoldable pub is_active : ℕ → Text → KnowledgeBaseQuestion → Bool
is_active kb_id difficulty row =
    row.knowledge_base_id == kb_id
    && row.difficulty =? some difficulty
    && row.status =? codes "ACTIVE"

-- `KnowledgeBaseQuestion.category == category`, where a category is asked for.
unfoldable pub has_category : Option Text → KnowledgeBaseQuestion → Bool
has_category none row = true
has_category (some category) row = row.content.category =? some category

unfoldable pub find_active_questions :
    KnowledgeBases → ℕ → Text → Option Text → List KnowledgeBaseQuestion
unfolding is_active has_category
find_active_questions bases kb_id difficulty category =
    filter (has_category category) (filter (is_active kb_id difficulty) bases.questions)

unfoldable pub require_kb : KnowledgeBases → ℕ → Result (Unit {0})
unfolding contains
require_kb bases kb_id = if contains kb_id bases.ids then ok tt else raise knowledge_base_not_found

pub record CreateKnowledgeBaseInterviewRequest : Type 0 where
  pub knowledge_base_id : ℕ
  pub category : Option Text
  pub difficulty : Option Text
  pub main_question_count : ℕ
  pub follow_up_count : ℕ
  pub llm_provider : Option Text

pub record CapacityResponse : Type 0 where
  pub knowledge_base_id : ℕ
  pub category : Option Text
  pub difficulty : Text
  pub main_question_count : ℕ
  pub categories : List CategoryOption
  pub follow_up_options : List FollowUpOption

unfoldable pub get_capacity :
    KnowledgeBases → ℕ → Option Text → Option Text → ℕ → Result CapacityResponse
unfolding require_kb find_active_questions calculate_interview_capacity
get_capacity bases kb_id category difficulty main_question_count =
    let normalized_category = trim_to_none category in
    let normalized_difficulty = normalize_difficulty difficulty in
    let rows = find_active_questions bases kb_id normalized_difficulty none in
    let options =
      calculate_interview_capacity (map to_candidate rows) normalized_category main_question_count
        max_follow_up_count in
    require_kb bases kb_id >>= λ _. ok (record {
      knowledge_base_id = kb_id;
      category = normalized_category;
      difficulty = normalized_difficulty;
      main_question_count = main_question_count;
      categories = options.0;
      follow_up_options = options.1;
    })

module _ (rng : Random) where
  open rng use {State}

  unfoldable pub paper_for :
      KnowledgeBases → State → CreateKnowledgeBaseInterviewRequest → Result (List InterviewQuestion)
  unfolding require_kb find_active_questions
  paper_for bases s request =
      let category = trim_to_none request.category in
      let difficulty = normalize_difficulty request.difficulty in
      let rows = find_active_questions bases request.knowledge_base_id difficulty category in
      require_kb bases request.knowledge_base_id >>= λ _.
      assemble_interview_questions rng (map to_candidate rows) request.main_question_count
        request.follow_up_count s

  -- The id of the new session is fresh.
  unfoldable pub create_session :
      KnowledgeBases → State → Text → CreateKnowledgeBaseInterviewRequest → Op SessionView
  unfolding paper_for create_session_from_questions
  create_session bases s session_id request w = elim (paper_for bases s request) [
    | raise e ↦ (raise e, w)
    | ok questions ↦
        create_session_from_questions session_id questions request.llm_provider
          (codes "knowledge-base") (normalize_difficulty request.difficulty)
          (some request.knowledge_base_id) (trim_to_none request.category) w
  ]
