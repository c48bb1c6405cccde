-- ===== src/Bank/Examples.antt =====
-- Interviews assembled from a small bank, by a random source that keeps the order.
use mathlib.Core.List.Perm
use interview_agent_py.Prelude.{
  ℕ, ◌*◌, ◌<◌, ◌≡◌, ◌↔◌, refl, List, [], ◌∷◌, none, some, true, Text, codes, strip, list_beq,
  option_beq, contains, leb, length, map, filter, arith,
}
use interview_agent_py.Prelude.Int.{pos}
use interview_agent_py.Prelude.Dict.{get, put}
use interview_agent_py.Prelude.Permutations.{swap}
use interview_agent_py.Errors.{ok, raise, interview_question_insufficient}
use interview_agent_py.Interview.{InterviewQuestion}
use interview_agent_py.Interview.Numbered.{Numbered}
use interview_agent_py.Evaluation.{EvaluationReport, ReferenceAnswer}
use interview_agent_py.Bank.{
  Random, QuestionBankFollowUp, QuestionCandidate, trim_to_none, default_string, has_follow_ups,
  main_question, follow_up_question, append_follow_ups, exchange, pick_follow_ups, append_questions,
  assemble_interview_questions,
}
use interview_agent_py.Bank.Paper.{Assembled, assemble_interview_questions-Paper}
use interview_agent_py.Bank.Numbering.{assemble_interview_questions-Numbered}
use interview_agent_py.Prelude.Sorting.{sorted}
use interview_agent_py.Bank.Capacity.{
  FollowUpOption, count_names, category_options, follow_up_options, calculate_interview_capacity,
  in_scope, max_follow_up_count,
}
use interview_agent_py.Bank.Selectable.{Succeeds, calculate_interview_capacity-selectable_iff}
use interview_agent_py.Bank.Service.{
  KnowledgeBases, CreateKnowledgeBaseInterviewRequest, CapacityResponse, get_capacity, require_kb,
  find_active_questions, is_active, has_category, to_candidate, parse_usable_follow_ups,
  normalize_difficulty, create_session,
}
use interview_agent_py.Bank.Promise.{Created, create_session-Created}
use interview_agent_py.Session.{World}
use interview_agent_py.Bank.References.{bank_answer, questions_by_index, with_bank_answer}

abbrev in_order : Random
in_order = record {
  State = Unit {0};
  shuffle = λ xs s. (xs, s);
  randrange = λ start stop s. (start, s);
  shuffle-Perm = λ xs s. Perm.rfl;
  randrange-InRange = λ start stop s h. (omega arith, h);
}

abbrev follow_up : Text → QuestionBankFollowUp
follow_up text = record {
  question = text;
  reference_answer = none;
  key_points = [];
  scoring_rubric = none;
}

abbrev candidate : Text → List QuestionBankFollowUp → QuestionCandidate
candidate text follow_ups = record {
  question = text;
  type = some (codes " ");
  category = none;
  topic_summary = none;
  reference_answer = some (codes "because");
  key_points = codes "point" ∷ [];
  scoring_rubric = none;
  source_context = none;
  follow_ups = follow_ups;
}

abbrev bank : List QuestionCandidate
bank =
    candidate (codes "alone") []
    ∷ candidate (codes "why") (follow_up (codes "how") ∷ follow_up (codes "when") ∷ [])
    ∷ []

abbrev paper : List InterviewQuestion
paper =
    main_question 0 (candidate (codes "why") [])
    ∷ follow_up_question 1 0 (candidate (codes "why") []) (follow_up (codes "how"))
    ∷ []

one_question_fits : assemble_interview_questions in_order bank 1 1 tt ≡ ok paper
unfolding assemble_interview_questions append_questions pick_follow_ups exchange append_follow_ups
    filter has_follow_ups default_string swap
one_question_fits = refl

two_questions_do_not :
    assemble_interview_questions in_order bank 2 1 tt ≡ raise interview_question_insufficient
unfolding assemble_interview_questions filter has_follow_ups
two_questions_do_not = refl

assemble_interview_questions-Paper_example :
    Assembled bank 1 1 (assemble_interview_questions in_order bank 1 1 tt)
assemble_interview_questions-Paper_example = assemble_interview_questions-Paper in_order bank 1 1 tt

assemble_interview_questions-Numbered_example : (length paper ≡ 1 * 2) × Numbered paper
assemble_interview_questions-Numbered_example =
    assemble_interview_questions-Numbered in_order bank 1 1 tt one_question_fits

calculate_interview_capacity-selectable_iff_example :
    (◌≡◌ {A = ℕ} 1 1)
    × ((true ≡ true) ↔ ((0 < 1) × Succeeds in_order (filter (in_scope none) bank) 1 1 tt))
unfolding calculate_interview_capacity follow_up_options filter in_scope has_follow_ups
calculate_interview_capacity-selectable_iff_example =
    calculate_interview_capacity-selectable_iff in_order bank none 1 max_follow_up_count 1 tt
      {o = record { follow_up_count = 1; available_question_count = 1; selectable = true }} refl

abbrev reference : Text → ReferenceAnswer
reference answer = record {
  question_index = 0;
  question = codes "why";
  reference_answer = answer;
  key_points = [];
}

abbrev report : EvaluationReport
report = record {
  session_id = codes "s";
  total_questions = 2;
  overall_score = pos 5;
  category_scores = [];
  question_details = [];
  overall_feedback = [];
  strengths = [];
  improvements = [];
  reference_answers = reference (codes "from the model") ∷ [];
  degraded_reasons = [];
}

the_bank_answers :
    map (with_bank_answer (questions_by_index [] paper)) report.reference_answers
    ≡ record (reference (codes "because")) { key_points = codes "point" ∷ [] } ∷ []
unfolding with_bank_answer questions_by_index bank_answer get put strip
the_bank_answers = refl

abbrev bases : KnowledgeBases
bases = record {
  ids = 7 ∷ [];
  questions =
      map
        (λ c. record {
          knowledge_base_id = 7;
          difficulty = some (codes "mid");
          status = codes "ACTIVE";
          content = c;
        })
        bank;
}

abbrev request : CreateKnowledgeBaseInterviewRequest
request = record {
  knowledge_base_id = 7;
  category = some (codes " ");
  difficulty = none;
  main_question_count = 1;
  follow_up_count = 1;
  llm_provider = none;
}

abbrev empty_world : World
empty_world = record { rows = []; resumes = []; hashes = []; unfinished = []; tasks = [] }

abbrev offered : ℕ → ℕ → FollowUpOption
offered k n = record { follow_up_count = k; available_question_count = n; selectable = leb 1 n }

abbrev capacity : CapacityResponse
capacity = record {
  knowledge_base_id = 7;
  category = none;
  difficulty = codes "mid";
  main_question_count = 1;
  categories = [];
  follow_up_options =
      offered 0 2 ∷ offered 1 1 ∷ offered 2 1 ∷ offered 3 0 ∷ offered 4 0 ∷ offered 5 0 ∷ [];
}

capacity-eq : get_capacity bases 7 (some (codes " ")) none 1 ≡ ok capacity
unfolding get_capacity require_kb contains find_active_questions is_active has_category filter
    to_candidate parse_usable_follow_ups trim_to_none strip normalize_difficulty
    calculate_interview_capacity count_names category_options follow_up_options in_scope
    has_follow_ups list_beq sorted option_beq
capacity-eq = refl

create_session-Created_example :
    Created in_order request
      (codes "n")
      empty_world
      (create_session in_order bases tt (codes "n") request empty_world)
create_session-Created_example =
    create_session-Created in_order bases tt (codes "n") request empty_world capacity-eq refl refl
