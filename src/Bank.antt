-- ===== src/Bank.antt =====
-- domain/services/question_bank.py: interviews assembled from a bank of questions.
pub mod Capacity
pub mod Selectable
pub mod Service
pub mod Promise
pub mod References
pub mod Picked
pub mod Paper
pub mod Numbering
mod Examples
use mathlib.Core.List.{Perm}
use interview_agent_py.Prelude.{
  ℕ, suc, ◌+◌, ◌-◌, ◌≤◌, ◌<◌, List, [], ◌∷◌, ◌++◌, Option, none, some, Bool, true, false,
  if◌then◌else◌, ltb, leb, ◌==◌, length, take, filter, Text, codes, strip, is_empty, zero,
}
use interview_agent_py.Prelude.Permutations.{swap}
use interview_agent_py.Errors.{Result, ok, raise, ◌>>=◌, interview_question_insufficient}
use interview_agent_py.Interview.{InterviewQuestion}

pub record QuestionBankFollowUp : Type 0 where
  pub question : Text
  pub reference_answer : Option Text
  pub key_points : List Text
  pub scoring_rubric : Option Text

pub record QuestionCandidate : Type 0 where
  pub question : Text
  pub type : Option Text
  pub category : Option Text
  pub topic_summary : Option Text
  pub reference_answer : Option Text
  pub key_points : List Text
  pub scoring_rubric : Option Text
  pub source_context : Option Text
  pub follow_ups : List QuestionBankFollowUp

-- What the code relies on of `random.Random`.
pub record Random : Type 1 where
  pub State : Type 0
  pub shuffle : List QuestionCandidate → State → List QuestionCandidate × State
  pub randrange : ℕ → ℕ → State → ℕ × State
  pub shuffle-Perm : (xs : List QuestionCandidate) (s : State) → Perm (shuffle xs s).0 xs
  pub randrange-InRange :
      (start stop : ℕ) (s : State)
      → start < stop
      → (start ≤ (randrange start stop s).0) × ((randrange start stop s).0 < stop)

abbrev pub fallback_type : Text
fallback_type = codes "KNOWLEDGE_BASE"

abbrev pub fallback_category : Text
fallback_category = codes "知识库"

abbrev pub fallback_follow_up_category : Text
fallback_follow_up_category = codes "知识库追问"

unfoldable pub trim_to_none : Option Text → Option Text
trim_to_none none = none
trim_to_none (some value) = if is_empty (strip value) then none else some (strip value)

unfoldable pub default_string : Option Text → Text → Text
default_string none fallback = fallback
default_string (some value) fallback = if is_empty (strip value) then fallback else value

unfoldable pub has_follow_ups : ℕ → QuestionCandidate → Bool
has_follow_ups follow_up_count c = leb follow_up_count (length c.follow_ups)

abbrev pub main_question : ℕ → QuestionCandidate → InterviewQuestion
main_question index candidate = record {
  question_index = index;
  question = candidate.question;
  type = default_string candidate.type fallback_type;
  category = default_string candidate.category fallback_category;
  topic_summary = candidate.topic_summary;
  user_answer = none;
  score = none;
  feedback = none;
  is_follow_up = false;
  parent_question_index = none;
  reference_answer = candidate.reference_answer;
  key_points = candidate.key_points;
  scoring_rubric = candidate.scoring_rubric;
  source_context = candidate.source_context;
}

abbrev pub follow_up_question : ℕ → ℕ → QuestionCandidate → QuestionBankFollowUp → InterviewQuestion
follow_up_question index main_index candidate follow_up = record {
  question_index = index;
  question = follow_up.question;
  type = default_string candidate.type fallback_type;
  category = default_string candidate.category fallback_follow_up_category;
  topic_summary = candidate.topic_summary;
  user_answer = none;
  score = none;
  feedback = none;
  is_follow_up = true;
  parent_question_index = some main_index;
  reference_answer = follow_up.reference_answer;
  key_points = follow_up.key_points;
  scoring_rubric = follow_up.scoring_rubric;
  source_context = candidate.source_context;
}

-- The inner loop, on the list that it appends to.
unfoldable pub append_follow_ups :
    QuestionCandidate
    → ℕ
    → List InterviewQuestion
    → List QuestionBankFollowUp
    → List InterviewQuestion
append_follow_ups candidate main_index questions [] = questions
append_follow_ups candidate main_index questions (follow_up ∷ rest) =
    append_follow_ups candidate main_index
      (questions ++ follow_up_question (length questions) main_index candidate follow_up ∷ []) rest

module _ (rng : Random) where
  open rng use {State, shuffle, randrange}

  -- `for i in range(i, i + n)`
  unfoldable pub exchange :
      ℕ → ℕ → List QuestionBankFollowUp → State → List QuestionBankFollowUp × State
  unfolding swap
  exchange zero i copy s = (copy, s)
  exchange (suc n) i copy s =
      let drawn = randrange i (length copy) s in exchange n (i + 1) (swap copy i drawn.0) drawn.1

  unfoldable pub pick_follow_ups :
      List QuestionBankFollowUp → ℕ → State → Result (List QuestionBankFollowUp × State)
  unfolding exchange
  pick_follow_ups pool count s =
      if count == 0
      then ok ([], s)
      else if ltb (length pool) count
      then raise interview_question_insufficient
      else if length pool == count
      then ok (pool, s)
      else let done = exchange count 0 pool s in ok (take count done.0, done.1)

  -- The outer loop, on the list that it appends to.
  unfoldable pub append_questions :
      ℕ → List InterviewQuestion → List QuestionCandidate → State → Result (List InterviewQuestion)
  unfolding pick_follow_ups append_follow_ups
  append_questions follow_up_count questions [] s = ok questions
  append_questions follow_up_count questions (candidate ∷ rest) s =
      pick_follow_ups candidate.follow_ups follow_up_count s >>= λ picked.
      append_questions follow_up_count
        (append_follow_ups candidate (length questions)
          (questions ++ main_question (length questions) candidate ∷ []) picked.0)
        rest picked.1

  -- The state of `rng` after the call is left out: no caller uses it again.
  unfoldable pub assemble_interview_questions :
      List QuestionCandidate → ℕ → ℕ → State → Result (List InterviewQuestion)
  unfolding append_questions has_follow_ups
  assemble_interview_questions candidates main_count follow_up_count s =
      let eligible = filter (has_follow_ups follow_up_count) candidates in
      if ltb (length eligible) main_count
      then raise interview_question_insufficient
      else let shuffled = shuffle eligible s in
        append_questions follow_up_count [] (take main_count shuffled.0) shuffled.1
