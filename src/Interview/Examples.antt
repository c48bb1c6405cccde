-- ===== src/Interview/Examples.antt =====
-- Concrete runs of the session statuses.
use mathlib.Core.Option as Option
use interview_agent_py.Prelude.{
  ℕ, ◌≤◌, ◌≡◌, ◌≢◌, ◌⊎◌, refl, [], ◌∷◌, Option, none, some, true, if◌then◌else◌, Text, codes,
  is_empty, list_beq,
}
use interview_agent_py.Prelude.Int.{pos, negsuc}
use interview_agent_py.Errors.{raise, interview_already_completed}
use interview_agent_py.Interview.{created, in_progress, completed, evaluated, InterviewQuestion}
use interview_agent_py.Interview.Codec.{
  Json, int, str, array, Fields, end, field, question_items, serialize_questions, question_of,
  deserialize_questions, lookup, lookup_or, as_points,
}
use interview_agent_py.Interview.RoundTrip.{deserialize-serialize}
use interview_agent_py.Interview.State.{validate_transition}
use interview_agent_py.Interview.Machine.{Run, here, next, Run-bounded}

resubmission_is_refused :
    validate_transition evaluated completed ≡ raise interview_already_completed
unfolding validate_transition
resubmission_is_refused = refl

usual-Run : Run created 2 completed
unfolding validate_transition
usual-Run = next {t = in_progress} (next here refl) refl

Run-bounded_example :
    (2 ≤ 2)
    × ((◌≡◌ {A = ℕ} 2 0) ⊎ (completed ≢ evaluated))
    × ((◌≡◌ {A = ℕ} 2 0) ⊎ (created ≢ completed))
Run-bounded_example = Run-bounded usual-Run

abbrev question : InterviewQuestion
question = record {
  question_index = 3;
  question = codes "why";
  type = codes "GENERAL";
  category = codes "general";
  topic_summary = none;
  user_answer = some (codes "because");
  score = some (negsuc 0);
  feedback = none;
  is_follow_up = true;
  parent_question_index = some 2;
  reference_answer = none;
  key_points = codes "a" ∷ codes "b" ∷ [];
  scoring_rubric = none;
  source_context = none;
}

-- A stand-in for `json`, which knows one text.
abbrev written : Json
written = array (question_items (question ∷ []))

abbrev dumps : Json → Text
dumps j = codes "[...]"

abbrev loads : Text → Option Json
loads s = if is_empty s then none else some written

deserialize-serialize_example :
    deserialize_questions loads (serialize_questions dumps (question ∷ [])) ≡ some (question ∷ [])
deserialize-serialize_example = deserialize-serialize dumps loads (question ∷ []) refl

abbrev old_fields : Fields
old_fields = field (codes "questionIndex") (int (pos 0)) (
    field (codes "question") (str (codes "q"))
      (field (codes "type") (str (codes "t")) (field (codes "category") (str (codes "c")) end)))

-- A text from before the reference fields is read, with empty ones.
old_questions_are_read : Option.IsSome (question_of old_fields)
unfolding question_of lookup lookup_or list_beq as_points
old_questions_are_read = tt

-- A question without its text is not: the code raises KeyError.
question_without_text : question_of (field (codes "questionIndex") (int (pos 0)) end) ≡ none
unfolding question_of lookup lookup_or list_beq
question_without_text = refl
