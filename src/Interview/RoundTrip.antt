-- ===== src/Interview/RoundTrip.antt =====
-- domain/services/question_codec.py: what was written is read back.
use interview_agent_py.Prelude.{ℕ, ◌≡◌, refl, List, [], ◌∷◌, Option, none, some, Text, list_beq}
use interview_agent_py.Prelude.Int.{ℤ}
use interview_agent_py.Interview.{InterviewQuestion}
use interview_agent_py.Interview.Codec.{
  Json, array, question_fields, question_items, serialize_questions, question_of, strs,
  questions_of_items, questions_of, deserialize_questions, as_strs, as_points, as_str_or_null,
  as_int_or_null, as_index_or_null, str_or_null, int_or_null, index_or_null, lookup, lookup_or,
}

as_str-str_or_null : (o : Option Text) → as_str_or_null (str_or_null o) ≡ some o
as_str-str_or_null none = refl
as_str-str_or_null (some s) = refl

as_int-int_or_null : (o : Option ℤ) → as_int_or_null (int_or_null o) ≡ some o
as_int-int_or_null none = refl
as_int-int_or_null (some n) = refl

as_index-index_or_null : (o : Option ℕ) → as_index_or_null (index_or_null o) ≡ some o
as_index-index_or_null none = refl
as_index-index_or_null (some n) = refl

as_strs-strs : (ss : List Text) → as_strs (strs ss) ≡ some ss
unfolding as_strs strs
as_strs-strs [] = refl
as_strs-strs (s ∷ ss) = rw (as_strs-strs ss) refl

question_of-question_fields : (q : InterviewQuestion) → question_of (question_fields q) ≡ some q
unfolding question_of question_fields lookup lookup_or as_points list_beq
question_of-question_fields q =
    rw
      (
        as_str-str_or_null q.topic_summary,
        as_str-str_or_null q.user_answer,
        as_int-int_or_null q.score,
        as_str-str_or_null q.feedback,
        as_index-index_or_null q.parent_question_index,
        as_str-str_or_null q.reference_answer,
        as_strs-strs q.key_points,
        as_str-str_or_null q.scoring_rubric,
        as_str-str_or_null q.source_context,
      )
      refl

questions_of-question_items :
    (qs : List InterviewQuestion) → questions_of_items (question_items qs) ≡ some qs
unfolding questions_of_items question_items
questions_of-question_items [] = refl
questions_of-question_items (q ∷ qs) =
    rw (question_of-question_fields q, questions_of-question_items qs) refl

-- If `json.loads` gives back the value that `json.dumps` wrote for the questions, then reading the text
-- that was written for them gives the same questions, every field of every question included.
pub deserialize-serialize :
    (dumps : Json → Text) (loads : Text → Option Json) (questions : List InterviewQuestion)
    → loads (dumps (array (question_items questions))) ≡ some (array (question_items questions))
    → deserialize_questions loads (serialize_questions dumps questions) ≡ some questions
unfolding deserialize_questions serialize_questions questions_of
deserialize-serialize dumps loads questions written =
    rw written (questions_of-question_items questions)
