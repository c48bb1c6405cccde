-- ===== src/Interview/Codec.antt =====
-- domain/services/question_codec.py: questions as a JSON text and back. The values that `json` writes
-- and reads are `Json`; `json.dumps` and `json.loads` are parameters.
use interview_agent_py.Prelude.{
  ℕ, List, [], ◌∷◌, Option, none, some, Bool, false, if◌then◌else◌, map, Text, codes, ◌=?◌, nat_eq,
  list_eq, ◌==◌,
}
use interview_agent_py.Prelude.Int.{ℤ, pos, negsuc}
use interview_agent_py.Interview.{InterviewQuestion}

-- The items of a dict stand in its order, no key twice.
mutual
  pub data Json : Type 0 where
    null : Json
    bool : Bool → Json
    int : ℤ → Json
    str : Text → Json
    array : Items → Json
    object : Fields → Json

  pub data Items : Type 0 where
    nil : Items
    item : Json → Items → Items

  pub data Fields : Type 0 where
    end : Fields
    field : Text → Json → Fields → Fields

abbrev pub str_or_null : Option Text → Json
str_or_null none = null
str_or_null (some s) = str s

abbrev pub int_or_null : Option ℤ → Json
int_or_null none = null
int_or_null (some n) = int n

abbrev pub index_or_null : Option ℕ → Json
index_or_null none = null
index_or_null (some n) = int (pos n)

unfoldable pub strs : List Text → Items
strs [] = nil
strs (s ∷ ss) = item (str s) (strs ss)

unfoldable pub question_fields : InterviewQuestion → Fields
unfolding strs
question_fields q = field (codes "questionIndex") (int (pos q.question_index)) (
    field (codes "question") (str q.question) (
      field (codes "type") (str q.type) (
        field (codes "category") (str q.category) (
          field (codes "topicSummary") (str_or_null q.topic_summary) (
            field (codes "userAnswer") (str_or_null q.user_answer) (
              field (codes "score") (int_or_null q.score) (
                field (codes "feedback") (str_or_null q.feedback) (
                  field (codes "isFollowUp") (bool q.is_follow_up) (
                    field (codes "parentQuestionIndex") (index_or_null q.parent_question_index) (
                      field (codes "referenceAnswer") (str_or_null q.reference_answer) (
                        field (codes "keyPoints") (array (strs q.key_points)) (
                          field (codes "scoringRubric") (str_or_null q.scoring_rubric) (
                            field (codes "sourceContext") (str_or_null q.source_context)
                              end)))))))))))))

unfoldable pub question_items : List InterviewQuestion → Items
unfolding question_fields
question_items [] = nil
question_items (q ∷ qs) = item (object (question_fields q)) (question_items qs)

unfoldable pub serialize_questions : (Json → Text) → List InterviewQuestion → Text
unfolding question_items
serialize_questions dumps questions = dumps (array (question_items questions))

-- `fields.get(key)`
unfoldable pub lookup : Fields → Text → Option Json
lookup end key = none
lookup (field k v rest) key = if k =? key then some v else lookup rest key

-- `fields.get(key, default)`
unfoldable pub lookup_or : Fields → Text → Json → Json
unfolding lookup
lookup_or fields key default = elim (lookup fields key) [ none ↦ default | some v ↦ v ]

-- A value for a field of an annotated type. Python stores any value, `none` stands for one of another
-- type, which the dataclass does not describe.
abbrev pub as_str : Json → Option Text
as_str (str s) = some s
as_str _ = none

abbrev pub as_str_or_null : Json → Option (Option Text)
as_str_or_null null = some none
as_str_or_null (str s) = some (some s)
as_str_or_null _ = none

abbrev pub as_index : Json → Option ℕ
as_index (int (pos n)) = some n
as_index _ = none

abbrev pub as_index_or_null : Json → Option (Option ℕ)
as_index_or_null null = some none
as_index_or_null (int (pos n)) = some (some n)
as_index_or_null _ = none

abbrev pub as_int_or_null : Json → Option (Option ℤ)
as_int_or_null null = some none
as_int_or_null (int n) = some (some n)
as_int_or_null _ = none

abbrev pub as_bool : Json → Option Bool
as_bool (bool b) = some b
as_bool _ = none

infixl 5 ◌>>=◌
abbrev pub ◌>>=◌ : {A B : Type 0} → Option A → (A → Option B) → Option B
none >>= f = none
some a >>= f = f a

unfoldable pub as_strs : Items → Option (List Text)
as_strs nil = some []
as_strs (item x xs) = do s ← as_str x; ss ← as_strs xs; some (s ∷ ss)

unfoldable pub field_names : Fields → List Text
field_names end = []
field_names (field k v rest) = k ∷ field_names rest

-- `list(value or [])`: a text gives its characters and a dict its keys.
unfoldable pub as_points : Json → Option (List Text)
unfolding as_strs field_names
as_points null = some []
as_points (bool b) = if b then none else some []
as_points (int n) = elim n [ pos m ↦ if m == 0 then some [] else none | negsuc m ↦ none ]
as_points (str s) = some (map (λ c. c ∷ []) s)
as_points (array xs) = as_strs xs
as_points (object fields) = some (field_names fields)

unfoldable pub question_of : Fields → Option InterviewQuestion
unfolding lookup lookup_or as_points
question_of fields = do
  index ← (lookup fields (codes "questionIndex") >>= as_index)
  question ← (lookup fields (codes "question") >>= as_str)
  type ← (lookup fields (codes "type") >>= as_str)
  category ← (lookup fields (codes "category") >>= as_str)
  topic ← as_str_or_null (lookup_or fields (codes "topicSummary") null)
  answer ← as_str_or_null (lookup_or fields (codes "userAnswer") null)
  score ← as_int_or_null (lookup_or fields (codes "score") null)
  feedback ← as_str_or_null (lookup_or fields (codes "feedback") null)
  is_follow_up ← as_bool (lookup_or fields (codes "isFollowUp") (bool false))
  parent ← as_index_or_null (lookup_or fields (codes "parentQuestionIndex") null)
  reference ← as_str_or_null (lookup_or fields (codes "referenceAnswer") null)
  points ← as_points (lookup_or fields (codes "keyPoints") null)
  rubric ← as_str_or_null (lookup_or fields (codes "scoringRubric") null)
  context ← as_str_or_null (lookup_or fields (codes "sourceContext") null)
  some (record {
    question_index = index;
    question = question;
    type = type;
    category = category;
    topic_summary = topic;
    user_answer = answer;
    score = score;
    feedback = feedback;
    is_follow_up = is_follow_up;
    parent_question_index = parent;
    reference_answer = reference;
    key_points = points;
    scoring_rubric = rubric;
    source_context = context;
  })

unfoldable pub questions_of_items : Items → Option (List InterviewQuestion)
unfolding question_of
questions_of_items nil = some []
questions_of_items (item (object fields) xs) = do
  q ← question_of fields
  qs ← questions_of_items xs
  some (q ∷ qs)
questions_of_items (item _ xs) = none

-- The loop runs over any JSON value: an empty text or dict has no items, those of others fail.
unfoldable pub questions_of : Json → Option (List InterviewQuestion)
unfolding questions_of_items
questions_of (array xs) = questions_of_items xs
questions_of (str []) = some []
questions_of (object end) = some []
questions_of _ = none

-- `none` where the code raises, or where a field is of another type than its annotation.
unfoldable pub deserialize_questions : (Text → Option Json) → Text → Option (List InterviewQuestion)
unfolding questions_of
deserialize_questions loads questions_json = loads questions_json >>= questions_of
