-- ===== src/Session.antt =====
-- Interview sessions: the tables and the cache that the session service works on, and the shape of
-- its operations. A column that holds JSON text of questions is the list that the text encodes.
mod Overlay
pub mod Coherent
pub mod Submit
pub mod Save
pub mod Completion
pub mod Early
pub mod Create
mod Examples
pub mod Store
pub mod Service
use interview_agent_py.Prelude.{
  ℕ, ◌≡◌, List, [], ◌∷◌, Option, none, some, Bool, true, false, Text, is_empty, if◌then◌else◌,
  get_elem?, set,
}
use interview_agent_py.Prelude.Dict.{Dict, get, put}
use interview_agent_py.Errors.{Result, ok, raise, ErrorCode}
use interview_agent_py.Interview.{SessionStatus, InterviewQuestion, with_answer}

-- The columns of `interview_answers` that the service uses; the rows of one session are kept with
-- it, by question index (the table's unique key).
pub record InterviewAnswer : Type 0 where
  pub question : Text
  pub category : Text
  pub user_answer : Option Text

-- A row of `interview_sessions`, with its answers. `completed` tells that `completed_at` is set.
pub record InterviewSession : Type 0 where
  pub skill_id : Text
  pub difficulty : Text
  pub resume_id : Option ℕ
  pub total_questions : ℕ
  pub current_question_index : ℕ
  pub status : SessionStatus
  pub questions : List InterviewQuestion
  pub llm_provider : Option Text
  pub source_type : Text
  pub knowledge_base_id : Option ℕ
  pub interview_category : Option Text
  pub evaluate_status : Option Text
  pub evaluate_error : Option Text
  pub completed : Bool
  pub answers : Dict ℕ InterviewAnswer

-- The hash of a session in Redis: a field may be missing. An id is kept as its digits, or as the
-- empty text for None.
pub record SessionHash : Type 0 where
  pub resume_text : Option Text
  pub resume_id : Option (Option ℕ)
  pub knowledge_base_id : Option (Option ℕ)
  pub interview_category : Option Text
  pub questions : Option (List InterviewQuestion)
  pub current_index : Option ℕ
  pub status : Option SessionStatus

-- `_SessionView`, and `CachedSession`, which has the same fields.
pub record SessionView : Type 0 where
  pub session_id : Text
  pub resume_id : Option ℕ
  pub resume_text : Text
  pub current_question_index : ℕ
  pub status : SessionStatus
  pub questions : List InterviewQuestion
  pub knowledge_base_id : Option ℕ
  pub interview_category : Option Text

-- The database (sessions in the order of their creation, and the texts of the resumes), Redis (the
-- hashes, and the unfinished session of a resume), and the stream of evaluation tasks.
pub record World : Type 0 where
  pub rows : Dict Text InterviewSession
  pub resumes : Dict ℕ (Option Text)
  pub hashes : Dict Text SessionHash
  pub unfinished : Dict ℕ Text
  pub tasks : List Text

-- A call: its value or the error it raises, and what it leaves behind. Nothing is written to the
-- database before the last check that can raise, so no change is ever rolled back.
abbrev pub Op {ℓ} : Type ℓ → Type ℓ
Op A = World → Result A × World

abbrev pub continue {ℓ κ} :
    {A : Type ℓ} {B : Type κ} → Result A × World → (A → Op B) → Result B × World
continue (ok a, w) f = f a w
continue (raise e, w) f = (raise e, w)

infixl 4 ◌!>◌
abbrev pub ◌!>◌ {ℓ κ} : {A : Type ℓ} {B : Type κ} → Op A → (A → Op B) → Op B
(m !> f) w = continue (m w) f

abbrev pub done {ℓ} : {A : Type ℓ} → A → Op A
done a w = (ok a, w)

abbrev pub require : Bool → ErrorCode → Op (Unit {0})
require true e w = (ok tt, w)
require false e w = (raise e, w)

-- A step that cannot raise.
abbrev pub modify : (World → World) → Op (Unit {0})
modify f w = (ok tt, f w)

-- `text or ""`
abbrev pub or_empty : Option Text → Text
or_empty none = []
or_empty (some s) = s

-- `text or None`
abbrev pub or_none : Text → Option Text
or_none [] = none
or_none (c ∷ s) = some (c ∷ s)

-- `questions[index] = questions[index].with_answer(answer)`, if the index is in range.
unfoldable pub answer_at : List InterviewQuestion → ℕ → Text → List InterviewQuestion
answer_at questions index answer = elim (get_elem? questions index) [
  | none ↦ questions
  | some question ↦ set questions index (with_answer question answer)
]

-- The answers of the table, put into the questions.
unfoldable pub overlay : Dict ℕ InterviewAnswer → List InterviewQuestion → List InterviewQuestion
unfolding answer_at
overlay [] questions = questions
overlay ((index, ans) ∷ answers) questions =
    overlay answers (answer_at questions index (or_empty ans.user_answer))
