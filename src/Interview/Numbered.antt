-- ===== src/Interview/Numbered.antt =====
-- The order of a session's questions: each carries its place as its index, and a follow-up names the
-- place of the last main question before it.
use interview_agent_py.Prelude.{
  ℕ, suc, ◌≡◌, ◌≢◌, List, [], ◌∷◌, Option, none, some, true, if◌then◌else◌,
}
use interview_agent_py.Interview.{InterviewQuestion}

-- From place `n` on, after the main question `main` if there is one.
abbrev pub NumberedFrom : ℕ → Option ℕ → List InterviewQuestion → Type 0
NumberedFrom n main [] = Unit
NumberedFrom n main (q ∷ qs) =
    (q.question_index ≡ n)
    × (q.parent_question_index ≡ (if q.is_follow_up then main else none))
    × (q.is_follow_up ≡ true → main ≢ none)
    × NumberedFrom (suc n) (if q.is_follow_up then main else some n) qs

-- The questions of a session, from its first place on.
unfoldable pub Numbered : List InterviewQuestion → Type 0
Numbered qs = NumberedFrom 0 none qs
