-- ===== src/Bank/Capacity.antt =====
-- domain/services/question_bank.py: `calculate_interview_capacity`, which tells before an interview is
-- assembled how many follow-ups for each question the bank can give.
use interview_agent_py.Prelude.{
  ℕ, zero, suc, ◌+◌, List, [], ◌∷◌, Option, none, some, Bool, true, ◌&&◌, ◌||◌, ltb, leb, ◌==◌,
  ◌=?◌, length, filter, Text, nat_eq, list_eq, option_eq,
}
use interview_agent_py.Prelude.Dict.{Dict, get_or, put}
use interview_agent_py.Prelude.Sorting.{sorted, text_leb}
use interview_agent_py.Bank.{QuestionCandidate, trim_to_none, has_follow_ups}

abbrev pub max_follow_up_count : ℕ
max_follow_up_count = 5

pub record CategoryOption : Type 0 where
  pub category : Text
  pub available_question_count : ℕ

pub record FollowUpOption : Type 0 where
  pub follow_up_count : ℕ
  pub available_question_count : ℕ
  pub selectable : Bool

unfoldable pub count_names : Dict Text ℕ → List QuestionCandidate → Dict Text ℕ
unfolding trim_to_none
count_names counts [] = counts
count_names counts (c ∷ cs) =
    count_names
      (elim (trim_to_none c.category) [
        | none ↦ counts
        | some name ↦ put counts name (get_or counts name 0 + 1)
      ])
      cs

-- `key=lambda item: (-item[1], item[0])`
abbrev pub count_leb : Text × ℕ → Text × ℕ → Bool
count_leb (name, n) (name', n') = ltb n' n || n == n' && text_leb name name'

unfoldable pub category_options : List (Text × ℕ) → List CategoryOption
category_options [] = []
category_options ((name, n) ∷ items) =
    (record { category = name; available_question_count = n }) ∷ category_options items

unfoldable pub in_scope : Option Text → QuestionCandidate → Bool
in_scope none c = true
in_scope (some category) c = c.category =? some category

-- `for count in range(count, count + n)`
unfoldable pub follow_up_options : List QuestionCandidate → ℕ → ℕ → ℕ → List FollowUpOption
unfolding has_follow_ups
follow_up_options scoped main_count count zero = []
follow_up_options scoped main_count count (suc n) =
    let available = length (filter (has_follow_ups count) scoped) in
    (record {
      follow_up_count = count;
      available_question_count = available;
      selectable = ltb 0 main_count && leb main_count available;
    })
    ∷ follow_up_options scoped main_count (suc count) n

unfoldable pub calculate_interview_capacity :
    List QuestionCandidate → Option Text → ℕ → ℕ → List CategoryOption × List FollowUpOption
unfolding count_names category_options in_scope follow_up_options
calculate_interview_capacity all_candidates category main_count max_follow_up = (
  category_options (sorted count_leb (count_names [] all_candidates)),
  follow_up_options (filter (in_scope category) all_candidates) main_count 0 (max_follow_up + 1),
)
