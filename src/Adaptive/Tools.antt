-- ===== src/Adaptive/Tools.antt =====
-- graphs/adaptive_interview.py: what the tools do to the memory of the agent, and how the results of
-- tools that ran in parallel are merged.
use interview_agent_py.Prelude.{
  ℕ, ◌+◌, List, [], ◌∷◌, ◌++◌, Option, none, some, Bool, ◌&&◌, not, if◌then◌else◌, leb, ◌==◌, ◌=?◌,
  Text, codes, is_empty, nat_eq, list_eq,
}
use interview_agent_py.Prelude.Int.{ℤ}
use interview_agent_py.Prelude.Dict.{Dict, get, put, set_default}
use interview_agent_py.Prelude.Dict as Dict
use interview_agent_py.Prelude.Sorting.{sorted}
use interview_agent_py.Adaptive.{QaTurn, Memory, QaPatch, SideEffect, ToolEffect}

-- A tool with what its answer holds, `none` where the answer is not JSON. A value that is missing in
-- the answer has its default here.
pub data ToolAnswer : Type 0 where
  generate_question : Option (Text × Text) → ToolAnswer
  evaluate_answer : Option (ℤ × Text) → ToolAnswer
  adjust_strategy : Option (Option Text) → ToolAnswer
  other_tool : ToolAnswer

abbrev pub no_effect : SideEffect
no_effect = record {
  qa_patch = none;
  category_scores_delta = [];
  turn_count_delta = 0;
  new_question = none;
  new_category = none;
  new_difficulty = none;
}

-- `qa_history[-1]["question_index"] if qa_history else 0`
unfoldable pub last_index : List QaTurn → ℕ
last_index [] = 0
last_index (q ∷ []) = q.question_index
last_index (q ∷ r ∷ qs) = last_index (r ∷ qs)

-- `state.get("current_category") or "通用"`
unfoldable pub category_or_general : Option Text → Text
category_or_general none = codes "通用"
category_or_general (some category) = if is_empty category then codes "通用" else category

unfoldable pub apply_tool_side_effects : ToolAnswer → Memory → SideEffect
unfolding last_index category_or_general
apply_tool_side_effects (generate_question (some (question, category))) m = record no_effect {
  new_question = some question;
  new_category = some category;
}
apply_tool_side_effects (evaluate_answer (some (score, feedback))) m = record no_effect {
  qa_patch =
      some
        (record { question_index = last_index m.qa_history; score = score; feedback = feedback });
  category_scores_delta = (category_or_general m.current_category, score ∷ []) ∷ [];
  turn_count_delta = 1;
}
apply_tool_side_effects (adjust_strategy (some (some difficulty))) m =
    if not (is_empty difficulty) && not (difficulty =? m.difficulty)
    then record no_effect { new_difficulty = some difficulty }
    else no_effect
apply_tool_side_effects _ m = no_effect

-- The first record with the index of the patch is updated.
unfoldable pub update_record : QaPatch → List QaTurn → Option (List QaTurn)
update_record patch [] = none
update_record patch (q ∷ qs) =
    let rest = update_record patch qs in
    if q.question_index == patch.question_index
    then some (record q { score = some patch.score; feedback = some patch.feedback } ∷ qs)
    else elim rest [ none ↦ none | some qs' ↦ some (q ∷ qs') ]

-- A patch without its record is added: the fields that it has not are empty here, where the code
-- leaves them out.
unfoldable pub apply_patch : Option QaPatch → List QaTurn → List QaTurn
unfolding update_record
apply_patch none qs = qs
apply_patch (some patch) qs = elim (update_record patch qs) [
  | some qs' ↦ qs'
  | none ↦
      qs
      ++ (record {
        question_index = patch.question_index;
        question = [];
        category = [];
        difficulty = [];
        answer = none;
        score = some patch.score;
        feedback = some patch.feedback;
      })
        ∷ []
]

-- `merged_scores.setdefault(cat, []).extend(scores)` for each item.
unfoldable pub extend_scores : Dict Text (List ℤ) → Dict Text (List ℤ) → Dict Text (List ℤ)
extend_scores merged [] = merged
extend_scores merged ((cat, scores) ∷ delta) =
    extend_scores (put merged cat (Dict.get_or merged cat [] ++ scores)) delta

-- A new value, or the old one.
abbrev pub or_kept {ℓ} : {A : Type ℓ} → Option A → A → A
or_kept none old = old
or_kept (some new) old = new

abbrev pub or_kept_option {ℓ} : {A : Type ℓ} → Option A → Option A → Option A
or_kept_option none old = old
or_kept_option (some new) old = some new

-- The body of the loop.
unfoldable pub merge_one : Memory → ToolEffect → Memory
unfolding apply_patch extend_scores
merge_one m item =
    let side_effect = item.side_effect in
    record {
      difficulty = or_kept side_effect.new_difficulty m.difficulty;
      qa_history = apply_patch side_effect.qa_patch m.qa_history;
      category_scores = extend_scores m.category_scores side_effect.category_scores_delta;
      turn_count = m.turn_count + side_effect.turn_count_delta;
      current_question = or_kept_option side_effect.new_question m.current_question;
      current_category = or_kept_option side_effect.new_category m.current_category;
      decision_trace = m.decision_trace ++ item.trace_entry ∷ [];
    }

unfoldable pub merge_all : Memory → List ToolEffect → Memory
unfolding merge_one
merge_all m [] = m
merge_all m (item ∷ items) = merge_all (merge_one m item) items

-- `key=lambda e: e.get("tool_call_index", 0)`
abbrev pub index_leb : ToolEffect → ToolEffect → Bool
index_leb a b = leb a.tool_call_index b.tool_call_index

unfoldable pub merge_tool_results : Memory → List ToolEffect → Memory
unfolding merge_all
merge_tool_results m tool_effects = merge_all m (sorted index_leb tool_effects)
