-- ===== src/Adaptive/Graph/Blind.antt =====
-- What the agent's memory can become, given that a tool does not see it.
use interview_agent_py.Prelude.{
  ℕ, ◌+◌, ◌≡◌, ◌⊎◌, inl, inr, refl, ◌∙◌, sym, subst, List, [], ◌∷◌, ◌++◌, Option, none, some, Bool,
  true, not, ◌&&◌, ◌=?◌, ◌==◌, Bool-cases, length, length-append, Text, is_empty, arith, nat_eq,
  list_eq, list_beq,
}
use interview_agent_py.Prelude.Int.{ℤ}
use interview_agent_py.Prelude.Dict.{Dict, get, put}
use interview_agent_py.Prelude.Dict as Dict
use interview_agent_py.Adaptive.{QaTurn, Memory, QaPatch, SideEffect, ToolEffect}
use interview_agent_py.Adaptive.Tools.{
  ToolAnswer, generate_question, evaluate_answer, adjust_strategy, other_tool,
  apply_tool_side_effects, extend_scores, merge_one, update_record, apply_patch,
}
use interview_agent_py.Adaptive.Strategy.{general}
use interview_agent_py.Adaptive.Graph.{Outside, AgentState, sent_memory, run_next_turn}
use interview_agent_py.Adaptive.Graph.Carried.{Executed, run_next_turn-keeps, resume_turn-keeps}
use interview_agent_py.Adaptive.Graph.Resume.{resume_turn}

-- All scores stand under the general category, and there are as many as turns.
abbrev pub Tally : Dict Text (List ℤ) → ℕ → Type 0
Tally category_scores turn_count =
    ((category_scores ≡ []) × (turn_count ≡ 0))
    ⊎ ((scores : List ℤ) × (category_scores ≡ (general, scores) ∷ [])
        × (turn_count ≡ length scores))

abbrev pub IsTallied : Memory → Type 0
IsTallied m = Tally m.category_scores m.turn_count

abbrev Scored : SideEffect → Dict Text (List ℤ) → ℕ → Type 0
Scored e category_scores turn_count =
    Tally (extend_scores category_scores e.category_scores_delta) (turn_count + e.turn_count_delta)

-- An effect without scores.
no_scores :
    (category_scores : Dict Text (List ℤ)) (turn_count : ℕ)
    → Tally category_scores turn_count
    → Tally (extend_scores category_scores []) (turn_count + 0)
unfolding extend_scores
no_scores category_scores turn_count tally =
    let e : turn_count + 0 ≡ turn_count = omega arith in rw e tally

one_score :
    (score : ℤ) (category_scores : Dict Text (List ℤ)) (turn_count : ℕ)
    → Tally category_scores turn_count
    → Tally (extend_scores category_scores ((general, score ∷ []) ∷ [])) (turn_count + 1)
unfolding extend_scores get put Dict.get_or list_beq
one_score score category_scores turn_count (inl (no_keys, zero_turns)) =
    rw (no_keys, zero_turns) (inr (score ∷ [], refl, refl))
one_score score category_scores turn_count (inr (scores, one_key, counted)) =
    rw (one_key, counted)
      (inr (scores ++ score ∷ [], refl, omega (arith, length-append scores (score ∷ []))))

apply-Scored :
    (answer : ToolAnswer) (category_scores : Dict Text (List ℤ)) (turn_count : ℕ)
    → Tally category_scores turn_count
    → Scored (apply_tool_side_effects answer sent_memory) category_scores turn_count
unfolding apply_tool_side_effects
apply-Scored (generate_question none) cs n tally = no_scores cs n tally
apply-Scored (generate_question (some question)) cs n tally = no_scores cs n tally
apply-Scored (evaluate_answer none) cs n tally = no_scores cs n tally
apply-Scored (evaluate_answer (some (score, feedback))) cs n tally = one_score score cs n tally
apply-Scored (adjust_strategy none) cs n tally = no_scores cs n tally
apply-Scored (adjust_strategy (some none)) cs n tally = no_scores cs n tally
apply-Scored (adjust_strategy (some (some difficulty))) cs n tally =
    elim (Bool-cases (not (is_empty difficulty) && not (difficulty =? []))) [
      | inl new ↦ rw new (no_scores cs n tally)
      | inr old ↦ rw old (no_scores cs n tally)
    ]
apply-Scored other_tool cs n tally = no_scores cs n tally

merge_one-IsTallied :
    (m : Memory) (e : ToolEffect) → Executed e → IsTallied m → IsTallied (merge_one m e)
unfolding merge_one
merge_one-IsTallied m e (answer, same) tally =
    subst (λ s. Scored s m.category_scores m.turn_count) (sym same)
      (apply-Scored answer m.category_scores m.turn_count tally)

-- In an interview that began without scores every score ever given stands under the one category that
-- stands for a missing one, whatever categories the questions have, and the number of turns is the
-- number of scores.
pub run_next_turn-IsTallied :
    (outside : Outside) (user_answer : Option Text) (s t : AgentState)
    → run_next_turn outside user_answer s ≡ some t
    → IsTallied s.memory
    → IsTallied t.memory
run_next_turn-IsTallied outside user_answer s t ran tally =
    run_next_turn-keeps outside IsTallied (λ trace m p. p) merge_one-IsTallied user_answer s t ran
      tally

-- The rest of a turn after an approval keeps this.
pub resume_turn-IsTallied :
    (outside : Outside) (approved : Bool) (s t : AgentState)
    → resume_turn outside approved s ≡ some t
    → IsTallied s.memory
    → IsTallied t.memory
resume_turn-IsTallied outside approved s t ran tally =
    resume_turn-keeps outside IsTallied (λ trace m p. p) merge_one-IsTallied approved s t ran tally

-- The history has a first record with index 0, and the given ones behind it.
abbrev pub HasTail : List QaTurn → List QaTurn → Type 0
HasTail tail history = (first : QaTurn) × (history ≡ first ∷ tail) × (first.question_index ≡ 0)

abbrev Patched : SideEffect → List QaTurn → List QaTurn → Type 0
Patched e tail history = HasTail tail (apply_patch e.qa_patch history)

apply_patch-first :
    (patch : QaPatch) (tail history : List QaTurn)
    → patch.question_index ≡ 0
    → HasTail tail history
    → HasTail tail (apply_patch (some patch) history)
unfolding apply_patch update_record
apply_patch-first patch tail history at_zero (first, e, zero_index) =
    let same : (first.question_index == patch.question_index) ≡ true =
      (nat_eq.beq_iff first.question_index patch.question_index).1 (zero_index ∙ sym at_zero) in
    (
      record first { score = some patch.score; feedback = some patch.feedback },
      rw (e, apply_patch, update_record, same) refl,
      zero_index,
    )

apply-Patched :
    (answer : ToolAnswer) (tail history : List QaTurn)
    → HasTail tail history
    → Patched (apply_tool_side_effects answer sent_memory) tail history
unfolding apply_tool_side_effects apply_patch
apply-Patched (generate_question none) tail history h = h
apply-Patched (generate_question (some question)) tail history h = h
apply-Patched (evaluate_answer none) tail history h = h
apply-Patched (evaluate_answer (some (score, feedback))) tail history h =
    apply_patch-first (record { question_index = 0; score = score; feedback = feedback }) tail
      history refl h
apply-Patched (adjust_strategy none) tail history h = h
apply-Patched (adjust_strategy (some none)) tail history h = h
apply-Patched (adjust_strategy (some (some difficulty))) tail history h =
    elim (Bool-cases (not (is_empty difficulty) && not (difficulty =? []))) [
      | inl new ↦ rw new h
      | inr old ↦ rw old h
    ]
apply-Patched other_tool tail history h = h

merge_one-HasTail :
    (tail : List QaTurn) (m : Memory) (e : ToolEffect)
    → Executed e
    → HasTail tail m.qa_history
    → HasTail tail (merge_one m e).qa_history
unfolding merge_one
merge_one-HasTail tail m e (answer, same) h =
    subst (λ s. Patched s tail m.qa_history) (sym same) (apply-Patched answer tail m.qa_history h)

-- A turn changes the score and the feedback of the first record only: the others stay as they are.
pub run_next_turn-HasTail :
    (outside : Outside) (tail : List QaTurn) (user_answer : Option Text) (s t : AgentState)
    → run_next_turn outside user_answer s ≡ some t
    → HasTail tail s.memory.qa_history
    → HasTail tail t.memory.qa_history
run_next_turn-HasTail outside tail user_answer s t ran h =
    run_next_turn-keeps outside (λ m. HasTail tail m.qa_history) (λ trace m p. p)
      (merge_one-HasTail tail) user_answer s t ran h

pub resume_turn-HasTail :
    (outside : Outside) (tail : List QaTurn) (approved : Bool) (s t : AgentState)
    → resume_turn outside approved s ≡ some t
    → HasTail tail s.memory.qa_history
    → HasTail tail t.memory.qa_history
resume_turn-HasTail outside tail approved s t ran h =
    resume_turn-keeps outside (λ m. HasTail tail m.qa_history) (λ trace m p. p)
      (merge_one-HasTail tail) approved s t ran h
