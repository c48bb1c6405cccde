-- ===== src/Generation/Kept.antt =====
-- The methods on the whole table: which tasks change nothing, and what every call keeps.
use interview_agent_py.Prelude.{
  ℕ, ◌≡◌, ◌≢◌, ◌↔◌, ◌⊎◌, inl, inr, refl, none, some, true, false, Option-cases, arith, Text,
  option_eq, list_eq, nat_eq, text_iff,
}
use interview_agent_py.Prelude.Dict.{get, put, get-put_self}
use interview_agent_py.Errors.{ok}
use interview_agent_py.Generation.{
  GenerationStatus, processing, completed, generation_eq, KnowledgeBase, Table, vectorized,
}
use interview_agent_py.Generation.Service.{
  is_active, matches, new_task, create_task, TaskOp, try_mark_processing, changed, perform,
}
use interview_agent_py.Generation.Machine.{
  Step, fail, Moves, claim-Moves, changed-Step, changed-current, changed-task_id,
}

module _ {ℓ} {Question : Type ℓ} (op : TaskOp Question) (kb_id : ℕ) (task_id : Text) (now : ℕ)
    (s : Table Question) where
  perform-none :
      (kb : KnowledgeBase Question)
      → get s kb_id ≡ some kb
      → changed op task_id now kb ≡ none
      → perform op kb_id task_id now s ≡ (false, s)
  unfolding perform
  perform-none kb at unchanged = rw (perform, at, unchanged) refl

  perform-some :
      (kb kb' : KnowledgeBase Question)
      → get s kb_id ≡ some kb
      → changed op task_id now kb ≡ some kb'
      → perform op kb_id task_id now s ≡ (true, put s kb_id kb')
  unfolding perform
  perform-some kb kb' at change = rw (perform, at, change) refl

  -- A call with the id of a task that has been replaced returns False and changes nothing.
  pub perform-replaced :
      (kb : KnowledgeBase Question)
      → get s kb_id ≡ some kb
      → kb.question_gen_task_id ≢ some task_id
      → perform op kb_id task_id now s ≡ (false, s)
  perform-replaced kb at other = elim (Option-cases (changed op task_id now kb)) [
    | inl unchanged ↦ perform-none kb at unchanged
    | inr (kb', change) ↦ absurd (other (changed-current task_id now kb kb' op change))
  ]

  -- No task changes a knowledge base whose questions are complete: only a new task does.
  pub perform-completed :
      (kb : KnowledgeBase Question)
      → get s kb_id ≡ some kb
      → kb.question_gen_status ≡ completed
      → perform op kb_id task_id now s ≡ (false, s)
  perform-completed kb at done = elim (Option-cases (changed op task_id now kb)) [
    | inl unchanged ↦ perform-none kb at unchanged
    | inr (kb', change) ↦ absurd (stuck done (changed-Step task_id now kb kb' op change).0)
  ]
    where
      stuck : {a b : GenerationStatus} → a ≡ completed → Step a b → ⊥
      stuck e Step.claim = ground arith
      stuck e Step.touch = ground arith
      stuck e Step.give_back = ground arith
      stuck e Step.finish = ground arith
      stuck e (fail n) = n e

  -- A call either returns False and changes nothing, or returns True, moves the status along
  -- `Step`, and changes the questions only together with the move to COMPLETED.
  pub perform-cases :
      (kb : KnowledgeBase Question)
      → get s kb_id ≡ some kb
      → (perform op kb_id task_id now s ≡ (false, s))
        ⊎ ((kb' : KnowledgeBase Question) × (perform op kb_id task_id now s
              ≡ (true, put s kb_id kb'))
            × (kb'.question_gen_task_id ≡ kb.question_gen_task_id)
            × Step kb.question_gen_status kb'.question_gen_status
            × ((kb'.question_gen_status ≡ completed) ⊎ (kb'.questions ≡ kb.questions)))
  perform-cases kb at = elim (Option-cases (changed op task_id now kb)) [
    | inl unchanged ↦ inl (perform-none kb at unchanged)
    | inr (kb', change) ↦
        let moved = changed-Step task_id now kb kb' op change in
        let same = changed-task_id task_id now kb kb' op change in
        inr (kb', perform-some kb kb' at change, same, moved.0, moved.1)
  ]

module _ {ℓ} {Question : Type ℓ} (kb_id : ℕ) (task_id : Text) where
  claim_again :
      (later : ℕ) (kb : KnowledgeBase Question)
      → kb.question_gen_status ≡ processing
      → changed try_mark_processing task_id later kb ≡ none
  unfolding changed matches
  claim_again later kb busy = rw busy (ground arith)

  claim_lost :
      (now later : ℕ) (kb : KnowledgeBase Question)
      → changed try_mark_processing task_id now kb ≡ none
      → changed try_mark_processing task_id later kb ≡ none
  unfolding changed
  claim_lost now later kb lost = ground arith

  perform-missing :
      (op : TaskOp Question) (now : ℕ) (s : Table Question)
      → get s kb_id ≡ none
      → perform op kb_id task_id now s ≡ (false, s)
  unfolding perform
  perform-missing op now s missing = rw (perform, missing) refl

  -- A task is claimed once: whatever the first claim returned, a second one, at any later time,
  -- returns False and leaves the table as it was.
  pub perform-claim_once :
      (now later : ℕ) (s : Table Question)
      → perform try_mark_processing kb_id task_id later
          (perform try_mark_processing kb_id task_id now s).1
        ≡ (false, (perform try_mark_processing kb_id task_id now s).1)
  unfolding Moves
  perform-claim_once now later s = elim (Option-cases (get s kb_id)) [
    | inl missing ↦
        rw (perform-missing try_mark_processing now s missing)
          (perform-missing try_mark_processing later s missing)
    | inr (kb, at) ↦ elim (Option-cases (changed try_mark_processing task_id now kb)) [
      | inl lost ↦ rw (perform-none try_mark_processing kb_id task_id now s kb at lost) (
          perform-none try_mark_processing kb_id task_id later s kb at
            (claim_lost now later kb lost))
      | inr (kb', change) ↦
          rw (perform-some try_mark_processing kb_id task_id now s kb kb' at change) (
            perform-none try_mark_processing kb_id task_id later (put s kb_id kb') kb'
              (get-put_self s kb_id kb')
              (claim_again later kb' (claim-Moves task_id now kb kb' change).1))
    ]
  ]

  -- A new task is accepted exactly when the documents are vectorized and no task is active.
  pub create_task-ok_iff :
      (config : Text) (now : ℕ) (s : Table Question) (kb : KnowledgeBase Question)
      → get s kb_id ≡ some kb
      → (create_task kb_id task_id config now s
          ≡ (ok (new_task task_id config now kb), put s kb_id (new_task task_id config now kb)))
        ↔ ((kb.vector_status ≡ vectorized) × (is_active kb.question_gen_status ≡ false))
  unfolding create_task
  create_task-ok_iff config now s kb at =
      rw (create_task, at) (ground (arith, text_iff kb.vector_status vectorized))
