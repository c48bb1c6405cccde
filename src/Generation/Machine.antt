-- ===== src/Generation/Machine.antt =====
-- What a task may do to its knowledge base: the status as a step relation, and the tasks that are
-- no longer the current one.
use interview_agent_py.Prelude.{
  ℕ, ◌≡◌, ◌≢◌, ◌↔◌, ◌⊎◌, inl, inr, refl, List, some, true, arith, Text, ◌=?◌, option_eq, list_eq,
  nat_eq, option_beq_iff,
}
use interview_agent_py.Generation.{
  GenerationStatus, queued, processing, completed, failed, generation_eq, KnowledgeBase, number_iff,
}
use interview_agent_py.Generation.Service.{
  matches, TaskOp, try_mark_processing, reset_for_retry, mark_failed,
  replace_questions_and_complete, touch_queued_for_recovery, reset_stale_processing, changed,
}

-- The changes of status that a task may make.
pub data Step : GenerationStatus → GenerationStatus → Type 0 where
  claim : Step queued processing
  touch : Step queued queued
  give_back : Step processing queued
  finish : Step processing completed
  fail : {s : GenerationStatus} → s ≢ completed → Step s failed

module _ {ℓ} {Question : Type ℓ} (task_id : Text) (now : ℕ) (kb kb' : KnowledgeBase Question) where
  id_iff :
      ((kb.question_gen_task_id =? some task_id) ≡ true) ↔ (kb.question_gen_task_id ≡ some task_id)
  id_iff = option_beq_iff kb.question_gen_task_id (some task_id)

  -- A method that returns True is called with the current task's id.
  pub changed-current :
      (op : TaskOp Question)
      → changed op task_id now kb ≡ some kb'
      → kb.question_gen_task_id ≡ some task_id
  unfolding changed matches
  changed-current try_mark_processing h = ground (arith, id_iff)
  changed-current reset_for_retry h = ground (arith, id_iff)
  changed-current mark_failed h = ground (arith, id_iff)
  changed-current (replace_questions_and_complete qs n) h = ground (arith, id_iff)
  changed-current (touch_queued_for_recovery t) h = ground (arith, id_iff)
  changed-current (reset_stale_processing t) h = ground (arith, id_iff)

  -- No method changes the task's id.
  pub changed-task_id :
      (op : TaskOp Question)
      → changed op task_id now kb ≡ some kb'
      → kb'.question_gen_task_id ≡ kb.question_gen_task_id
  unfolding changed
  changed-task_id try_mark_processing h = ground arith
  changed-task_id reset_for_retry h = ground arith
  changed-task_id mark_failed h = ground arith
  changed-task_id (replace_questions_and_complete qs n) h = ground arith
  changed-task_id (touch_queued_for_recovery t) h = ground arith
  changed-task_id (reset_stale_processing t) h = ground arith

  is_iff :
      (s : GenerationStatus) → ((kb.question_gen_status =? s) ≡ true) ↔ (kb.question_gen_status ≡ s)
  is_iff s = number_iff kb.question_gen_status s

  -- What each method needs and does, in equations.
  unfoldable pub Moves : GenerationStatus → GenerationStatus → Type ℓ
  Moves s t =
      (kb.question_gen_status ≡ s) × (kb'.question_gen_status ≡ t) × (kb'.questions ≡ kb.questions)

  pub claim-Moves : changed try_mark_processing task_id now kb ≡ some kb' → Moves queued processing
  unfolding changed matches Moves
  claim-Moves h = ground (arith, is_iff queued)

  reset-Moves : changed reset_for_retry task_id now kb ≡ some kb' → Moves processing queued
  unfolding changed matches Moves
  reset-Moves h = ground (arith, is_iff processing)

  touch-Moves :
      (t : ℕ)
      → changed (touch_queued_for_recovery t) task_id now kb ≡ some kb'
      → Moves queued queued
  unfolding changed matches Moves
  touch-Moves t h = ground (arith, is_iff queued)

  stale-Moves :
      (t : ℕ)
      → changed (reset_stale_processing t) task_id now kb ≡ some kb'
      → Moves processing queued
  unfolding changed matches Moves
  stale-Moves t h = ground (arith, is_iff processing)

  fail_moves :
      changed mark_failed task_id now kb ≡ some kb'
      → (kb.question_gen_status ≢ completed)
        × (kb'.question_gen_status ≡ failed)
        × (kb'.questions ≡ kb.questions)
  unfolding changed
  fail_moves h = ground (arith, is_iff completed)

  finish_moves :
      (qs : List Question) (n : ℕ)
      → changed (replace_questions_and_complete qs n) task_id now kb ≡ some kb'
      → (kb.question_gen_status ≡ processing) × (kb'.question_gen_status ≡ completed)
  unfolding changed matches
  finish_moves qs n h = ground (arith, is_iff processing)

along : {s t a b : GenerationStatus} → s ≡ a → t ≡ b → Step a b → Step s t
along e f step = rw (e, f) step

module _ {ℓ} {Question : Type ℓ} (task_id : Text) (now : ℕ) (kb kb' : KnowledgeBase Question) where
  -- The status moves along `Step`, and the questions change only with the move to COMPLETED.
  pub changed-Step :
      (op : TaskOp Question)
      → changed op task_id now kb ≡ some kb'
      → Step kb.question_gen_status kb'.question_gen_status
        × ((kb'.question_gen_status ≡ completed) ⊎ (kb'.questions ≡ kb.questions))
  unfolding Moves
  changed-Step try_mark_processing h =
      let m = claim-Moves task_id now kb kb' h in (along m.0 m.1 claim, inr m.2)
  changed-Step reset_for_retry h =
      let m = reset-Moves task_id now kb kb' h in (along m.0 m.1 give_back, inr m.2)
  changed-Step mark_failed h =
      let m = fail_moves task_id now kb kb' h in (along refl m.1 (fail m.0), inr m.2)
  changed-Step (replace_questions_and_complete qs n) h =
      let m = finish_moves task_id now kb kb' qs n h in (along m.0 m.1 finish, inl m.1)
  changed-Step (touch_queued_for_recovery t) h =
      let m = touch-Moves task_id now kb kb' t h in (along m.0 m.1 touch, inr m.2)
  changed-Step (reset_stale_processing t) h =
      let m = stale-Moves task_id now kb kb' t h in (along m.0 m.1 give_back, inr m.2)
