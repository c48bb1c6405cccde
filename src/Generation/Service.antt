-- ===== src/Generation/Service.antt =====
-- application/knowledgebase/generation_state_service.py: each method is one atomic step on the
-- table, under the row's lock. `now` and the new task id are arguments; the configuration is the
-- text that is stored, and `validate` the parser of it.
use interview_agent_py.Prelude.{
  ℕ, List, Option, none, some, Bool, true, false, ◌&&◌, ◌||◌, not, if◌then◌else◌, ltb, ◌++◌, length,
  Text, codes, decimal, is_empty, strip, ◌=?◌, option_eq, list_eq, nat_eq,
}
use interview_agent_py.Prelude.Dict.{get, put}
use interview_agent_py.Errors.{
  Result, ok, raise, bad_request, internal_error, knowledge_base_not_found,
}
use interview_agent_py.Generation.{
  GenerationStatus, queued, processing, completed, failed, generation_eq, KnowledgeBase, Table,
  safe_failure_message, vectorized,
}

-- `kb.question_gen_status in _ACTIVE_STATUSES`
unfoldable pub is_active : GenerationStatus → Bool
is_active status = status =? queued || status =? processing

unfoldable pub is_stale : Option ℕ → ℕ → Bool
is_stale none threshold = true
is_stale (some updated_at) threshold = ltb updated_at threshold

-- `f"已生成 {saved_count} 道题，跳过 {skipped_count} 道重复题"`, or without the second half.
unfoldable pub completion_message : ℕ → ℕ → Text
completion_message saved_count skipped_count =
    let first = codes "已生成 " ++ (decimal saved_count ++ codes " 道题") in
    if ltb 0 skipped_count
    then first ++ (codes "，跳过 " ++ (decimal skipped_count ++ codes " 道重复题"))
    else first

-- `_read_config_or_none`: `none` for a missing or blank text, and for one that is refused.
unfoldable pub read_config_or_none {κ} :
    {Config : Type κ} → (Text → Option Config) → Option Text → Option Config
read_config_or_none validate none = none
read_config_or_none validate (some raw) =
    if is_empty raw || is_empty (strip raw) then none else validate raw

-- What a task asks for: the methods that take its id.
pub data TaskOp {ℓ} (Question : Type ℓ) : Type ℓ where
  try_mark_processing : TaskOp Question
  reset_for_retry : TaskOp Question
  mark_failed : TaskOp Question
  replace_questions_and_complete : List Question → ℕ → TaskOp Question
  touch_queued_for_recovery : ℕ → TaskOp Question
  reset_stale_processing : ℕ → TaskOp Question

module _ {ℓ} {Question : Type ℓ} where
  unfoldable pub matches : KnowledgeBase Question → Text → GenerationStatus → Bool
  matches kb task_id expected_status =
      kb.question_gen_task_id =? some task_id && kb.question_gen_status =? expected_status

  -- The row that `create_task` writes.
  unfoldable pub new_task : Text → Text → ℕ → KnowledgeBase Question → KnowledgeBase Question
  new_task task_id config now kb = record kb {
    question_gen_task_id = some task_id;
    question_gen_status = queued;
    question_gen_config = some config;
    question_gen_error = none;
    question_gen_message = none;
    question_gen_saved_count = 0;
    question_gen_skipped_count = 0;
    question_gen_updated_at = some now;
  }

  unfoldable pub create_task :
      ℕ → Text → Text → ℕ → Table Question → Result (KnowledgeBase Question) × Table Question
  unfolding new_task is_active
  create_task kb_id task_id config now s = elim (get s kb_id) [
    | none ↦ (raise knowledge_base_not_found, s)
    | some kb ↦
        if not (kb.vector_status =? vectorized)
        then (raise bad_request, s)
        else if is_active kb.question_gen_status
        then (raise bad_request, s)
        else (ok (new_task task_id config now kb), put s kb_id (new_task task_id config now kb))
  ]

  unfoldable pub get_config {κ} :
      {Config : Type κ} → (Text → Option Config) → ℕ → Text → Table Question → Result Config
  unfolding read_config_or_none
  get_config validate kb_id task_id s = elim (get s kb_id) [
    | none ↦ raise knowledge_base_not_found
    | some kb ↦
        if kb.question_gen_task_id =? some task_id
        then elim (read_config_or_none validate kb.question_gen_config) [
          | none ↦ raise internal_error
          | some config ↦ ok config
        ]
        else raise bad_request
  ]

  -- The row after the method, or `none` where it returns False.
  unfoldable pub changed :
      TaskOp Question → Text → ℕ → KnowledgeBase Question → Option (KnowledgeBase Question)
  unfolding matches is_stale completion_message
  changed try_mark_processing task_id now kb =
      if matches kb task_id queued
      then some (record kb {
        question_gen_status = processing;
        question_gen_error = none;
        question_gen_updated_at = some now;
      })
      else none
  changed reset_for_retry task_id now kb =
      if matches kb task_id processing
      then some (record kb { question_gen_status = queued; question_gen_updated_at = some now })
      else none
  changed mark_failed task_id now kb =
      if not (kb.question_gen_task_id =? some task_id)
      then none
      else if kb.question_gen_status =? completed
      then none
      else some (record kb {
        question_gen_status = failed;
        question_gen_error = some safe_failure_message;
        question_gen_updated_at = some now;
      })
  changed (replace_questions_and_complete new_questions skipped_count) task_id now kb =
      if matches kb task_id processing
      then some (record kb {
        questions = new_questions;
        question_gen_status = completed;
        question_gen_error = none;
        question_gen_message = some (completion_message (length new_questions) skipped_count);
        question_gen_saved_count = length new_questions;
        question_gen_skipped_count = skipped_count;
        question_gen_updated_at = some now;
      })
      else none
  changed (touch_queued_for_recovery threshold) task_id now kb =
      if matches kb task_id queued
      then if is_stale kb.question_gen_updated_at threshold
        then some (record kb { question_gen_updated_at = some now })
        else none
      else none
  changed (reset_stale_processing threshold) task_id now kb =
      if matches kb task_id processing
      then if is_stale kb.question_gen_updated_at threshold
        then some (record kb { question_gen_status = queued; question_gen_updated_at = some now })
        else none
      else none

  -- One call: whether it returned True, and the table after it.
  unfoldable pub perform : TaskOp Question → ℕ → Text → ℕ → Table Question → Bool × Table Question
  unfolding changed
  perform op kb_id task_id now s = elim (get s kb_id) [
    | none ↦ (false, s)
    | some kb ↦ elim (changed op task_id now kb) [
      | none ↦ (false, s)
      | some kb' ↦ (true, put s kb_id kb')
    ]
  ]
