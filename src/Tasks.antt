-- ===== src/Tasks.antt =====
-- The consumer of the evaluation tasks: infrastructure/tasks/base_consumer.py with the steps of
-- base_evaluate_consumer.py. The evaluation itself is a parameter; Redis and the database are taken
-- to work.
pub mod Retry
mod Examples
use interview_agent_py.Prelude.{
  ℕ, ◌+◌, ◌≡◌, ◌↔◌, List, [], ◌∷◌, ◌++◌, Option, none, some, Bool, true, ◌==◌, ltb, if◌then◌else◌,
  Eq, ◌=?◌, Text, take, list_eq, nat_eq, arith,
}
use interview_agent_py.Prelude.Dict.{Dict, get, put, remove}

-- domain/entities/task_status.py
pub data AsyncTaskStatus : Type 0 where
  pending processing completed failed : AsyncTaskStatus

abbrev pub task_number : AsyncTaskStatus → ℕ
task_number pending = 0
task_number processing = 1
task_number completed = 2
task_number failed = 3

pub task_number_iff : (a b : AsyncTaskStatus) → ((task_number a == task_number b) ≡ true) ↔ (a ≡ b)
task_number_iff a b = ground arith

instance abbrev pub task_eq : Eq AsyncTaskStatus
task_eq = record { beq = λ a b. task_number a == task_number b; beq_iff = task_number_iff }

-- The columns of a session that a task writes; `report` is the stored evaluation.
pub record TaskRow {ℓ} (Report : Type ℓ) : Type ℓ where
  pub evaluate_status : AsyncTaskStatus
  pub evaluate_error : Option Text
  pub report : Option Report

-- A message of the stream: `none` for one that cannot be parsed.
pub record Message : Type 0 where
  pub msg_id : ℕ
  pub payload : Option Text
  pub retry_count : ℕ

-- The sessions, the messages that wait (a new one gets the next id), the ids that were
-- acknowledged, and the reasons of degraded evaluations that are kept from one step to the next.
pub record State {ℓ} (Report : Type ℓ) : Type ℓ where
  pub rows : Dict Text (TaskRow Report)
  pub stream : List Message
  pub next_id : ℕ
  pub acked : List ℕ
  pub degraded_reasons : Dict Text Text

-- What an evaluation gives: a report with the joined reasons, if it was degraded, or an error.
pub data Outcome {ℓ} (Report : Type ℓ) : Type ℓ where
  evaluated : Report → Option Text → Outcome Report
  raised : Text → Outcome Report

-- `truncate_error` of utils.py
abbrev pub truncate_error : Text → Text
truncate_error error = take 500 error

abbrev pub max_retry_count : ℕ
max_retry_count = 3

module _ {ℓ} {Report : Type ℓ} where
  unfoldable pub update_evaluate_status :
      Text → AsyncTaskStatus → Option Text → State Report → State Report
  update_evaluate_status session_id status error s = elim (get s.rows session_id) [
    | none ↦ s
    | some row ↦ record s {
      rows =
          put s.rows session_id (record row { evaluate_status = status; evaluate_error = error });
    }
  ]

  unfoldable pub mark_processing : Text → State Report → State Report
  unfolding update_evaluate_status
  mark_processing session_id s = elim (get s.rows session_id) [
    | none ↦ s
    | some row ↦
        if row.evaluate_status =? completed
        then s
        else update_evaluate_status session_id processing none s
  ]

  -- The report is stored, and its reasons are kept or the old ones dropped.
  unfoldable pub persist_result :
      Text → Report → Option Text → TaskRow Report → State Report → State Report
  persist_result session_id report reasons row s = record s {
    rows = put s.rows session_id (record row { report = some report });
    degraded_reasons = elim reasons [
      | none ↦ remove s.degraded_reasons session_id
      | some text ↦ put s.degraded_reasons session_id text
    ];
  }

  -- The error, if it raises one, and the state.
  unfoldable pub process_business :
      Outcome Report → Text → State Report → Option Text × State Report
  unfolding persist_result
  process_business outcome session_id s = elim (get s.rows session_id) [
    | none ↦ (none, s)
    | some row ↦ if row.evaluate_status =? completed then (none, s) else elim outcome [
      | raised error ↦ (some error, s)
      | evaluated report reasons ↦ (none, persist_result session_id report reasons row s)
    ]
  ]

  unfoldable pub mark_completed : Text → State Report → State Report
  unfolding update_evaluate_status
  mark_completed session_id s =
      update_evaluate_status session_id completed (get s.degraded_reasons session_id)
        (record s { degraded_reasons = remove s.degraded_reasons session_id })

  unfoldable pub mark_failed : Text → Text → State Report → State Report
  unfolding update_evaluate_status
  mark_failed session_id error s =
      update_evaluate_status session_id failed (some error)
        (record s { degraded_reasons = remove s.degraded_reasons session_id })

  unfoldable pub retry_message : Text → ℕ → State Report → State Report
  retry_message session_id retry_count s = record s {
    stream =
        s.stream
        ++ record { msg_id = s.next_id; payload = some session_id; retry_count = retry_count } ∷ [];
    next_id = s.next_id + 1;
  }

  unfoldable pub ack : ℕ → State Report → State Report
  ack msg_id s = record s { acked = s.acked ++ msg_id ∷ [] }

  -- After the evaluation: completed, put up again, or failed for good.
  unfoldable pub conclude : Message → Text → Option Text × State Report → State Report
  unfolding mark_completed mark_failed retry_message
  conclude message session_id (none, s) = mark_completed session_id s
  conclude message session_id (some error, s) =
      if ltb message.retry_count max_retry_count
      then retry_message session_id (message.retry_count + 1) s
      else mark_failed session_id (truncate_error error) s

  unfoldable pub process_message : Outcome Report → Message → State Report → State Report
  unfolding mark_processing process_business conclude ack
  process_message outcome message s = elim message.payload [
    | none ↦ ack message.msg_id s
    | some session_id ↦ ack message.msg_id (
        conclude message session_id
          (process_business outcome session_id (mark_processing session_id s)))
  ]
