-- ===== src/Tasks/Examples.antt =====
-- One session, evaluated by a task whose evaluation fails, or that is delivered again.
use interview_agent_py.Prelude.{
  ℕ, ◌≡◌, refl, [], ◌∷◌, none, some, codes, arith, list_eq, nat_eq, list_beq,
}
use interview_agent_py.Prelude.Dict.{get}
use interview_agent_py.Tasks.{
  AsyncTaskStatus, pending, failed, task_eq, TaskRow, Message, State, raised, process_message,
}
use interview_agent_py.Tasks.Retry.{process_message-failed}

abbrev row_in : AsyncTaskStatus → TaskRow ℕ
row_in status = record { evaluate_status = status; evaluate_error = none; report = some 70 }

abbrev state_in : AsyncTaskStatus → State ℕ
state_in status = record {
  rows = (codes "s", row_in status) ∷ [];
  stream = [];
  next_id = 9;
  acked = [];
  degraded_reasons = [];
}

abbrev message : ℕ → Message
message retry_count = record { msg_id = 8; payload = some (codes "s"); retry_count = retry_count }

there : (status : AsyncTaskStatus) → get (state_in status).rows (codes "s") ≡ some (row_in status)
unfolding get list_beq
there status = refl

process_message-failed_example :
    (get (process_message (raised (codes "e")) (message 3) (state_in pending)).rows (codes "s")
      ≡ some (record {
        evaluate_status = failed;
        evaluate_error = some (codes "e");
        report = some 70;
      }))
    × ((process_message (raised (codes "e")) (message 3) (state_in pending)).stream ≡ [])
process_message-failed_example =
    process_message-failed (message 3) (state_in pending) (codes "s") (row_in pending) refl
      (there pending) (codes "e") refl (omega arith)
