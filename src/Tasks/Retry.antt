-- ===== src/Tasks/Retry.antt =====
-- What one message does: it is acknowledged, a finished evaluation stays, a failing one is retried a
-- bounded number of times.
use interview_agent_py.Prelude.{
  ◌+◌, ◌≤◌, ◌<◌, ◌≡◌, refl, ap, ◌∙◌, [], ◌∷◌, ◌++◌, Option, none, some, true, false, Bool-cases,
  Option-cases, inl, inr, ltb, ◌=?◌, Text, list_eq, nat_eq, arith, tests,
}
use interview_agent_py.Prelude.Dict.{get, put, get-put_self}
use interview_agent_py.Tasks.{
  AsyncTaskStatus, processing, completed, failed, task_eq, task_number_iff, TaskRow, Message, State,
  Outcome, evaluated, raised, max_retry_count, truncate_error, update_evaluate_status,
  mark_processing, persist_result, process_business, mark_completed, mark_failed, retry_message,
  ack, conclude, process_message,
}

module _ {ℓ} {Report : Type ℓ} where
  update-acked :
      (id : Text) (t : AsyncTaskStatus) (e : Option Text) (s : State Report)
      → (update_evaluate_status id t e s).acked ≡ s.acked
  unfolding update_evaluate_status
  update-acked id t e s = elim (Option-cases (get s.rows id)) [
    | inl missing ↦ rw (update_evaluate_status, missing) refl
    | inr (row, at) ↦ rw (update_evaluate_status, at) refl
  ]

  mark_processing-acked : (id : Text) (s : State Report) → (mark_processing id s).acked ≡ s.acked
  unfolding mark_processing
  mark_processing-acked id s = elim (Option-cases (get s.rows id)) [
    | inl missing ↦ rw (mark_processing, missing) refl
    | inr (row, at) ↦ elim (Bool-cases (row.evaluate_status =? completed)) [
      | inl done ↦ rw (mark_processing, at, done) refl
      | inr open_task ↦ rw (mark_processing, at, open_task) (update-acked id processing none s)
    ]
  ]

  process_business-acked :
      (o : Outcome Report) (id : Text) (s : State Report)
      → (process_business o id s).1.acked ≡ s.acked
  unfolding process_business persist_result
  process_business-acked o id s = elim (Option-cases (get s.rows id)) [
    | inl missing ↦ rw (process_business, missing) refl
    | inr (row, at) ↦ elim (Bool-cases (row.evaluate_status =? completed)) [
      | inl done ↦ rw (process_business, at, done) refl
      | inr open_task ↦ rw (process_business, at, open_task) (by_outcome o row)
    ]
  ]
    where
      by_outcome :
          (p : Outcome Report) (row : TaskRow Report)
          → (elim p as (λ x. Option Text × State Report) [
            | raised error ↦ (some error, s)
            | evaluated report reasons ↦ (none, persist_result id report reasons row s)
          ]).1.acked
            ≡ s.acked
      by_outcome (raised error) row = refl
      by_outcome (evaluated report reasons) row = refl

  conclude-acked :
      (m : Message) (id : Text) (r : Option Text × State Report)
      → (conclude m id r).acked ≡ r.1.acked
  unfolding conclude mark_completed mark_failed retry_message
  conclude-acked m id (none, s) = update-acked id completed _ _
  conclude-acked m id (some error, s) = elim (Bool-cases (ltb m.retry_count max_retry_count)) [
    | inl again ↦ rw again refl
    | inr last ↦ rw last (update-acked id failed _ _)
  ]

  -- Every message that is processed is acknowledged, once, whatever happened to it.
  pub process_message-acked :
      (o : Outcome Report) (m : Message) (s : State Report)
      → (process_message o m s).acked ≡ s.acked ++ m.msg_id ∷ []
  unfolding process_message ack
  process_message-acked o m s = elim (Option-cases m.payload) [
    | inl unreadable ↦ rw (process_message, unreadable) refl
    | inr (id, readable) ↦
        rw (process_message, readable)
          (ap (λ a. a ++ m.msg_id ∷ [])
            (conclude-acked m id (process_business o id (mark_processing id s))
              ∙ process_business-acked o id (mark_processing id s)
              ∙ mark_processing-acked id s))
  ]

module _ {ℓ} {Report : Type ℓ} (m : Message) (s : State Report) (id : Text) (row : TaskRow Report)
    (readable : m.payload ≡ some id) (at : get s.rows id ≡ some row) where
  runs :
      (o : Outcome Report)
      → process_message o m s
        ≡ ack m.msg_id (conclude m id (process_business o id (mark_processing id s)))
  unfolding process_message
  runs o = rw (process_message, readable) refl

  row_of_completed :
      get (mark_completed id s).rows id
      ≡ some
          (record row { evaluate_status = completed; evaluate_error = get s.degraded_reasons id })
  unfolding mark_completed update_evaluate_status
  row_of_completed = rw (mark_completed, update_evaluate_status, at) (get-put_self s.rows id _)

  conclude-none : (t : State Report) → conclude m id (none, t) ≡ mark_completed id t
  unfolding conclude
  conclude-none t = refl

  row-ack : (t : State Report) → get (ack m.msg_id t).rows id ≡ get t.rows id
  unfolding ack
  row-ack t = refl

  idle : (row.evaluate_status =? completed) ≡ true → mark_processing id s ≡ s
  unfolding mark_processing
  idle is_done = rw (mark_processing, at, is_done) refl

  skipped :
      (o : Outcome Report)
      → (row.evaluate_status =? completed) ≡ true
      → process_business o id s ≡ (none, s)
  unfolding process_business
  skipped o is_done = rw (process_business, at, is_done) refl

  -- A message for an evaluation that is already complete keeps the status and the report, whatever
  -- a new evaluation would give, but overwrites the error by the reasons that are kept, if any.
  pub process_message-completed :
      (o : Outcome Report)
      → row.evaluate_status ≡ completed
      → get (process_message o m s).rows id
        ≡ some
            (record row { evaluate_status = completed; evaluate_error = get s.degraded_reasons id })
  process_message-completed o done =
      let is_done = (task_number_iff row.evaluate_status completed).1 done in
      ap (λ t. get t.rows id)
        (runs o
          ∙ ap (λ t. ack m.msg_id (conclude m id (process_business o id t))) (idle is_done)
          ∙ ap (λ r. ack m.msg_id (conclude m id r)) (skipped o is_done)
          ∙ ap (λ t. ack m.msg_id t) (conclude-none s))
      ∙ row-ack (mark_completed id s)
      ∙ row_of_completed

  -- The state in which the evaluation runs.
  unfoldable pub claimed : State Report
  claimed = record s {
    rows = put s.rows id (record row { evaluate_status = processing; evaluate_error = none });
  }

  module _ (error : Text) (unfinished : (row.evaluate_status =? completed) ≡ false) where
    marked-eq : mark_processing id s ≡ claimed
    unfolding mark_processing update_evaluate_status claimed
    marked-eq = rw (mark_processing, at, unfinished, update_evaluate_status, at) refl

    raised-eq : process_business (raised error) id claimed ≡ (some error, claimed)
    unfolding process_business claimed
    raised-eq =
        let here =
          get-put_self s.rows id
            (record row { evaluate_status = processing; evaluate_error = none }) in
        rw (process_business, here) refl

    concluded :
        process_message (raised error) m s ≡ ack m.msg_id (conclude m id (some error, claimed))
    concluded =
        runs (raised error)
        ∙ ap (λ t. ack m.msg_id (conclude m id (process_business (raised error) id t))) marked-eq
        ∙ ap (λ r. ack m.msg_id (conclude m id r)) raised-eq

    put_up_again :
        ltb m.retry_count max_retry_count ≡ true
        → conclude m id (some error, claimed) ≡ retry_message id (m.retry_count + 1) claimed
    unfolding conclude
    put_up_again again = rw again refl

    -- An evaluation that raises, of a session that is there and not complete, with retries left: the
    -- session is PROCESSING, and one message
    -- with the next retry count is added to the stream.
    pub process_message-retry :
        m.retry_count < max_retry_count
        → process_message (raised error) m s
          ≡ ack m.msg_id (retry_message id (m.retry_count + 1) claimed)
    process_message-retry more =
        let again : ltb m.retry_count max_retry_count ≡ true = omega (tests, more) in
        concluded ∙ ap (λ t. ack m.msg_id t) (put_up_again again)

    given_up :
        ltb m.retry_count max_retry_count ≡ false
        → conclude m id (some error, claimed) ≡ mark_failed id (truncate_error error) claimed
    unfolding conclude
    given_up last = rw last refl

    row_of_failed :
        (get (mark_failed id (truncate_error error) claimed).rows id
          ≡ some (record row {
            evaluate_status = failed;
            evaluate_error = some (truncate_error error);
          }))
        × ((mark_failed id (truncate_error error) claimed).stream ≡ s.stream)
    unfolding mark_failed update_evaluate_status claimed
    row_of_failed =
        let here =
          get-put_self s.rows id
            (record row { evaluate_status = processing; evaluate_error = none }) in
        rw (mark_failed, update_evaluate_status, here)
          (
            get-put_self
                (put s.rows id (record row { evaluate_status = processing; evaluate_error = none }))
                id _,
            refl,
          )

    -- An evaluation that raises, of a session that is there and not complete, with no retries left: the
    -- session is FAILED with the first 500 characters of the error, the rest of its row stays, and nothing
    -- is added to the stream.
    pub process_message-failed :
        max_retry_count ≤ m.retry_count
        → (get (process_message (raised error) m s).rows id
            ≡ some (record row {
              evaluate_status = failed;
              evaluate_error = some (truncate_error error);
            }))
          × ((process_message (raised error) m s).stream ≡ s.stream)
    unfolding ack
    process_message-failed over =
        let last : ltb m.retry_count max_retry_count ≡ false = ground (arith, over) in
        let same = concluded ∙ ap (λ t. ack m.msg_id t) (given_up last) in
        (ap (λ t. get t.rows id) same ∙ row_of_failed.0, ap (λ t. t.stream) same ∙ row_of_failed.1)
