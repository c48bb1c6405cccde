-- ===== src/Generation/WellFormed.antt =====
-- The columns of a knowledge base agree with each other, whatever is called.
use interview_agent_py.Prelude.{
  ℕ, ◌≡◌, ◌≢◌, ◌⊎◌, inl, inr, subst, [], ◌∷◌, length, none, some, false, Bool-cases, Option-cases,
  arith, Text, ◌=?◌, option_eq, list_eq, nat_eq,
}
use interview_agent_py.Prelude.Dict.{get, put}
use interview_agent_py.Generation.{
  completed, failed, generation_eq, KnowledgeBase, Table, safe_failure_message, vectorized,
}
use interview_agent_py.Generation.Service.{
  is_active, matches, new_task, create_task, TaskOp, try_mark_processing, reset_for_retry,
  mark_failed, replace_questions_and_complete, touch_queued_for_recovery, reset_stale_processing,
  changed, perform,
}

module _ {ℓ} {Question : Type ℓ} where
  -- A completed knowledge base counts its questions; an error is there exactly while it is FAILED;
  -- an active task has an id.
  abbrev pub WellFormed : KnowledgeBase Question → Type 0
  WellFormed kb =
      ((kb.question_gen_status ≢ completed) ⊎ (kb.question_gen_saved_count ≡ length kb.questions))
      × ((kb.question_gen_status ≡ failed) ⊎ (kb.question_gen_error ≡ none))
      × ((kb.question_gen_status ≢ failed) ⊎ (kb.question_gen_error ≡ some safe_failure_message))
      × ((is_active kb.question_gen_status ≡ false) ⊎ (kb.question_gen_task_id ≢ none))

  abbrev pub AllWellFormed : Table Question → Type 0
  AllWellFormed [] = Unit
  AllWellFormed ((kb_id, kb) ∷ s) = WellFormed kb × AllWellFormed s

  WellFormed-get :
      (s : Table Question) (kb_id : ℕ) (kb : KnowledgeBase Question)
      → AllWellFormed s
      → get s kb_id ≡ some kb
      → WellFormed kb
  unfolding get
  WellFormed-get [] kb_id kb h at = absurd (ground arith)
  WellFormed-get ((j, kb') ∷ s) kb_id kb h at = elim (Bool-cases (j =? kb_id)) [
    | inl same ↦ let e : kb' ≡ kb = ground (arith) in subst WellFormed e h.0
    | inr other ↦ WellFormed-get s kb_id kb h.1 (ground arith)
  ]

  AllWellFormed-put :
      (s : Table Question) (kb_id : ℕ) (kb : KnowledgeBase Question)
      → AllWellFormed s
      → WellFormed kb
      → AllWellFormed (put s kb_id kb)
  unfolding put
  AllWellFormed-put [] kb_id kb h w = (w, tt)
  AllWellFormed-put ((j, kb') ∷ s) kb_id kb h w = elim (Bool-cases (j =? kb_id)) [
    | inl same ↦ rw same (w, h.1)
    | inr other ↦ rw other (h.0, AllWellFormed-put s kb_id kb h.1 w)
  ]

  WellFormed-new_task :
      (task_id config : Text) (now : ℕ) (kb : KnowledgeBase Question)
      → WellFormed (new_task task_id config now kb)
  unfolding new_task
  WellFormed-new_task task_id config now kb = ground arith

  WellFormed-changed :
      (op : TaskOp Question) (task_id : Text) (now : ℕ) (kb kb' : KnowledgeBase Question)
      → WellFormed kb
      → changed op task_id now kb ≡ some kb'
      → WellFormed kb'
  unfolding changed matches is_active
  WellFormed-changed try_mark_processing task_id now kb kb' w h = ground arith
  WellFormed-changed reset_for_retry task_id now kb kb' w h = ground arith
  WellFormed-changed mark_failed task_id now kb kb' w h = ground arith
  WellFormed-changed (replace_questions_and_complete qs n) task_id now kb kb' w h = ground arith
  WellFormed-changed (touch_queued_for_recovery t) task_id now kb kb' w h = ground arith
  WellFormed-changed (reset_stale_processing t) task_id now kb kb' w h = ground arith

  -- Every call of a task keeps all knowledge bases well formed.
  pub perform-WellFormed :
      (op : TaskOp Question) (kb_id : ℕ) (task_id : Text) (now : ℕ) (s : Table Question)
      → AllWellFormed s
      → AllWellFormed (perform op kb_id task_id now s).1
  unfolding perform
  perform-WellFormed op kb_id task_id now s h = elim (Option-cases (get s kb_id)) [
    | inl missing ↦ rw (perform, missing) h
    | inr (kb, at) ↦ elim (Option-cases (changed op task_id now kb)) [
      | inl unchanged ↦ rw (perform, at, unchanged) h
      | inr (kb', change) ↦
          rw (perform, at, change)
            (AllWellFormed-put s kb_id kb' h
              (WellFormed-changed op task_id now kb kb' (WellFormed-get s kb_id kb h at) change))
    ]
  ]

  -- So does the creation of a task, whether it is accepted or not.
  pub create_task-WellFormed :
      (kb_id : ℕ) (task_id config : Text) (now : ℕ) (s : Table Question)
      → AllWellFormed s
      → AllWellFormed (create_task kb_id task_id config now s).1
  unfolding create_task
  create_task-WellFormed kb_id task_id config now s h = elim (Option-cases (get s kb_id)) [
    | inl missing ↦ rw (create_task, missing) h
    | inr (kb, at) ↦
        let put' = AllWellFormed-put s kb_id _ h (WellFormed-new_task task_id config now kb) in
        elim (Bool-cases (kb.vector_status =? vectorized)) [
          | inr raw ↦ rw (create_task, at, raw) h
          | inl ready ↦ elim (Bool-cases (is_active kb.question_gen_status)) [
            | inl busy ↦ rw (create_task, at, ready, busy) h
            | inr free ↦ rw (create_task, at, ready, free) put'
          ]
        ]
  ]
