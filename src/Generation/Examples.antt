-- ===== src/Generation/Examples.antt =====
-- A knowledge base whose task is claimed, replaced, and finished.
use interview_agent_py.Prelude.{
  ℕ, ◌≡◌, ◌≢◌, ◌⊎◌, refl, List, [], ◌∷◌, length, Option, none, some, true, false, arith, Text,
  codes, option_eq, list_eq, nat_eq, list_beq, option_beq,
}
use interview_agent_py.Prelude.Dict.{get, put}
use interview_agent_py.Generation.{
  GenerationStatus, queued, completed, generation_eq, vectorized, KnowledgeBase, Table,
}
use interview_agent_py.Generation.Service.{
  is_active, matches, try_mark_processing, mark_failed, perform, changed,
}
use interview_agent_py.Generation.Machine.{Step}
use interview_agent_py.Generation.Kept.{perform-replaced, perform-cases, perform-claim_once}
use interview_agent_py.Generation.WellFormed.{AllWellFormed, perform-WellFormed}

abbrev base : GenerationStatus → Option Text → List ℕ → KnowledgeBase ℕ
base status task_id questions = record {
  vector_status = vectorized;
  question_gen_status = status;
  question_gen_error = none;
  question_gen_task_id = task_id;
  question_gen_config = none;
  question_gen_message = none;
  question_gen_saved_count = length questions;
  question_gen_skipped_count = 0;
  question_gen_updated_at = none;
  questions = questions;
}

abbrev waiting : KnowledgeBase ℕ
waiting = base queued (some (codes "t1")) []

abbrev done : KnowledgeBase ℕ
done = base completed (some (codes "t1")) (7 ∷ 8 ∷ [])

abbrev table : KnowledgeBase ℕ → Table ℕ
table kb = (1, kb) ∷ []

claim_succeeds : (perform try_mark_processing 1 (codes "t1") 5 (table waiting)).0 ≡ true
unfolding perform get changed matches option_beq list_beq
claim_succeeds = refl

other_task : some (codes "t1") ≢ some (codes "t2")
other_task e = ground arith

perform-replaced_example :
    perform mark_failed 1 (codes "t2") 5 (table waiting) ≡ (false, table waiting)
unfolding get
perform-replaced_example =
    perform-replaced mark_failed 1 (codes "t2") 5 (table waiting) waiting refl other_task

perform-cases_example :
    (perform try_mark_processing 1 (codes "t1") 5 (table waiting) ≡ (false, table waiting))
    ⊎ ((kb' : KnowledgeBase ℕ) × (perform try_mark_processing 1 (codes "t1") 5 (table waiting)
          ≡ (true, put (table waiting) 1 kb'))
        × (kb'.question_gen_task_id ≡ waiting.question_gen_task_id)
        × Step waiting.question_gen_status kb'.question_gen_status
        × ((kb'.question_gen_status ≡ completed) ⊎ (kb'.questions ≡ waiting.questions)))
unfolding get
perform-cases_example =
    perform-cases try_mark_processing 1 (codes "t1") 5 (table waiting) waiting refl

claim_once_example :
    perform try_mark_processing 1
      (codes "t1")
      6
      (perform try_mark_processing 1 (codes "t1") 5 (table waiting)).1
    ≡ (false, (perform try_mark_processing 1 (codes "t1") 5 (table waiting)).1)
claim_once_example = perform-claim_once 1 (codes "t1") 5 6 (table waiting)

waiting-AllWellFormed : AllWellFormed (table waiting)
unfolding is_active
waiting-AllWellFormed = ground arith

done-AllWellFormed : AllWellFormed (table done)
unfolding is_active
done-AllWellFormed = ground arith

perform-WellFormed_example :
    AllWellFormed (perform try_mark_processing 1 (codes "t1") 5 (table waiting)).1
perform-WellFormed_example =
    perform-WellFormed try_mark_processing 1 (codes "t1") 5 (table waiting) waiting-AllWellFormed
