-- ===== src/Session/Create.antt =====
-- Creating a session: where the agreement of cache and table begins.
use interview_agent_py.Prelude.{◌≡◌, refl, ap, ◌∙◌, subst, sym, some, IsDistinct, list_eq, nat_eq}
use interview_agent_py.Prelude.Dict.{get, put, keys, get-put_self}
use interview_agent_py.Session.{InterviewSession, SessionView, World, overlay}
use interview_agent_py.Session.Coherent.{Coherent, HashAgrees, AgreesWith, save_cached-parts}
use interview_agent_py.Session.Store.{save_cached, all_fields}
use interview_agent_py.Session.Service.{NewSession, new_row, new_view, create_with}

save_cached_view-Coherent :
    (v : SessionView) (row : InterviewSession) (w : World)
    → get w.rows v.session_id ≡ some row
    → IsDistinct (keys row.answers)
    → HashAgrees row (all_fields v)
    → Coherent v.session_id row (save_cached v w) × ((save_cached v w).tasks ≡ w.tasks)
save_cached_view-Coherent v row w here distinct agrees =
    let parts = save_cached-parts v w in
    (
      (
        ap (λ d. get d v.session_id) parts.0 ∙ here,
        distinct,
        subst (AgreesWith row)
            (sym (
              ap (λ d. get d v.session_id) parts.2
              ∙ get-put_self w.hashes v.session_id (all_fields v)))
            agrees,
      ),
      parts.1,
    )

-- The session that is created has a row with the questions as they were given, the first one to be
-- answered, no answers and the status CREATED; its cache agrees with its row, whatever the tables and
-- the cache held before, and nothing is put up for evaluation.
pub create_with-Coherent :
    (n : NewSession) (w : World)
    → Coherent n.session_id (new_row n) (create_with n w).1 × ((create_with n w).1.tasks ≡ w.tasks)
unfolding create_with overlay
create_with-Coherent n w =
    save_cached_view-Coherent (new_view n) (new_row n)
      (record w { rows = put w.rows n.session_id (new_row n) })
      (get-put_self w.rows n.session_id (new_row n)) tt (refl, refl, refl, refl)
