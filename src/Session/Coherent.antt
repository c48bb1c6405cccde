-- ===== src/Session/Coherent.antt =====
-- When the cache and the table agree on a session, and what a restore from the table gives.
use interview_agent_py.Prelude.{
  ◌≡◌, refl, ap, ◌∙◌, subst, [], Option, none, some, Bool-cases, Option-cases, inl, inr, Text,
  IsDistinct, list_eq, nat_eq,
}
use interview_agent_py.Prelude.Dict.{get, put, keys, get-put_self}
use interview_agent_py.Errors.{ok}
use interview_agent_py.Interview.{created}
use interview_agent_py.Interview.State.{is_unfinished}
use interview_agent_py.Session.{InterviewSession, SessionHash, SessionView, World, overlay}
use interview_agent_py.Session.Store.{
  save_cached, set_unfinished, hset, all_fields, or_else, parse_cached_session,
}
use interview_agent_py.Session.Service.{get_or_restore_session, view_of_row, load_resume_text}

-- A cached session has the questions with the saved answers, the place and the resume of its row,
-- and is unfinished when the row is (the statuses may differ: CREATED in the cache and IN_PROGRESS
-- in the table).
abbrev pub HashAgrees : InterviewSession → SessionHash → Type 0
HashAgrees row h =
    (h.questions ≡ some (overlay row.answers row.questions))
    × (h.current_index ≡ some row.current_question_index)
    × (h.resume_id ≡ some row.resume_id)
    × (is_unfinished (or_else h.status created) ≡ is_unfinished row.status)

abbrev pub AgreesWith : InterviewSession → Option SessionHash → Type 0
AgreesWith row none = Unit
AgreesWith row (some h) = HashAgrees row h

-- The session has this row, one answer at most for each question, and a cached session that agrees
-- with it, or none.
abbrev pub Coherent : Text → InterviewSession → World → Type 0
Coherent session_id row w =
    (get w.rows session_id ≡ some row)
    × IsDistinct (keys row.answers)
    × AgreesWith row (get w.hashes session_id)

abbrev pub ViewAgrees : InterviewSession → SessionView → Type 0
ViewAgrees row v =
    (v.questions ≡ overlay row.answers row.questions)
    × (v.current_question_index ≡ row.current_question_index)
    × (v.resume_id ≡ row.resume_id)
    × (is_unfinished v.status ≡ is_unfinished row.status)

pub save_cached-parts :
    (v : SessionView) (w : World)
    → ((save_cached v w).rows ≡ w.rows)
      × ((save_cached v w).tasks ≡ w.tasks)
      × ((save_cached v w).hashes ≡ put w.hashes v.session_id (all_fields v))
unfolding save_cached set_unfinished hset
save_cached-parts v w = elim (Option-cases v.resume_id) [
  | inl no_resume ↦ rw (save_cached, set_unfinished, no_resume) (refl, refl, refl)
  | inr (r, resume) ↦ elim (Bool-cases (is_unfinished v.status)) [
    | inl live ↦ rw (save_cached, set_unfinished, resume, live) (refl, refl, refl)
    | inr over ↦ rw (save_cached, set_unfinished, resume, over) (refl, refl, refl)
  ]
]

module _ (session_id : Text) (row : InterviewSession) (w : World)
    (h : Coherent session_id row w) where
  -- What every operation starts from: a view that agrees with the row, in a world with the same
  -- tables and tasks in which the session is cached.
  abbrev pub Restored : Type 0
  Restored =
      (view : SessionView) × (w' : World) × (get_or_restore_session session_id w ≡ (ok view, w'))
      × ViewAgrees row view
      × (get w'.rows session_id ≡ some row)
      × ((raw : SessionHash) × (get w'.hashes session_id ≡ some raw) × HashAgrees row raw)
      × (w'.rows ≡ w.rows)
      × (w'.tasks ≡ w.tasks)

  pub from_cache : (raw : SessionHash) → get w.hashes session_id ≡ some raw → Restored
  unfolding parse_cached_session get_or_restore_session
  from_cache raw cached =
      let agrees : HashAgrees row raw = subst (AgreesWith row) cached h.2 in
      (
        parse_cached_session session_id raw,
        w,
        rw (get_or_restore_session, cached) refl,
        (
          ap (λ o. or_else o []) agrees.0,
          ap (λ o. or_else o 0) agrees.1,
          ap (λ o. or_else o none) agrees.2,
          agrees.3,
        ),
        h.0,
        (raw, cached, agrees),
        refl,
        refl,
      )

  pub from_table : get w.hashes session_id ≡ none → Restored
  unfolding view_of_row get_or_restore_session
  from_table missing =
      let v = view_of_row session_id row (load_resume_text row.resume_id w) in
      let parts = save_cached-parts v w in
      let cached : get (save_cached v w).hashes session_id ≡ some (all_fields v) =
        ap (λ d. get d session_id) parts.2 ∙ get-put_self w.hashes session_id (all_fields v) in
      (
        view_of_row session_id row [],
        save_cached v w,
        rw (get_or_restore_session, missing, h.0) refl,
        (refl, refl, refl, refl),
        ap (λ d. get d session_id) parts.0 ∙ h.0,
        (all_fields v, cached, (refl, refl, refl, refl)),
        parts.0,
        parts.1,
      )

  pub restored : Restored
  restored = elim (Option-cases (get w.hashes session_id)) [
    | inl missing ↦ from_table missing
    | inr (raw, cached) ↦ from_cache raw cached
  ]
