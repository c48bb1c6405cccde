-- ===== src/Voice/Service/Cached.antt =====
-- The cache of voice sessions under the calls of the service, as a read of it shows it.
use interview_agent_py.Prelude.{
  ℕ, ◌≡◌, inl, inr, refl, ap, sym, ◌∙◌, Option, none, some, Bool, true, false, Bool-cases,
  Option-cases, if◌then◌else◌, ◌=?◌, Text, [], ◌∷◌, is_empty, nat_eq, subst,
}
use interview_agent_py.Prelude.Dict.{get, get-put, get-remove}
use interview_agent_py.Session.{or_empty, or_none}
use interview_agent_py.Voice.{in_progress, paused, voice_status_eq, status_number_iff}
use interview_agent_py.Voice.State.{is_unfinished}
use interview_agent_py.Voice.Table.{
  VoiceSession, VoiceSessionHash, VoiceWorld, with_row, load_session, write_cache, invalidate_cache,
  send_task, to_cache_snapshot, CachedVoiceSession, to_hash, parse_cached_session,
}
use interview_agent_py.Voice.Service.{
  VoiceCall, end_session, pause_session, resume_session, delete_session, trigger_evaluation, ended,
  resumed_row, waiting_row, evaluation_stands, body, perform, CreateVoiceSessionRequest,
  create_session, new_session,
}
use interview_agent_py.Voice.Service.Rows.{
  row_after, and_then, perform-row, sent, validate-completed, validate-paused, validate-in_progress,
}

-- An empty text is read as none.
abbrev pub none_if_empty : Option Text → Option Text
none_if_empty none = none
none_if_empty (some text) = if is_empty text then none else some text

-- The snapshot of a row that a read gives.
abbrev pub read_snapshot : ℕ → VoiceSession → CachedVoiceSession
read_snapshot i row = record (to_cache_snapshot i row) {
  llm_provider = none_if_empty row.llm_provider;
}

parse-to_hash :
    (i : ℕ) (row : VoiceSession)
    → parse_cached_session i (to_hash (to_cache_snapshot i row)) ≡ read_snapshot i row
parse-to_hash i row =
    ap (λ provider. record (to_cache_snapshot i row) { llm_provider = provider })
      (by_provider row.llm_provider)
  where
    by_provider : (o : Option Text) → or_none (or_empty o) ≡ none_if_empty o
    by_provider none = refl
    by_provider (some []) = refl
    by_provider (some (c ∷ text)) = refl

-- What a read of the cache gives is the snapshot of the row; there may be none.
abbrev pub Agrees : ℕ → Option VoiceSession → Option VoiceSessionHash → Type 0
Agrees i o none = Unit
Agrees i none (some cached) = ⊥
Agrees i (some row) (some raw) = parse_cached_session i raw ≡ read_snapshot i row

abbrev pub IsCoherent : VoiceWorld → Type 0
IsCoherent w = (i : ℕ) → Agrees i (get w.rows i) (get w.cache i)

-- The snapshot after a call.
unfoldable cached_after :
    ℕ → VoiceCall → VoiceSession → Option VoiceSessionHash → Option VoiceSessionHash
cached_after i (end_session now refused) row o = if is_unfinished row.status then none else o
cached_after i (pause_session now) row o = if row.status =? in_progress then none else o
cached_after i (resume_session now) row o =
    if row.status =? in_progress
    then some (to_hash (to_cache_snapshot i row))
    else if row.status =? paused
    then some (to_hash (to_cache_snapshot i (resumed_row now row)))
    else o
cached_after i delete_session row o = none
cached_after i (trigger_evaluation now refused) row o = o

send_task-cache :
    (refused : Option Text) (i now : ℕ) (w : VoiceWorld)
    → (send_task refused i now w).cache ≡ w.cache
unfolding send_task
send_task-cache none i now w = refl
send_task-cache (some error) i now w = elim (Option-cases (get w.rows i)) [
  | inl missing ↦ rw (send_task, missing) refl
  | inr (row, at) ↦ rw (send_task, at) refl
]

module _ (i j : ℕ) (row : VoiceSession) (w : VoiceWorld) where
  same_cache : get w.cache j ≡ (if i =? j then get w.cache i else get w.cache j)
  same_cache = elim (Bool-cases (i =? j)) [
    | inl same ↦ rw same (ap (λ k. get w.cache k) (sym ((nat_eq.beq_iff i j).0 same)))
    | inr other ↦ rw other refl
  ]

  body-cache :
      (call : VoiceCall)
      → get (body true i call row w).1.cache j
        ≡ (if i =? j then cached_after i call row (get w.cache i) else get w.cache j)
  unfolding body cached_after invalidate_cache write_cache
  body-cache (end_session now refused) = elim (Bool-cases (is_unfinished row.status)) [
    | inl open_session ↦
        rw (open_session, validate-completed, open_session)
          (ap (λ d. get d j)
              (send_task-cache refused i now
                (invalidate_cache true i (with_row i (ended now row) w)))
            ∙ get-remove w.cache i j)
    | inr over ↦ rw (over, validate-completed, over) same_cache
  ]
  body-cache (pause_session now) = elim (Bool-cases (row.status =? in_progress)) [
    | inl live ↦ rw (live, validate-paused, live) (get-remove w.cache i j)
    | inr other ↦ rw (other, validate-paused, other) same_cache
  ]
  body-cache (resume_session now) = elim (Bool-cases (row.status =? in_progress)) [
    | inl live ↦ rw live (get-put w.cache i j (to_hash (to_cache_snapshot i row)))
    | inr other ↦ elim (Bool-cases (row.status =? paused)) [
      | inl idle ↦
          rw (other, idle, validate-in_progress, idle)
            (get-put w.cache i j (to_hash (to_cache_snapshot i (resumed_row now row))))
      | inr over ↦ rw (other, over, validate-in_progress, over) same_cache
    ]
  ]
  body-cache delete_session = get-remove w.cache i j
  body-cache (trigger_evaluation now refused) =
      elim (Bool-cases (evaluation_stands row.evaluate_status)) [
        | inl stands ↦ rw stands same_cache
        | inr open_task ↦ rw open_task (
            ap (λ d. get d j) (send_task-cache refused i now (with_row i (waiting_row now row) w))
            ∙ same_cache)
      ]

-- A task that is sent, or waits, leaves the fields of the snapshot.
sent-Agrees :
    (i now : ℕ) (refused : Option Text) (row : VoiceSession) (o : Option VoiceSessionHash)
    → Agrees i (some row) o
    → Agrees i (some (sent refused now (waiting_row now row))) o
sent-Agrees i now refused row none h = tt
sent-Agrees i now none row (some cached) h = h
sent-Agrees i now (some error) row (some cached) h = h

call-Agrees :
    (i : ℕ) (call : VoiceCall) (row : VoiceSession) (o : Option VoiceSessionHash)
    → Agrees i (some row) o
    → Agrees i (row_after call row) (cached_after i call row o)
unfolding row_after cached_after
call-Agrees i (end_session now refused) row o h = elim (Bool-cases (is_unfinished row.status)) [
  | inl open_session ↦ rw open_session tt
  | inr over ↦ rw over h
]
call-Agrees i (pause_session now) row o h = elim (Bool-cases (row.status =? in_progress)) [
  | inl live ↦ rw live tt
  | inr other ↦ rw other h
]
call-Agrees i (resume_session now) row o h = elim (Bool-cases (row.status =? in_progress)) [
  | inl live ↦
      let not_paused : (row.status =? paused) ≡ false =
        ap (λ s. s =? paused) ((status_number_iff row.status in_progress).0 live) in
      rw (live, not_paused) (parse-to_hash i row)
  | inr other ↦ elim (Bool-cases (row.status =? paused)) [
    | inl idle ↦ rw (other, idle) (parse-to_hash i (resumed_row now row))
    | inr over ↦ rw (other, over) h
  ]
]
call-Agrees i delete_session row o h = tt
call-Agrees i (trigger_evaluation now refused) row o h =
    elim (Bool-cases (evaluation_stands row.evaluate_status)) [
      | inl stands ↦ rw stands h
      | inr open_task ↦ rw open_task (sent-Agrees i now refused row o h)
    ]

body-Agrees :
    (i j : ℕ) (call : VoiceCall) (row : VoiceSession) (w : VoiceWorld)
    → get w.rows i ≡ some row
    → IsCoherent w
    → Agrees j (get (perform true i call w).1.rows j) (get (body true i call row w).1.cache j)
unfolding and_then
body-Agrees i j call row w at coherent =
    subst (λ o. Agrees j o (get (body true i call row w).1.cache j))
      (sym (perform-row true i j call w))
      (subst (Agrees j _) (sym (body-cache i j row w call)) (elim (Bool-cases (i =? j)) [
        | inl same ↦
            let e = (nat_eq.beq_iff i j).0 same in
            rw same (
              subst
                (λ k.
                  Agrees k (and_then (get w.rows k) (row_after call))
                    (cached_after i call row (get w.cache i)))
                e
                (rw at (
                  call-Agrees i call row (get w.cache i)
                    (subst (λ o. Agrees i o (get w.cache i)) at (coherent i)))))
        | inr other ↦ rw other (coherent j)
      ]))

-- While Redis works, a call keeps every cached hash one that is read as the snapshot of its row, an empty
-- llm_provider being read as none.
pub perform-IsCoherent :
    (i : ℕ) (call : VoiceCall) (w : VoiceWorld)
    → IsCoherent w
    → IsCoherent (perform true i call w).1
unfolding perform
perform-IsCoherent i call w coherent j = elim (Option-cases (get w.rows i)) [
  | inl missing ↦ rw (perform, load_session, missing) (coherent j)
  | inr (row, at) ↦
      subst (λ v. Agrees j (get (perform true i call w).1.rows j) (get v.cache j))
        (performed row at) (body-Agrees i j call row w at coherent)
]
  where
    performed :
        (row : VoiceSession)
        → get w.rows i ≡ some row
        → (body true i call row w).1 ≡ (perform true i call w).1
    performed row at = rw (perform, load_session, at) refl

-- So does a new session.
pub create_session-IsCoherent :
    (known : Bool) (request : CreateVoiceSessionRequest) (now : ℕ) (w : VoiceWorld)
    → IsCoherent w
    → IsCoherent (create_session true known request now w).1
unfolding create_session write_cache
create_session-IsCoherent false request now w coherent j = coherent j
create_session-IsCoherent true request now w coherent j =
    let row = new_session request now in
    rw
      (
        get-put w.rows w.next_id j row,
        get-put w.cache w.next_id j (to_hash (to_cache_snapshot w.next_id row)),
      )
      (elim (Bool-cases (w.next_id =? j)) [
        | inl same ↦ rw same (parse-to_hash j row)
        | inr other ↦ rw other (coherent j)
      ])
