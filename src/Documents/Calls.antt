-- ===== src/Documents/Calls.antt =====
-- The calls of service.py and the steps of kb_vectorize_consumer.py that bring a knowledge base up to
-- date, with the stream taking every task.
use interview_agent_py.Prelude.{
  ℕ, ◌≡◌, inl, inr, refl, ap, sym, subst, List, [], ◌∷◌, Option, none, some, not, is_empty, filter,
  list_eq, ◌=?◌, Bool-cases, Option-cases, Text, nat_eq, IsDistinct,
}
use interview_agent_py.Prelude.Dict.{Dict, keys, get, remove, get-put, get-remove}
use interview_agent_py.Errors.{Result, ok, raise}
use interview_agent_py.Tasks.{AsyncTaskStatus, processing, completed, failed, task_eq}
use interview_agent_py.Documents.{
  KnowledgeBase, Document, KbVectorizePayload, KbWorld, without_kb, aggregated, sync_kb_aggregate,
  write_document, delete_by_vector_job_id, delete_by_document_id, promote_vector_job,
  delete_by_knowledge_base_id, list_by_kb,
}
use interview_agent_py.Documents.Service.{
  Upload, Deps, add_document, delete_document, delete, update_category, new_document, delete_files,
  delete_file, after_checks, save_document, check_addition, with_kb, normalize_category,
  enqueue_vectorize,
}
use interview_agent_py.Documents.Vectorize.{
  mark_processing, mark_completed, mark_failed, set_status, promote_phase, empty_phase,
  with_vector_status, vectorized_as,
}
use interview_agent_py.Documents.Aggregate.{
  Shows, IsIn, IsAggregate, sync-IsAggregate, put-SameElsewhere, remove-SameElsewhere,
  without_kb-SameElsewhere, Shows-SameElsewhere,
}

pub data DocumentCall : Type 0 where
  document_added : ℕ → Upload → DocumentCall
  document_deleted : ℕ → ℕ → DocumentCall
  kb_deleted : ℕ → DocumentCall
  recategorized : ℕ → Option Text → DocumentCall
  started : KbVectorizePayload → DocumentCall
  stored : KbVectorizePayload → Text → ℕ → DocumentCall
  emptied : KbVectorizePayload → Text → DocumentCall
  finished : KbVectorizePayload → DocumentCall
  given_up : KbVectorizePayload → Text → DocumentCall

-- The document of a task is in the knowledge base that the task names.
abbrev pub Belongs : DocumentCall → Dict ℕ Document → Type 0
Belongs (started p) docs = IsIn p.knowledge_base_id (get docs p.document_id)
Belongs (stored p job_id count) docs = IsIn p.knowledge_base_id (get docs p.document_id)
Belongs (emptied p job_id) docs = IsIn p.knowledge_base_id (get docs p.document_id)
Belongs (finished p) docs = IsIn p.knowledge_base_id (get docs p.document_id)
Belongs (given_up p error) docs = IsIn p.knowledge_base_id (get docs p.document_id)
Belongs _ docs = Unit

module _ {ℓ} {Embedding : Type ℓ} (deps : Deps) where
  unfoldable pub perform : DocumentCall → KbWorld Embedding → KbWorld Embedding
  unfolding add_document delete_document delete update_category mark_processing set_status
      promote_phase empty_phase
  perform (document_added kb_id f) w = (add_document deps none kb_id f w).1
  perform (document_deleted kb_id document_id) w = (delete_document deps kb_id document_id w).1
  perform (kb_deleted kb_id) w = (delete deps kb_id w).1
  perform (recategorized kb_id category) w = (update_category kb_id category w).1
  perform (started p) w = mark_processing p w
  perform (stored p job_id count) w = promote_phase p job_id count w
  perform (emptied p job_id) w = empty_phase p job_id w
  perform (finished p) w = mark_completed p w
  perform (given_up p error) w = mark_failed p error w

module _ {ℓ} {Embedding : Type ℓ} where
  -- What the deletions do after the files.
  abbrev without_row : ℕ → KbWorld Embedding → KbWorld Embedding
  without_row document_id w =
      let cleared = delete_by_document_id document_id w in
      record cleared { docs = remove cleared.docs document_id }

  abbrev drop_kb : ℕ → KbWorld Embedding → KbWorld Embedding
  drop_kb kb_id w =
      let cleared = delete_by_knowledge_base_id kb_id w in
      record cleared { kbs = remove cleared.kbs kb_id; docs = without_kb kb_id cleared.docs }

  abbrev drop_row : ℕ → ℕ → KbWorld Embedding → KbWorld Embedding
  drop_row kb_id document_id w = sync_kb_aggregate kb_id (without_row document_id w)

  -- A document that is written for its knowledge base, which is then brought up to date.
  write-IsAggregate :
      (p : KbVectorizePayload) (doc : Document) (w : KbWorld Embedding)
      → doc.knowledge_base_id ≡ p.knowledge_base_id
      → IsIn p.knowledge_base_id (get w.docs p.document_id)
      → IsAggregate w
      → IsAggregate (sync_kb_aggregate p.knowledge_base_id (write_document p.document_id doc w))
  write-IsAggregate p doc w here was shows =
      sync-IsAggregate p.knowledge_base_id w.docs (write_document p.document_id doc w)
        (put-SameElsewhere p.knowledge_base_id p.document_id doc w.docs here was) shows

  set_status-IsAggregate :
      (p : KbVectorizePayload) (status : AsyncTaskStatus) (error : Option Text)
      (w : KbWorld Embedding)
      → IsIn p.knowledge_base_id (get w.docs p.document_id)
      → IsAggregate w
      → IsAggregate (set_status p status error w)
  unfolding set_status
  set_status-IsAggregate p status error w was shows =
      elim (Option-cases (get w.docs p.document_id)) [
        | inl missing ↦ rw (set_status, missing) shows
        | inr (doc, at) ↦
            rw (set_status, at)
              (write-IsAggregate p (with_vector_status status error doc) w
                (subst (IsIn p.knowledge_base_id) at was) was shows)
      ]

  mark_processing-IsAggregate :
      (p : KbVectorizePayload) (w : KbWorld Embedding)
      → IsIn p.knowledge_base_id (get w.docs p.document_id)
      → IsAggregate w
      → IsAggregate (mark_processing p w)
  unfolding mark_processing
  mark_processing-IsAggregate p w was shows = elim (Option-cases (get w.docs p.document_id)) [
    | inl missing ↦ rw (mark_processing, missing) shows
    | inr (doc, at) ↦ elim (Bool-cases (doc.vector_status =? completed)) [
      | inl done ↦ rw (mark_processing, at, done) shows
      | inr waiting ↦
          rw (mark_processing, at, waiting) (set_status-IsAggregate p processing none w was shows)
    ]
  ]

  promote_phase-IsAggregate :
      (p : KbVectorizePayload) (job_id : Text) (count : ℕ) (w : KbWorld Embedding)
      → IsIn p.knowledge_base_id (get w.docs p.document_id)
      → IsAggregate w
      → IsAggregate (promote_phase p job_id count w)
  unfolding promote_phase delete_by_vector_job_id delete_by_document_id promote_vector_job
  promote_phase-IsAggregate p job_id count w was shows =
      elim (Option-cases (get w.docs p.document_id)) [
        | inl missing ↦ rw (promote_phase, missing) shows
        | inr (doc, at) ↦
            rw (promote_phase, at)
              (write-IsAggregate p (vectorized_as job_id count doc)
                (promote_vector_job p.knowledge_base_id job_id
                  (delete_by_document_id p.document_id w))
                (subst (IsIn p.knowledge_base_id) at was) was shows)
      ]

  empty_phase-IsAggregate :
      (p : KbVectorizePayload) (job_id : Text) (w : KbWorld Embedding)
      → IsIn p.knowledge_base_id (get w.docs p.document_id)
      → IsAggregate w
      → IsAggregate (empty_phase p job_id w)
  unfolding empty_phase delete_by_document_id
  empty_phase-IsAggregate p job_id w was shows = elim (Option-cases (get w.docs p.document_id)) [
    | inl missing ↦ rw (empty_phase, missing) shows
    | inr (doc, at) ↦
        rw (empty_phase, at)
          (write-IsAggregate p (vectorized_as job_id 0 doc) (delete_by_document_id p.document_id w)
            (subst (IsIn p.knowledge_base_id) at was) was shows)
  ]

  after_checks-IsAggregate :
      {A : Type 0} (checked : Result (Unit {0})) (a : A) (w' w : KbWorld Embedding)
      → IsAggregate w'
      → IsAggregate w
      → IsAggregate (after_checks checked (a, w') w).1
  after_checks-IsAggregate (ok _) a w' w shows' shows = shows'
  after_checks-IsAggregate (raise e) a w' w shows' shows = shows

  -- Deleting files changes the stored files only.
  delete_file-only :
      (P : KbWorld Embedding → Type 0) (deps : Deps) (key : Text) (w : KbWorld Embedding)
      → ((files : List Text) → P (record w { files = files }))
      → P (delete_file deps key w)
  delete_file-only P deps key w h = elim (Bool-cases (is_empty key)) [
    | inl nothing ↦ rw nothing (h w.files)
    | inr something ↦ elim (Bool-cases (deps.deletes_file key)) [
      | inl works ↦ rw (something, works) (h (filter (λ k. not (k =? key)) w.files))
      | inr fails ↦ rw (something, fails) (h w.files)
    ]
  ]

  delete_files-only :
      (P : KbWorld Embedding → Type 0) (deps : Deps) (docs : List (ℕ × Document))
      (w : KbWorld Embedding)
      → ((files : List Text) → P (record w { files = files }))
      → P (delete_files deps docs w)
  unfolding delete_files
  delete_files-only P deps [] w h = h w.files
  delete_files-only P deps ((i, doc) ∷ docs) w h =
      delete_file-only (λ w'. P (delete_files deps docs w')) deps doc.storage_key w
        (λ files. delete_files-only P deps docs (record w { files = files }) h)

  add_document-IsAggregate :
      (deps : Deps) (kb_id : ℕ) (f : Upload) (w : KbWorld Embedding)
      → get w.docs w.next_document_id ≡ none
      → IsAggregate w
      → IsAggregate (add_document deps none kb_id f w).1
  unfolding add_document enqueue_vectorize
  add_document-IsAggregate deps kb_id f w fresh shows = elim (Option-cases (get w.kbs kb_id)) [
    | inl missing ↦ rw (add_document, with_kb, missing) shows
    | inr (kb, at) ↦
        rw (add_document, with_kb, at)
          (after_checks-IsAggregate (check_addition deps kb_id f w) w.next_document_id
            (enqueue_vectorize none kb_id w.next_document_id
              (sync_kb_aggregate kb_id (save_document deps kb_id f w)))
            w
            (sync-IsAggregate kb_id w.docs (save_document deps kb_id f w)
              (put-SameElsewhere kb_id w.next_document_id (new_document deps kb_id f) w.docs refl
                (subst (IsIn kb_id) (sym fresh) tt))
              shows)
            shows)
  ]

  drop_row-IsAggregate :
      (kb_id document_id : ℕ) (doc : Document) (w : KbWorld Embedding) (files : List Text)
      → IsDistinct (keys w.docs)
      → get w.docs document_id ≡ some doc
      → doc.knowledge_base_id ≡ kb_id
      → IsAggregate w
      → IsAggregate (drop_row kb_id document_id (record w { files = files }))
  unfolding delete_by_document_id
  drop_row-IsAggregate kb_id document_id doc w files distinct there here shows =
      sync-IsAggregate kb_id w.docs (without_row document_id (record w { files = files }))
        (remove-SameElsewhere kb_id document_id w.docs distinct
          (subst (IsIn kb_id) (sym there) here))
        shows

  delete_document-IsAggregate :
      (deps : Deps) (kb_id document_id : ℕ) (w : KbWorld Embedding)
      → IsDistinct (keys w.docs)
      → IsAggregate w
      → IsAggregate (delete_document deps kb_id document_id w).1
  unfolding delete_document
  delete_document-IsAggregate deps kb_id document_id w distinct shows =
      elim (Option-cases (get w.kbs kb_id)) [
        | inl missing ↦ rw (delete_document, with_kb, missing) shows
        | inr (kb, at) ↦ elim (Option-cases (get w.docs document_id)) [
          | inl absent ↦ rw (delete_document, with_kb, at, absent) shows
          | inr (doc, there) ↦ elim (Bool-cases (doc.knowledge_base_id =? kb_id)) [
            | inr elsewhere ↦ rw (delete_document, with_kb, at, there, elsewhere) shows
            | inl here ↦
                rw (delete_document, with_kb, at, there, here)
                  (delete_file-only (λ w'. IsAggregate (drop_row kb_id document_id w')) deps
                    doc.storage_key w
                    (λ files.
                      drop_row-IsAggregate kb_id document_id doc w files distinct there
                        ((nat_eq.beq_iff doc.knowledge_base_id kb_id).0 here) shows))
          ]
        ]
      ]

  delete-IsAggregate :
      (deps : Deps) (kb_id : ℕ) (w : KbWorld Embedding)
      → IsAggregate w
      → IsAggregate (delete deps kb_id w).1
  unfolding delete delete_by_knowledge_base_id
  delete-IsAggregate deps kb_id w shows = elim (Option-cases (get w.kbs kb_id)) [
    | inl missing ↦ rw (delete, with_kb, missing) shows
    | inr (kb, at) ↦
        rw (delete, with_kb, at)
          (delete_files-only (λ w'. IsAggregate (drop_kb kb_id w')) deps (list_by_kb kb_id w.docs) w
            (λ files i. elim (Bool-cases (kb_id =? i)) [
              | inl here ↦ rw (get-remove w.kbs kb_id i, here) tt
              | inr other ↦
                  rw (get-remove w.kbs kb_id i, other)
                    (Shows-SameElsewhere kb_id w.docs (without_kb kb_id w.docs)
                      (without_kb-SameElsewhere kb_id w.docs) i other (get w.kbs i) (shows i))
            ]))
  ]

  update_category-IsAggregate :
      (kb_id : ℕ) (category : Option Text) (w : KbWorld Embedding)
      → IsAggregate w
      → IsAggregate (update_category kb_id category w).1
  unfolding update_category aggregated
  update_category-IsAggregate kb_id category w shows = elim (Option-cases (get w.kbs kb_id)) [
    | inl missing ↦ rw (update_category, with_kb, missing) shows
    | inr (kb, at) ↦
        let renamed : KnowledgeBase = record kb { category = normalize_category category } in
        rw (update_category, with_kb, at)
          (λ i. elim (Bool-cases (kb_id =? i)) [
            | inr other ↦ rw (get-put w.kbs kb_id i renamed, other) (shows i)
            | inl here ↦
                rw (get-put w.kbs kb_id i renamed, here)
                  (subst (λ k. renamed ≡ aggregated w.docs k renamed)
                    ((nat_eq.beq_iff kb_id i).0 here)
                    (ap {A = KnowledgeBase} {B = KnowledgeBase}
                      (λ k. record k { category = normalize_category category })
                      (subst (Shows w.docs kb_id) at (shows kb_id))))
          ])
  ]

  -- If every knowledge base shows its documents, so it does after the call: the keys of documents
  -- are distinct, the next one is not in use, and a task names the knowledge base of its document.
  pub perform-IsAggregate :
      (deps : Deps) (call : DocumentCall) (w : KbWorld Embedding)
      → IsDistinct (keys w.docs)
      → get w.docs w.next_document_id ≡ none
      → Belongs call w.docs
      → IsAggregate w
      → IsAggregate (perform deps call w)
  unfolding perform
  perform-IsAggregate deps (document_added kb_id f) w distinct fresh belongs shows =
      add_document-IsAggregate deps kb_id f w fresh shows
  perform-IsAggregate deps (document_deleted kb_id i) w distinct fresh belongs shows =
      delete_document-IsAggregate deps kb_id i w distinct shows
  perform-IsAggregate deps (kb_deleted kb_id) w distinct fresh belongs shows =
      delete-IsAggregate deps kb_id w shows
  perform-IsAggregate deps (recategorized kb_id category) w distinct fresh belongs shows =
      update_category-IsAggregate kb_id category w shows
  perform-IsAggregate deps (started p) w distinct fresh belongs shows =
      mark_processing-IsAggregate p w belongs shows
  perform-IsAggregate deps (stored p job_id count) w distinct fresh belongs shows =
      promote_phase-IsAggregate p job_id count w belongs shows
  perform-IsAggregate deps (emptied p job_id) w distinct fresh belongs shows =
      empty_phase-IsAggregate p job_id w belongs shows
  perform-IsAggregate deps (finished p) w distinct fresh belongs shows =
      set_status-IsAggregate p completed none w belongs shows
  perform-IsAggregate deps (given_up p error) w distinct fresh belongs shows =
      set_status-IsAggregate p failed (some error) w belongs shows
