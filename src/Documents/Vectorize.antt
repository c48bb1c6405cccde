-- ===== src/Documents/Vectorize.antt =====
-- infrastructure/tasks/kb_vectorize_consumer.py: a document is split, embedded, and its vectors are
-- stored in two commits. What the other transactions do between the two is an argument, and so are
-- the failures of the model and of the database.
use interview_agent_py.Prelude.{
  ℕ, zero, suc, ◌+◌, ◌==◌, ◌⊎◌, inl, inr, List, [], ◌∷◌, ◌++◌, Option, none, some, Bool, ltb,
  if◌then◌else◌, ◌=?◌, Text, nat_eq, length, take, drop, is_empty,
}
use interview_agent_py.Prelude.Dict.{get}
use interview_agent_py.Tasks.{
  AsyncTaskStatus, processing, completed, failed, task_eq, max_retry_count, truncate_error,
}
use interview_agent_py.Documents.{
  Document, KbVectorizePayload, KbWorld, sync_kb_aggregate, write_document, insert_pending,
  promote_vector_job, delete_by_document_id, delete_by_vector_job_id,
}

-- The outside of one run: an `inl` and a `some` are the texts of exceptions.
pub record Run {ℓ} (Embedding : Type ℓ) : Type ℓ where
  pub job_id : Text
  pub split : Text → List Text
  pub aembed_documents : List Text → Text ⊎ List Embedding
  pub length_mismatch : Text
  pub insert_error : Option Text
  pub promote_error : Option Text
  pub cleanup_works : Bool
  pub meanwhile : KbWorld Embedding → KbWorld Embedding

abbrev pub embedding_batch_size : ℕ
embedding_batch_size = 10

abbrev pub with_vector_status : AsyncTaskStatus → Option Text → Document → Document
with_vector_status status error doc = record doc { vector_status = status; vector_error = error }

abbrev pub vectorized_as : Text → ℕ → Document → Document
vectorized_as job_id chunk_count doc = record doc {
  vector_job_id = some job_id;
  chunk_count = chunk_count;
}

unfoldable pub zip {ℓ} : {Embedding : Type ℓ} → List Text → List Embedding → List (Text × Embedding)
zip [] vectors = []
zip (chunk ∷ chunks) [] = []
zip (chunk ∷ chunks) (vector ∷ vectors) = (chunk, vector) ∷ zip chunks vectors

module _ {ℓ} {Embedding : Type ℓ} where
  -- `update_vector_status`, and the knowledge base of the task.
  unfoldable pub set_status :
      KbVectorizePayload → AsyncTaskStatus → Option Text → KbWorld Embedding → KbWorld Embedding
  unfolding sync_kb_aggregate
  set_status p status error w = elim (get w.docs p.document_id) [
    | none ↦ w
    | some doc ↦
        sync_kb_aggregate p.knowledge_base_id
          (write_document p.document_id (with_vector_status status error doc) w)
  ]

  unfoldable pub mark_processing : KbVectorizePayload → KbWorld Embedding → KbWorld Embedding
  unfolding set_status
  mark_processing p w = elim (get w.docs p.document_id) [
    | none ↦ w
    | some doc ↦ if doc.vector_status =? completed then w else set_status p processing none w
  ]

  abbrev pub mark_completed : KbVectorizePayload → KbWorld Embedding → KbWorld Embedding
  mark_completed p w = set_status p completed none w

  abbrev pub mark_failed : KbVectorizePayload → Text → KbWorld Embedding → KbWorld Embedding
  mark_failed p error w = set_status p failed (some error) w

  abbrev pub retry_message : KbVectorizePayload → ℕ → KbWorld Embedding → KbWorld Embedding
  retry_message p retry_count w = record w { tasks = w.tasks ++ (p, retry_count) ∷ [] }

  -- `mark_vectorized`, and the knowledge base of the task.
  abbrev pub mark_vectorized :
      KbVectorizePayload → Document → Text → ℕ → KbWorld Embedding → KbWorld Embedding
  mark_vectorized p doc job_id chunk_count w =
      sync_kb_aggregate p.knowledge_base_id
        (write_document p.document_id (vectorized_as job_id chunk_count doc) w)

  -- The second commit.
  unfoldable pub promote_phase :
      KbVectorizePayload → Text → ℕ → KbWorld Embedding → KbWorld Embedding
  unfolding delete_by_document_id delete_by_vector_job_id promote_vector_job sync_kb_aggregate
  promote_phase p job_id count w = elim (get w.docs p.document_id) [
    | none ↦ delete_by_vector_job_id job_id w
    | some doc ↦
        mark_vectorized p doc job_id count
          (promote_vector_job p.knowledge_base_id job_id (delete_by_document_id p.document_id w))
  ]

  -- A document without text.
  unfoldable pub empty_phase : KbVectorizePayload → Text → KbWorld Embedding → KbWorld Embedding
  unfolding delete_by_document_id sync_kb_aggregate
  empty_phase p job_id w = elim (get w.docs p.document_id) [
    | none ↦ w
    | some doc ↦ mark_vectorized p doc job_id 0 (delete_by_document_id p.document_id w)
  ]

  module _ (run : Run Embedding) where
    -- `_embed_in_batches`, on fuel: a batch takes at least one chunk.
    unfoldable pub embed_in_batches : ℕ → List Text → Text ⊎ List Embedding
    embed_in_batches fuel [] = inr []
    embed_in_batches zero (chunk ∷ chunks) = inr []
    embed_in_batches (suc fuel) (chunk ∷ chunks) =
        let rest = embed_in_batches fuel (drop embedding_batch_size (chunk ∷ chunks)) in
        elim (run.aembed_documents (take embedding_batch_size (chunk ∷ chunks))) [
          | inl error ↦ inl error
          | inr vectors ↦ elim rest [ inl error ↦ inl error | inr others ↦ inr (vectors ++ others) ]
        ]

    abbrev pub cleanup_pending : KbWorld Embedding → KbWorld Embedding
    cleanup_pending w = if run.cleanup_works then delete_by_vector_job_id run.job_id w else w

    -- The exception, if one is raised, and the world. A failed commit is rolled back.
    unfoldable pub two_phases :
        KbVectorizePayload
        → List (Text × Embedding)
        → KbWorld Embedding
        → Option Text × KbWorld Embedding
    unfolding delete_by_vector_job_id insert_pending promote_phase
    two_phases p items w =
        let inserted =
          run.meanwhile (insert_pending run.job_id p.knowledge_base_id items p.document_id w) in
        elim run.insert_error [
          | some error ↦ (some error, cleanup_pending w)
          | none ↦ elim run.promote_error [
            | some error ↦ (some error, cleanup_pending inserted)
            | none ↦ (none, promote_phase p run.job_id (length items) inserted)
          ]
        ]

    unfoldable pub vectorize :
        KbVectorizePayload → Text → KbWorld Embedding → Option Text × KbWorld Embedding
    unfolding embed_in_batches two_phases empty_phase zip
    vectorize p content_text w =
        let chunks = run.split content_text in
        if is_empty chunks
        then (none, empty_phase p run.job_id (run.meanwhile w))
        else elim (embed_in_batches (length chunks) chunks) [
          | inl error ↦ (some error, w)
          | inr vectors ↦
              if length chunks == length vectors
              then two_phases p (zip chunks vectors) w
              else (some run.length_mismatch, w)
        ]

    unfoldable pub process_document :
        KbVectorizePayload → KbWorld Embedding → Option Text × KbWorld Embedding
    unfolding vectorize
    process_document p w = elim (get w.docs p.document_id) [
      | none ↦ (none, w)
      | some doc ↦
          if doc.vector_status =? completed then (none, w) else vectorize p doc.content_text w
    ]

    -- After the run, as in base_consumer.py.
    unfoldable pub conclude :
        KbVectorizePayload → ℕ → Option Text × KbWorld Embedding → KbWorld Embedding
    unfolding set_status
    conclude p retry_count (none, w) = mark_completed p w
    conclude p retry_count (some error, w) =
        if ltb retry_count max_retry_count
        then retry_message p (retry_count + 1) w
        else mark_failed p (truncate_error error) w

    unfoldable pub process_message : KbVectorizePayload → ℕ → KbWorld Embedding → KbWorld Embedding
    unfolding mark_processing process_document conclude
    process_message p retry_count w =
        conclude p retry_count (process_document p (mark_processing p w))
