-- ===== src/Documents/Vectors.antt =====
-- The rows of vectors before and after the two commits of kb_vectorize_consumer.py.
use interview_agent_py.Prelude.{
  ℕ, ◌+◌, ◌≡◌, inl, inr, refl, ap, ◌∙◌, List, [], ◌∷◌, ◌++◌, map, none, some, Bool, false, not,
  ◌=?◌, =?-refl, Bool-cases, Option-cases, Text, nat_eq, list_eq, option_eq, option_beq, filter,
  arith,
}
use interview_agent_py.Documents.{
  VectorRow, Document, KbVectorizePayload, KbWorld, rows_from, promoted, is_of_document,
  insert_pending, promote_vector_job, delete_by_document_id, delete_by_vector_job_id,
  sync_kb_aggregate,
}
use interview_agent_py.Documents.Vectorize.{promote_phase, empty_phase}
use interview_agent_py.Prelude.Dict.{get}

module _ {ℓ} {Embedding : Type ℓ} where
  -- No row is that of the job.
  abbrev pub IsFresh : Text → List (VectorRow Embedding) → Type 0
  IsFresh job_id [] = Unit
  IsFresh job_id (row ∷ rows) = (row.kb_vector_job_id =? some job_id) ≡ false × IsFresh job_id rows

  -- The rows that searches see of a document, and the others.
  abbrev pub rows_of : ℕ → List (VectorRow Embedding) → List (VectorRow Embedding)
  rows_of document_id rows = filter (is_of_document document_id) rows

  abbrev pub others : ℕ → List (VectorRow Embedding) → List (VectorRow Embedding)
  others document_id rows = filter (λ row. not (is_of_document document_id row)) rows

  abbrev pub stored_row : ℕ → ℕ → ℕ → Text × Embedding → VectorRow Embedding
  stored_row kb_id document_id index (content, embedding) = record {
    content = content;
    embedding = embedding;
    chunk_index = index;
    knowledge_base_id = kb_id;
    document_id = document_id;
    kb_vector_job_id = none;
  }

  unfoldable pub stored_from : ℕ → ℕ → ℕ → List (Text × Embedding) → List (VectorRow Embedding)
  stored_from kb_id document_id index [] = []
  stored_from kb_id document_id index (item ∷ items) =
      stored_row kb_id document_id index item ∷ stored_from kb_id document_id (index + 1) items

  pub filter-append :
      (q : VectorRow Embedding → Bool) (xs ys : List (VectorRow Embedding))
      → filter q (xs ++ ys) ≡ filter q xs ++ filter q ys
  unfolding filter
  filter-append q [] ys = refl
  filter-append q (x ∷ xs) ys = ground (arith, filter-append q xs ys)

  pub filter_idem :
      (q : VectorRow Embedding → Bool) (xs : List (VectorRow Embedding))
      → filter q (filter q xs) ≡ filter q xs
  unfolding filter
  filter_idem q [] = refl
  filter_idem q (x ∷ xs) = elim (Bool-cases (q x)) [
    | inl kept ↦ rw (kept, kept) (ap (λ l. x ∷ l) (filter_idem q xs))
    | inr dropped ↦ rw dropped (filter_idem q xs)
  ]

  pub filter-not :
      (q : VectorRow Embedding → Bool) (xs : List (VectorRow Embedding))
      → filter q (filter (λ x. not (q x)) xs) ≡ []
  unfolding filter
  filter-not q [] = refl
  filter-not q (x ∷ xs) = elim (Bool-cases (q x)) [
    | inl kept ↦ rw kept (filter-not q xs)
    | inr dropped ↦ rw (dropped, dropped) (filter-not q xs)
  ]

  append-nil : (xs : List (VectorRow Embedding)) → xs ++ [] ≡ xs
  append-nil [] = refl
  append-nil (x ∷ xs) = ap (λ l. x ∷ l) (append-nil xs)

  map-append :
      (f : VectorRow Embedding → VectorRow Embedding) (xs ys : List (VectorRow Embedding))
      → map f (xs ++ ys) ≡ map f xs ++ map f ys
  map-append f [] ys = refl
  map-append f (x ∷ xs) ys = ap (λ l. f x ∷ l) (map-append f xs ys)

  module _ (job_id : Text) (kb_id document_id : ℕ) where
    others-rows_from :
        (i index : ℕ) (items : List (Text × Embedding))
        → others i (rows_from job_id kb_id document_id index items)
          ≡ rows_from job_id kb_id document_id index items
    unfolding filter rows_from option_beq
    others-rows_from i index [] = refl
    others-rows_from i index (item ∷ items) = ground (arith, others-rows_from i (index + 1) items)

    map-promoted-rows_from :
        (index : ℕ) (items : List (Text × Embedding))
        → map (promoted kb_id job_id) (rows_from job_id kb_id document_id index items)
          ≡ stored_from kb_id document_id index items
    unfolding rows_from stored_from option_beq
    map-promoted-rows_from index [] = refl
    map-promoted-rows_from index (item ∷ items) = rw (=?-refl (some job_id)) (
        ap (λ l. stored_row kb_id document_id index item ∷ l)
          (map-promoted-rows_from (index + 1) items))

    map-promoted :
        (rows : List (VectorRow Embedding))
        → IsFresh job_id rows
        → map (promoted kb_id job_id) rows ≡ rows
    map-promoted [] h = refl
    map-promoted (row ∷ rows) h = rw h.0 (ap (λ l. row ∷ l) (map-promoted rows h.1))

    pub filter-IsFresh :
        (q : VectorRow Embedding → Bool) (rows : List (VectorRow Embedding))
        → IsFresh job_id rows
        → IsFresh job_id (filter q rows)
    unfolding filter
    filter-IsFresh q [] h = tt
    filter-IsFresh q (row ∷ rows) h = elim (Bool-cases (q row)) [
      | inl kept ↦ rw kept (h.0, filter-IsFresh q rows h.1)
      | inr dropped ↦ rw dropped (filter-IsFresh q rows h.1)
    ]

    filter-job :
        (rows : List (VectorRow Embedding))
        → IsFresh job_id rows
        → filter (λ row. not (row.kb_vector_job_id =? some job_id)) rows ≡ rows
    unfolding filter
    filter-job [] h = refl
    filter-job (row ∷ rows) h = rw h.0 (ap (λ l. row ∷ l) (filter-job rows h.1))

    filter-job-rows_from :
        (index : ℕ) (items : List (Text × Embedding))
        → filter
            (λ row. not (row.kb_vector_job_id =? some job_id))
            (rows_from job_id kb_id document_id index items)
          ≡ []
    unfolding filter rows_from option_beq
    filter-job-rows_from index [] = refl
    filter-job-rows_from index (item ∷ items) =
        rw (=?-refl (some job_id)) (filter-job-rows_from (index + 1) items)

    pub delete_by_vector_job_id-fresh :
        (w : KbWorld Embedding)
        → IsFresh job_id w.vectors
        → (delete_by_vector_job_id job_id w).vectors ≡ w.vectors
    unfolding delete_by_vector_job_id
    delete_by_vector_job_id-fresh w fresh = filter-job w.vectors fresh

    -- The pending rows of a job, and nothing else, go with it.
    pub delete_by_vector_job_id-insert_pending :
        (items : List (Text × Embedding)) (w : KbWorld Embedding)
        → IsFresh job_id w.vectors
        → (delete_by_vector_job_id job_id (insert_pending job_id kb_id items document_id w)).vectors
          ≡ w.vectors
    unfolding delete_by_vector_job_id insert_pending
    delete_by_vector_job_id-insert_pending items w fresh =
        filter-append (λ row. not (row.kb_vector_job_id =? some job_id)) w.vectors
          (rows_from job_id kb_id document_id 0 items)
        ∙ rw (filter-job w.vectors fresh, filter-job-rows_from 0 items) (append-nil w.vectors)

    -- The rows of a document are replaced, and the others stay.
    promote-delete :
        (items : List (Text × Embedding)) (rows : List (VectorRow Embedding))
        → IsFresh job_id rows
        → map
            (promoted kb_id job_id)
            (others document_id (rows ++ rows_from job_id kb_id document_id 0 items))
          ≡ others document_id rows ++ stored_from kb_id document_id 0 items
    promote-delete items rows fresh =
        rw
          (
            filter-append (λ row. not (is_of_document document_id row)) rows
                (rows_from job_id kb_id document_id 0 items),
            others-rows_from document_id 0 items,
            map-append (promoted kb_id job_id) (others document_id rows)
                (rows_from job_id kb_id document_id 0 items),
            map-promoted-rows_from 0 items,
            map-promoted (others document_id rows)
                (filter-IsFresh (λ row. not (is_of_document document_id row)) rows fresh),
          )
          refl

  sync-vectors :
      (kb_id : ℕ) (w : KbWorld Embedding) → (sync_kb_aggregate kb_id w).vectors ≡ w.vectors
  unfolding sync_kb_aggregate
  sync-vectors kb_id w = elim (Option-cases (get w.kbs kb_id)) [
    | inl missing ↦ rw (sync_kb_aggregate, missing) refl
    | inr (kb, at) ↦ rw (sync_kb_aggregate, at) refl
  ]

  pub promote_phase-insert_pending :
      (p : KbVectorizePayload) (job_id : Text) (count : ℕ) (items : List (Text × Embedding))
      (w : KbWorld Embedding) (doc : Document)
      → get w.docs p.document_id ≡ some doc
      → IsFresh job_id w.vectors
      → (promote_phase p job_id count
          (insert_pending job_id p.knowledge_base_id items p.document_id w)).vectors
        ≡ others p.document_id w.vectors ++ stored_from p.knowledge_base_id p.document_id 0 items
  unfolding promote_phase insert_pending promote_vector_job delete_by_document_id
  promote_phase-insert_pending p job_id count items w doc at fresh =
      rw (promote_phase, at, sync-vectors)
        (promote-delete job_id p.knowledge_base_id p.document_id items w.vectors fresh)

  pub empty_phase-vectors :
      (p : KbVectorizePayload) (job_id : Text) (w : KbWorld Embedding) (doc : Document)
      → get w.docs p.document_id ≡ some doc
      → (empty_phase p job_id w).vectors ≡ others p.document_id w.vectors
  unfolding empty_phase delete_by_document_id
  empty_phase-vectors p job_id w doc at = rw (empty_phase, at, sync-vectors) refl

  pub rows_of-stored_from :
      (kb_id document_id index : ℕ) (items : List (Text × Embedding))
      → rows_of document_id (stored_from kb_id document_id index items)
        ≡ stored_from kb_id document_id index items
  unfolding filter stored_from option_beq
  rows_of-stored_from kb_id document_id index [] = refl
  rows_of-stored_from kb_id document_id index (item ∷ items) = rw (=?-refl document_id) (
      ap (λ l. stored_row kb_id document_id index item ∷ l)
        (rows_of-stored_from kb_id document_id (index + 1) items))

  others-stored_from :
      (kb_id document_id index : ℕ) (items : List (Text × Embedding))
      → others document_id (stored_from kb_id document_id index items) ≡ []
  unfolding filter stored_from option_beq
  others-stored_from kb_id document_id index [] = refl
  others-stored_from kb_id document_id index (item ∷ items) =
      rw (=?-refl document_id) (others-stored_from kb_id document_id (index + 1) items)

  -- What searches see of the document, and of the others.
  pub rows_of-replaced :
      (kb_id document_id : ℕ) (items : List (Text × Embedding)) (rows : List (VectorRow Embedding))
      → (rows_of document_id (others document_id rows ++ stored_from kb_id document_id 0 items)
          ≡ stored_from kb_id document_id 0 items)
        × (others document_id (others document_id rows ++ stored_from kb_id document_id 0 items)
            ≡ others document_id rows)
  rows_of-replaced kb_id document_id items rows = (
    filter-append (is_of_document document_id) (others document_id rows)
          (stored_from kb_id document_id 0 items)
        ∙ rw (filter-not (is_of_document document_id) rows)
            (rows_of-stored_from kb_id document_id 0 items),
    filter-append (λ row. not (is_of_document document_id row)) (others document_id rows)
          (stored_from kb_id document_id 0 items)
        ∙ rw
            (
              filter_idem (λ row. not (is_of_document document_id row)) rows,
              others-stored_from kb_id document_id 0 items,
            )
            (append-nil (others document_id rows)),
  )
