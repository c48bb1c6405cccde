-- ===== src/Documents/Runs.antt =====
-- `_process_document` of kb_vectorize_consumer.py as a whole. The model of embeddings gives one vector
-- for each text, as its interface documents.
use interview_agent_py.Prelude.{
  ℕ, zero, suc, ◌+◌, ◌≤◌, ◌≡◌, ◌==◌, ◌⊎◌, inl, inr, refl, ap, sym, List, [], ◌∷◌, ◌++◌, map, Option,
  none, some, true, false, ◌=?◌, Bool-cases, Option-cases, Text, nat_eq, list_eq, option_eq, not,
  length, length-append, length-take, length-drop, take, drop, is_empty, arith, ==_iff,
}
use interview_agent_py.Tasks.{completed, task_eq}
use interview_agent_py.Documents.{
  VectorRow, Document, KbVectorizePayload, KbWorld, insert_pending, is_of_document,
}
use interview_agent_py.Documents.Vectorize.{
  Run, zip, embedding_batch_size, embed_in_batches, two_phases, vectorize, process_document,
}
use interview_agent_py.Documents.Vectors.{
  IsFresh, rows_of, others, stored_from, promote_phase-insert_pending, rows_of-replaced,
  delete_by_vector_job_id-insert_pending, delete_by_vector_job_id-fresh, empty_phase-vectors,
  filter-not, filter_idem,
}
use interview_agent_py.Prelude.Dict.{get}

is_empty-nil : (chunks : List Text) → is_empty chunks ≡ true → chunks ≡ []
is_empty-nil [] h = refl
is_empty-nil (chunk ∷ chunks) h = absurd (ground arith)

sum_cases {ℓ κ} :
    {A : Type ℓ} {B : Type κ} (o : A ⊎ B) → ((a : A) × (o ≡ inl a)) ⊎ ((b : B) × (o ≡ inr b))
sum_cases (inl a) = inl (a, refl)
sum_cases (inr b) = inr (b, refl)

module _ {ℓ} {Embedding : Type ℓ} where
  abbrev pub contents : List (VectorRow Embedding) → List Text
  contents rows = map (λ row. row.content) rows

  contents-stored_from :
      (kb_id document_id index : ℕ) (chunks : List Text) (vectors : List Embedding)
      → length chunks ≡ length vectors
      → contents (stored_from kb_id document_id index (zip chunks vectors)) ≡ chunks
  unfolding stored_from zip
  contents-stored_from kb_id document_id index [] vectors h = refl
  contents-stored_from kb_id document_id index (chunk ∷ chunks) [] h = absurd (omega arith)
  contents-stored_from kb_id document_id index (chunk ∷ chunks) (vector ∷ vectors) h =
      ap (λ l. chunk ∷ l)
        (contents-stored_from kb_id document_id (index + 1) chunks vectors (omega arith))

  -- One vector for each text, whatever the batches.
  abbrev pub EmbedsAll : Run Embedding → Type ℓ
  EmbedsAll run =
      (texts : List Text)
      → (vectors : List Embedding) × ((run.aembed_documents texts ≡ inr vectors)
          × (length vectors ≡ length texts))

  pub embed_in_batches-length :
      (run : Run Embedding)
      → EmbedsAll run
      → (fuel : ℕ) (chunks : List Text) → length chunks ≤ fuel
      → (vectors : List Embedding) × ((embed_in_batches run fuel chunks ≡ inr vectors)
          × (length chunks ≡ length vectors))
  unfolding embed_in_batches
  embed_in_batches-length run all fuel [] h = ([], (refl, refl))
  embed_in_batches-length run all zero (chunk ∷ chunks) h = absurd (omega arith)
  embed_in_batches-length run all (suc fuel) (chunk ∷ chunks) h =
      let first = all (take embedding_batch_size (chunk ∷ chunks)) in
      let rest =
        embed_in_batches-length run all fuel (drop embedding_batch_size (chunk ∷ chunks))
          (omega (arith, length-drop embedding_batch_size (chunk ∷ chunks))) in
      (
        first.0 ++ rest.0,
        (
          rw (embed_in_batches, first.1.0, rest.1.0) refl,
          omega (
            arith,
            length-append first.0 rest.0,
            first.1.1,
            rest.1.1,
            length-take embedding_batch_size (chunk ∷ chunks),
            length-drop embedding_batch_size (chunk ∷ chunks),
          ),
        ),
      )

  -- Nothing was raised, the document's chunks are what searches see of it, in their order, and the
  -- other rows are those from before.
  abbrev pub IsStored :
      ℕ → List Text → List (VectorRow Embedding) → Option Text × KbWorld Embedding → Type ℓ
  IsStored document_id chunks before (error, after) =
      (error ≡ none)
      × ((contents (rows_of document_id after.vectors) ≡ chunks)
          × (others document_id after.vectors ≡ others document_id before))

  -- The rows from before, if something was raised.
  abbrev pub IsKept : List (VectorRow Embedding) → Option Text × KbWorld Embedding → Type ℓ
  IsKept before (none, after) = Unit
  IsKept before (some error, after) = after.vectors ≡ before

  module _ (run : Run Embedding) (p : KbVectorizePayload) (w : KbWorld Embedding)
      (quiet : (w : KbWorld Embedding) → run.meanwhile w ≡ w)
      (fresh : IsFresh run.job_id w.vectors) where
    two_phases-IsStored :
        (doc : Document) (chunks : List Text) (vectors : List Embedding)
        → get w.docs p.document_id ≡ some doc
        → length chunks ≡ length vectors
        → run.insert_error ≡ none
        → run.promote_error ≡ none
        → IsStored p.document_id chunks w.vectors (two_phases run p (zip chunks vectors) w)
    unfolding two_phases
    two_phases-IsStored doc chunks vectors at same inserts promotes =
        let items = zip chunks vectors in
        let replaced = rows_of-replaced p.knowledge_base_id p.document_id items w.vectors in
        rw
          (
            inserts,
            promotes,
            quiet (insert_pending run.job_id p.knowledge_base_id items p.document_id w),
            promote_phase-insert_pending p run.job_id (length items) items w doc at fresh,
            replaced.0,
            replaced.1,
            contents-stored_from p.knowledge_base_id p.document_id 0 chunks vectors same,
          )
          (refl, (refl, refl))

    -- If the model embeds every text and the database fails in neither commit, a run on a document
    -- that is there and not completed raises nothing and leaves the document's chunks.
    pub process_document-IsStored :
        (doc : Document)
        → EmbedsAll run
        → run.insert_error ≡ none
        → run.promote_error ≡ none
        → get w.docs p.document_id ≡ some doc
        → (doc.vector_status =? completed) ≡ false
        → IsStored p.document_id (run.split doc.content_text) w.vectors (process_document run p w)
    unfolding process_document vectorize
    process_document-IsStored doc all inserts promotes at waiting =
        elim (Bool-cases (is_empty (run.split doc.content_text))) [
          | inl nothing ↦
              rw
                (
                  process_document,
                  at,
                  waiting,
                  vectorize,
                  nothing,
                  quiet w,
                  empty_phase-vectors p run.job_id w doc at,
                  filter-not (is_of_document p.document_id) w.vectors,
                  filter_idem (λ row. not (is_of_document p.document_id row)) w.vectors,
                )
                (refl, (sym (is_empty-nil (run.split doc.content_text) nothing), refl))
          | inr something ↦
              let chunks = run.split doc.content_text in
              let embedded = embed_in_batches-length run all (length chunks) chunks (omega arith) in
              rw
                (
                  process_document,
                  at,
                  waiting,
                  vectorize,
                  something,
                  embedded.1.0,
                  (==_iff (length chunks) (length embedded.0)).1 embedded.1.1,
                )
                (two_phases-IsStored doc chunks embedded.0 at embedded.1.1 inserts promotes)
        ]

    two_phases-IsKept :
        (items : List (Text × Embedding))
        → run.cleanup_works ≡ true
        → IsKept w.vectors (two_phases run p items w)
    unfolding two_phases
    two_phases-IsKept items cleans = elim (Option-cases run.insert_error) [
      | inr (error, inserts) ↦
          rw (two_phases, inserts, cleans)
            (delete_by_vector_job_id-fresh run.job_id p.knowledge_base_id p.document_id w fresh)
      | inl inserts ↦ elim (Option-cases run.promote_error) [
        | inr (error, promotes) ↦
            rw
              (
                two_phases,
                inserts,
                promotes,
                cleans,
                quiet (insert_pending run.job_id p.knowledge_base_id items p.document_id w),
              )
              (delete_by_vector_job_id-insert_pending run.job_id p.knowledge_base_id p.document_id
                items w fresh)
        | inl promotes ↦ rw (two_phases, inserts, promotes) tt
      ]
    ]

    vectorize-IsKept :
        (content_text : Text)
        → run.cleanup_works ≡ true
        → IsKept w.vectors (vectorize run p content_text w)
    unfolding vectorize
    vectorize-IsKept content_text cleans = elim (Bool-cases (is_empty (run.split content_text))) [
      | inl nothing ↦ rw (vectorize, nothing) tt
      | inr something ↦
          elim (sum_cases
            (embed_in_batches run (length (run.split content_text)) (run.split content_text))) [
              | inl (error, raised) ↦ rw (vectorize, something, raised) refl
              | inr (vectors, embedded) ↦
                  elim (Bool-cases (length (run.split content_text) == length vectors)) [
                    | inl same ↦
                        rw (vectorize, something, embedded, same)
                          (two_phases-IsKept (zip (run.split content_text) vectors) cleans)
                    | inr other ↦ rw (vectorize, something, embedded, other) refl
                  ]
            ]
    ]

    pub process_document-IsKept :
        run.cleanup_works ≡ true → IsKept w.vectors (process_document run p w)
    unfolding process_document vectorize
    process_document-IsKept cleans = elim (Option-cases (get w.docs p.document_id)) [
      | inl missing ↦ rw (process_document, missing) tt
      | inr (doc, at) ↦ elim (Bool-cases (doc.vector_status =? completed)) [
        | inl done ↦ rw (process_document, at, done) tt
        | inr waiting ↦
            rw (process_document, at, waiting) (vectorize-IsKept doc.content_text cleans)
      ]
    ]
