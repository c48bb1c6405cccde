-- ===== src/Documents.antt =====
-- domain/services/kb_document.py, infrastructure/db/models/knowledge_base.py, the repositories of
-- knowledge bases and their documents, and infrastructure/vector/repository.py: the tables of
-- knowledge bases, documents and vectors. The database is taken to work. A document's key grows with
-- the time of its upload, so that the order of the table is that of `list_by_kb`.
pub mod Service
pub mod Vectorize
mod Vectors
mod Runs
mod Aggregate
mod Calls
mod Renewed
mod Examples
use interview_agent_py.Prelude.{
  ℕ, ◌+◌, List, [], ◌∷◌, ◌++◌, map, Option, none, some, Bool, false, not, ◌&&◌, ◌||◌, if◌then◌else◌,
  ◌=?◌, Text, codes, nat_eq, list_eq, option_eq, contains, filter,
}
use interview_agent_py.Prelude.Dict.{Dict, get, put}
use interview_agent_py.Tasks.{AsyncTaskStatus, pending, processing, completed, failed, task_eq}

-- The columns that the documents have to do with; Generation has the others.
pub record KnowledgeBase : Type 0 where
  pub name : Text
  pub category : Option Text
  pub chunk_count : ℕ
  pub vector_status : AsyncTaskStatus
  pub vector_error : Option Text

pub record Document : Type 0 where
  pub knowledge_base_id : ℕ
  pub file_hash : Text
  pub original_filename : Text
  pub file_size : ℕ
  pub content_type : Text
  pub storage_key : Text
  pub storage_url : Text
  pub content_text : Text
  pub chunk_count : ℕ
  pub vector_status : AsyncTaskStatus
  pub vector_error : Option Text
  pub vector_job_id : Option Text

-- A row of `vector_store`; one with a job id is pending, and no search sees it.
pub record VectorRow {ℓ} (Embedding : Type ℓ) : Type ℓ where
  pub content : Text
  pub embedding : Embedding
  pub chunk_index : ℕ
  pub knowledge_base_id : ℕ
  pub document_id : ℕ
  pub kb_vector_job_id : Option Text

pub record KbVectorizePayload : Type 0 where
  pub knowledge_base_id : ℕ
  pub document_id : ℕ

-- The tables by primary key with the next keys, the stored files, and the stream of tasks, each with
-- its retry count.
pub record KbWorld {ℓ} (Embedding : Type ℓ) : Type ℓ where
  pub kbs : Dict ℕ KnowledgeBase
  pub docs : Dict ℕ Document
  pub vectors : List (VectorRow Embedding)
  pub next_kb_id : ℕ
  pub next_document_id : ℕ
  pub files : List Text
  pub tasks : List (KbVectorizePayload × ℕ)

abbrev is_in_flight : AsyncTaskStatus → Bool
is_in_flight s = s =? pending || s =? processing

abbrev any_in_flight : List AsyncTaskStatus → Bool
any_in_flight [] = false
any_in_flight (s ∷ statuses) = is_in_flight s || any_in_flight statuses

unfoldable pub aggregate_vector_status : List AsyncTaskStatus → AsyncTaskStatus
aggregate_vector_status [] = pending
aggregate_vector_status (s ∷ statuses) =
    if contains failed (s ∷ statuses)
    then failed
    else if any_in_flight (s ∷ statuses)
    then processing
    else completed

-- The repository of documents.
unfoldable pub list_by_kb : ℕ → Dict ℕ Document → List (ℕ × Document)
list_by_kb kb_id [] = []
list_by_kb kb_id ((i, doc) ∷ docs) =
    let rest = list_by_kb kb_id docs in
    if doc.knowledge_base_id =? kb_id then (i, doc) ∷ rest else rest

unfoldable pub list_statuses_by_kb : ℕ → Dict ℕ Document → List AsyncTaskStatus
list_statuses_by_kb kb_id [] = []
list_statuses_by_kb kb_id ((i, doc) ∷ docs) =
    let rest = list_statuses_by_kb kb_id docs in
    if doc.knowledge_base_id =? kb_id then doc.vector_status ∷ rest else rest

unfoldable pub sum_chunk_count_by_kb : ℕ → Dict ℕ Document → ℕ
sum_chunk_count_by_kb kb_id [] = 0
sum_chunk_count_by_kb kb_id ((i, doc) ∷ docs) =
    let rest = sum_chunk_count_by_kb kb_id docs in
    if doc.knowledge_base_id =? kb_id then doc.chunk_count + rest else rest

unfoldable pub find_by_kb_and_hash : ℕ → Text → Dict ℕ Document → Option Document
find_by_kb_and_hash kb_id file_hash [] = none
find_by_kb_and_hash kb_id file_hash ((i, doc) ∷ docs) =
    let rest = find_by_kb_and_hash kb_id file_hash docs in
    if doc.knowledge_base_id =? kb_id && doc.file_hash =? file_hash then some doc else rest

-- `ON DELETE CASCADE`
unfoldable pub without_kb : ℕ → Dict ℕ Document → Dict ℕ Document
without_kb kb_id [] = []
without_kb kb_id ((i, doc) ∷ docs) =
    let rest = without_kb kb_id docs in
    if doc.knowledge_base_id =? kb_id then rest else (i, doc) ∷ rest

-- What `_refresh_kb_aggregate` and `_sync_kb_aggregate` write.
unfoldable pub aggregated : Dict ℕ Document → ℕ → KnowledgeBase → KnowledgeBase
unfolding aggregate_vector_status list_statuses_by_kb sum_chunk_count_by_kb
aggregated docs kb_id kb =
    let status = aggregate_vector_status (list_statuses_by_kb kb_id docs) in
    record kb {
      vector_status = status;
      vector_error = if status =? failed then some (codes "存在向量化失败的文档") else none;
      chunk_count = sum_chunk_count_by_kb kb_id docs;
    }

module _ {ℓ} {Embedding : Type ℓ} where
  unfoldable pub sync_kb_aggregate : ℕ → KbWorld Embedding → KbWorld Embedding
  unfolding aggregated
  sync_kb_aggregate kb_id w = elim (get w.kbs kb_id) [
    | none ↦ w
    | some kb ↦ record w { kbs = put w.kbs kb_id (aggregated w.docs kb_id kb) }
  ]

  abbrev pub write_document : ℕ → Document → KbWorld Embedding → KbWorld Embedding
  write_document i doc w = record w { docs = put w.docs i doc }

  -- The repository of vectors.
  abbrev pub pending_row : Text → ℕ → ℕ → ℕ → Text × Embedding → VectorRow Embedding
  pending_row job_id kb_id document_id index (content, embedding) = record {
    content = content;
    embedding = embedding;
    chunk_index = index;
    knowledge_base_id = kb_id;
    document_id = document_id;
    kb_vector_job_id = some job_id;
  }

  unfoldable pub rows_from : Text → ℕ → ℕ → ℕ → List (Text × Embedding) → List (VectorRow Embedding)
  rows_from job_id kb_id document_id index [] = []
  rows_from job_id kb_id document_id index (item ∷ items) =
      pending_row job_id kb_id document_id index item
      ∷ rows_from job_id kb_id document_id (index + 1) items

  unfoldable pub insert_pending :
      Text → ℕ → List (Text × Embedding) → ℕ → KbWorld Embedding → KbWorld Embedding
  unfolding rows_from
  insert_pending job_id kb_id items document_id w = record w {
    vectors = w.vectors ++ rows_from job_id kb_id document_id 0 items;
  }

  abbrev pub promoted : ℕ → Text → VectorRow Embedding → VectorRow Embedding
  promoted kb_id job_id row =
      if row.kb_vector_job_id =? some job_id
      then record row { knowledge_base_id = kb_id; kb_vector_job_id = none }
      else row

  unfoldable pub promote_vector_job : ℕ → Text → KbWorld Embedding → KbWorld Embedding
  promote_vector_job kb_id job_id w = record w { vectors = map (promoted kb_id job_id) w.vectors }

  abbrev pub is_of_document : ℕ → VectorRow Embedding → Bool
  is_of_document document_id row = row.document_id =? document_id && row.kb_vector_job_id =? none

  abbrev pub is_of_kb : ℕ → VectorRow Embedding → Bool
  is_of_kb kb_id row = row.knowledge_base_id =? kb_id && row.kb_vector_job_id =? none

  -- The deletions leave pending rows, which their job takes care of.
  unfoldable pub delete_by_document_id : ℕ → KbWorld Embedding → KbWorld Embedding
  unfolding filter
  delete_by_document_id document_id w = record w {
    vectors = filter (λ row. not (is_of_document document_id row)) w.vectors;
  }

  unfoldable pub delete_by_knowledge_base_id : ℕ → KbWorld Embedding → KbWorld Embedding
  unfolding filter
  delete_by_knowledge_base_id kb_id w = record w {
    vectors = filter (λ row. not (is_of_kb kb_id row)) w.vectors;
  }

  unfoldable pub delete_by_vector_job_id : Text → KbWorld Embedding → KbWorld Embedding
  unfolding filter
  delete_by_vector_job_id job_id w = record w {
    vectors = filter (λ row. not (row.kb_vector_job_id =? some job_id)) w.vectors;
  }
