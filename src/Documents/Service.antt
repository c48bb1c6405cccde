-- ===== src/Documents/Service.antt =====
-- application/knowledgebase/service.py, KnowledgeBaseService: uploads, further documents, deletions
-- and renewed vectorization. The producer of tasks is infrastructure/tasks/kb_vectorize_producer.py.
-- A stored file's key and the failures of the stream and of the storage's deletions are arguments.
use interview_agent_py.Prelude.{
  ℕ, ◌+◌, List, [], ◌∷◌, ◌++◌, Option, none, some, Bool, true, false, ltb, not, if◌then◌else◌, ◌=?◌,
  Text, nat_eq, list_eq, length, contains, is_empty, strip, filter,
}
use interview_agent_py.Prelude.Dict.{Dict, get, put, remove}
use interview_agent_py.Errors.{
  Result, ok, raise, ◌>>=◌, raise_if, knowledge_base_not_found, knowledge_base_upload_failed,
  knowledge_base_parse_failed, storage_download_failed,
}
use interview_agent_py.Tasks.{pending, failed}
use interview_agent_py.Documents.{
  KnowledgeBase, Document, KbWorld, list_by_kb, find_by_kb_and_hash, without_kb, sync_kb_aggregate,
  delete_by_document_id, delete_by_knowledge_base_id,
}

-- A file that is uploaded, with the key that the storage would give it.
pub record Upload : Type 0 where
  pub filename : Text
  pub content_type : Text
  pub content : List ℕ
  pub storage_key : Text

-- What the service is given.
pub record Deps : Type 0 where
  pub detect : List ℕ → Text → Text
  pub calculate_hash : List ℕ → Text
  pub parse_content : List ℕ → Text → Text
  pub build_file_url : Text → Text
  pub deletes_file : Text → Bool
  pub allowed_types : List Text
  pub max_file_size : ℕ

-- `category if category and category.strip() else None`
unfoldable pub normalize_category : Option Text → Option Text
normalize_category none = none
normalize_category (some category) = if is_empty (strip category) then none else some category

abbrev pub KbOp {ℓ} : Type ℓ → Type 0 → Type ℓ
KbOp Embedding A = KbWorld Embedding → Result A × KbWorld Embedding

module _ (deps : Deps) where
  abbrev pub check_file : Upload → Result (Unit {0})
  check_file f = do
    _ ← raise_if (ltb deps.max_file_size (length f.content)) knowledge_base_upload_failed
    raise_if (not (contains (deps.detect f.content f.filename) deps.allowed_types))
        knowledge_base_upload_failed

  abbrev pub check_text : Upload → Result (Unit {0})
  check_text f =
      raise_if (is_empty (strip (deps.parse_content f.content f.filename)))
        knowledge_base_parse_failed

  abbrev pub new_document : ℕ → Upload → Document
  new_document kb_id f = record {
    knowledge_base_id = kb_id;
    file_hash = deps.calculate_hash f.content;
    original_filename = f.filename;
    file_size = length f.content;
    content_type =
        if is_empty f.content_type then deps.detect f.content f.filename else f.content_type;
    storage_key = f.storage_key;
    storage_url = deps.build_file_url f.storage_key;
    content_text = deps.parse_content f.content f.filename;
    chunk_count = 0;
    vector_status = pending;
    vector_error = none;
    vector_job_id = none;
  }

-- `name or filename`
abbrev pub new_kb : Upload → Option Text → Option Text → KnowledgeBase
new_kb f name category = record {
  name = elim name [ none ↦ f.filename | some n ↦ if is_empty n then f.filename else n ];
  category = elim category [ none ↦ none | some c ↦ if is_empty c then none else some c ];
  chunk_count = 0;
  vector_status = pending;
  vector_error = none;
}

unfoldable pub set_pending : ℕ → Dict ℕ Document → Dict ℕ Document
set_pending kb_id [] = []
set_pending kb_id ((i, doc) ∷ docs) =
    let rest = set_pending kb_id docs in
    if doc.knowledge_base_id =? kb_id
    then (i, record doc { vector_status = pending; vector_error = none }) ∷ rest
    else (i, doc) ∷ rest

module _ {ℓ} {Embedding : Type ℓ} where
  -- `send_task`: a task that the stream refuses, with the error, fails its knowledge base.
  unfoldable pub enqueue_vectorize : Option Text → ℕ → ℕ → KbWorld Embedding → KbWorld Embedding
  enqueue_vectorize none kb_id document_id w = record w {
    tasks = w.tasks ++ (record { knowledge_base_id = kb_id; document_id = document_id }, 0) ∷ [];
  }
  enqueue_vectorize (some error) kb_id document_id w = elim (get w.kbs kb_id) [
    | none ↦ w
    | some kb ↦ record w {
      kbs = put w.kbs kb_id (record kb { vector_status = failed; vector_error = some error });
    }
  ]

  -- `get_by_id`, and what comes after it.
  abbrev pub with_kb : {A : Type 0} → ℕ → (KnowledgeBase → KbOp Embedding A) → KbOp Embedding A
  with_kb kb_id body w = elim (get w.kbs kb_id) [
    | none ↦ (raise knowledge_base_not_found, w)
    | some kb ↦ body kb w
  ]

  abbrev pub after_checks :
      {A : Type 0} → Result (Unit {0}) → A × KbWorld Embedding → KbOp Embedding A
  after_checks (ok _) (a, w') w = (ok a, w')
  after_checks (raise e) done w = (raise e, w)

  module _ (deps : Deps) where
    abbrev pub save_document : ℕ → Upload → KbWorld Embedding → KbWorld Embedding
    save_document kb_id f w = record w {
      docs = put w.docs w.next_document_id (new_document deps kb_id f);
      next_document_id = w.next_document_id + 1;
      files = w.files ++ f.storage_key ∷ [];
    }

    unfoldable pub upload : Option Text → Upload → Option Text → Option Text → KbOp Embedding ℕ
    unfolding enqueue_vectorize
    upload refused f name category w =
        after_checks (check_file deps f >>= λ _. check_text deps f)
          (
            w.next_kb_id,
            enqueue_vectorize refused w.next_kb_id w.next_document_id (
                save_document w.next_kb_id f (record w {
                  kbs = put w.kbs w.next_kb_id (new_kb f name category);
                  next_kb_id = w.next_kb_id + 1;
                })),
          )
          w

    abbrev pub is_duplicate : ℕ → Upload → KbWorld Embedding → Bool
    is_duplicate kb_id f w =
        elim (find_by_kb_and_hash kb_id (deps.calculate_hash f.content) w.docs) [
          | none ↦ false
          | some existing ↦ true
        ]

    abbrev pub check_addition : ℕ → Upload → KbWorld Embedding → Result (Unit {0})
    check_addition kb_id f w = do
      _ ← check_file deps f
      _ ← raise_if (is_duplicate kb_id f w) knowledge_base_upload_failed
      check_text deps f

    unfoldable pub add_document : Option Text → ℕ → Upload → KbOp Embedding ℕ
    unfolding enqueue_vectorize sync_kb_aggregate find_by_kb_and_hash
    add_document refused kb_id f w =
        with_kb kb_id
          (λ kb. after_checks (check_addition kb_id f w) (
            w.next_document_id,
            enqueue_vectorize refused kb_id w.next_document_id
                (sync_kb_aggregate kb_id (save_document kb_id f w)),
          ))
          w

    -- A failure of the storage is logged, and the file stays.
    abbrev pub delete_file : Text → KbWorld Embedding → KbWorld Embedding
    delete_file key w =
        if not (is_empty key)
        then if deps.deletes_file key
          then record w { files = filter (λ k. not (k =? key)) w.files }
          else w
        else w

    unfoldable pub delete_files : List (ℕ × Document) → KbWorld Embedding → KbWorld Embedding
    unfolding filter
    delete_files [] w = w
    delete_files ((i, doc) ∷ docs) w = delete_files docs (delete_file doc.storage_key w)

    unfoldable pub delete : ℕ → KbOp Embedding (Unit {0})
    unfolding delete_files list_by_kb delete_by_knowledge_base_id without_kb
    delete kb_id w =
        with_kb kb_id
          (λ kb w.
            let cleared =
              delete_by_knowledge_base_id kb_id (delete_files (list_by_kb kb_id w.docs) w) in
            (
              ok tt,
              record cleared {
                kbs = remove cleared.kbs kb_id;
                docs = without_kb kb_id cleared.docs;
              },
            ))
          w

    abbrev pub drop_document : ℕ → ℕ → Document → KbWorld Embedding → KbWorld Embedding
    drop_document kb_id document_id doc w =
        let cleared = delete_by_document_id document_id (delete_file doc.storage_key w) in
        sync_kb_aggregate kb_id (record cleared { docs = remove cleared.docs document_id })

    unfoldable pub delete_document : ℕ → ℕ → KbOp Embedding (Unit {0})
    unfolding delete_by_document_id sync_kb_aggregate filter
    delete_document kb_id document_id w =
        with_kb kb_id
          (λ kb w. elim (get w.docs document_id) [
            | none ↦ (raise knowledge_base_not_found, w)
            | some doc ↦
                if doc.knowledge_base_id =? kb_id
                then (ok tt, drop_document kb_id document_id doc w)
                else (raise knowledge_base_not_found, w)
          ])
          w

  unfoldable pub update_category : ℕ → Option Text → KbOp Embedding (Unit {0})
  unfolding normalize_category
  update_category kb_id category w =
      with_kb kb_id
        (λ kb w. (
          ok tt,
          record w { kbs = put w.kbs kb_id (record kb { category = normalize_category category }) },
        ))
        w

  unfoldable pub enqueue_all :
      (ℕ → Option Text) → ℕ → List (ℕ × Document) → KbWorld Embedding → KbWorld Embedding
  unfolding enqueue_vectorize
  enqueue_all refused kb_id [] w = w
  enqueue_all refused kb_id ((i, doc) ∷ docs) w =
      enqueue_all refused kb_id docs (enqueue_vectorize (refused i) kb_id i w)

  unfoldable pub revectorize : (ℕ → Option Text) → ℕ → KbOp Embedding (Unit {0})
  unfolding set_pending enqueue_all list_by_kb
  revectorize refused kb_id w =
      with_kb kb_id
        (λ kb w. (
          ok tt,
          enqueue_all refused kb_id (list_by_kb kb_id w.docs) (record w {
            kbs = put w.kbs kb_id (record kb { vector_status = pending; vector_error = none });
            docs = set_pending kb_id w.docs;
          }),
        ))
        w

  -- The document whose file is sent.
  unfoldable pub download : ℕ → KbWorld Embedding → Result (Text × Text × Text)
  unfolding list_by_kb
  download kb_id w = elim (get w.kbs kb_id) [
    | none ↦ raise knowledge_base_not_found
    | some kb ↦ elim (list_by_kb kb_id w.docs) [
      | [] ↦ raise storage_download_failed
      | (i, doc) ∷ docs ↦
          if is_empty doc.storage_key
          then raise storage_download_failed
          else ok (doc.storage_key, doc.original_filename, doc.content_type)
    ]
  ]
