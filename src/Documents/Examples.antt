-- ===== src/Documents/Examples.antt =====
-- A knowledge base with two documents, and a run of the consumer on the first.
use interview_agent_py.Prelude.{
  ℕ, ◌≡◌, inr, refl, ap, suc, List, [], ◌∷◌, map, Option, none, some, true, Text, codes, nat_eq,
  length, option_beq, list_beq, contains, Bool-cases, ◌=?◌, inl, subst,
}
use interview_agent_py.Prelude.Dict.{get}
use interview_agent_py.Tasks.{AsyncTaskStatus, pending, processing, completed, task_eq}
use interview_agent_py.Documents.{
  KnowledgeBase, Document, VectorRow, KbVectorizePayload, KbWorld, list_by_kb, list_statuses_by_kb,
  aggregate_vector_status, aggregated,
}
use interview_agent_py.Documents.Service.{Deps, revectorize}
use interview_agent_py.Documents.Vectorize.{Run, process_document}
use interview_agent_py.Documents.Runs.{
  EmbedsAll, IsStored, IsKept, process_document-IsStored, process_document-IsKept,
}
use interview_agent_py.Documents.Renewed.{status_of, revectorize-pending}
use interview_agent_py.Documents.Aggregate.{IsAggregate}
use interview_agent_py.Documents.Calls.{finished, perform, perform-IsAggregate}

abbrev document : Text → AsyncTaskStatus → ℕ → Document
document file_hash status count = record {
  knowledge_base_id = 1;
  file_hash = file_hash;
  original_filename = codes "a.md";
  file_size = 4;
  content_type = codes "text/markdown";
  storage_key = codes "k";
  storage_url = codes "u";
  content_text = codes "abcd";
  chunk_count = count;
  vector_status = status;
  vector_error = none;
  vector_job_id = none;
}

abbrev old_row : ℕ → VectorRow ℕ
old_row document_id = record {
  content = codes "old";
  embedding = 0;
  chunk_index = 0;
  knowledge_base_id = 1;
  document_id = document_id;
  kb_vector_job_id = none;
}

abbrev base : KnowledgeBase
base = record {
  name = codes "notes";
  category = none;
  chunk_count = 3;
  vector_status = processing;
  vector_error = none;
}

abbrev world : KbWorld ℕ
world = record {
  kbs = (1, base) ∷ [];
  docs = (1, document (codes "h1") processing 2) ∷ (2, document (codes "h2") completed 1) ∷ [];
  vectors = old_row 1 ∷ old_row 2 ∷ [];
  next_kb_id = 2;
  next_document_id = 3;
  files = codes "k" ∷ [];
  tasks = [];
}

abbrev task : KbVectorizePayload
task = record { knowledge_base_id = 1; document_id = 1 }

abbrev sevens : List Text → List ℕ
sevens texts = map (λ text. 7) texts

abbrev run_with : Option Text → Run ℕ
run_with error = record {
  job_id = codes "j";
  split = λ text. codes "ab" ∷ codes "cd" ∷ [];
  aembed_documents = λ texts. inr (sevens texts);
  length_mismatch = codes "zip";
  insert_error = none;
  promote_error = error;
  cleanup_works = true;
  meanwhile = λ w. w;
}

abbrev deps : Deps
deps = record {
  detect = λ content filename. codes "text/markdown";
  calculate_hash = λ content. content;
  parse_content = λ content filename. content;
  build_file_url = λ key. key;
  deletes_file = λ key. true;
  allowed_types = codes "text/markdown" ∷ [];
  max_file_size = 100;
}

length-sevens : (texts : List Text) → length (sevens texts) ≡ length texts
length-sevens [] = refl
length-sevens (text ∷ texts) = ap suc (length-sevens texts)

embeds : EmbedsAll (run_with none)
embeds texts = (sevens texts, (refl, length-sevens texts))

process_document-IsStored_example :
    IsStored 1
      (codes "ab" ∷ codes "cd" ∷ [])
      (old_row 1 ∷ old_row 2 ∷ [])
      (process_document (run_with none) task world)
unfolding option_beq get
process_document-IsStored_example =
    process_document-IsStored (run_with none) task world (λ w. refl) (refl, (refl, tt))
      (document (codes "h1") processing 2) embeds refl refl refl refl

process_document-IsKept_example :
    IsKept
      (old_row 1 ∷ old_row 2 ∷ [])
      (process_document (run_with (some (codes "down"))) task world)
unfolding option_beq
process_document-IsKept_example =
    process_document-IsKept (run_with (some (codes "down"))) task world (λ w. refl)
      (refl, (refl, tt)) refl

base_shows : IsAggregate world
unfolding aggregated get contains option_beq list_beq
base_shows i = elim (Bool-cases (1 =? i)) [
  | inl here ↦
      rw here (subst (λ k. base ≡ aggregated world.docs k base) ((nat_eq.beq_iff 1 i).0 here) refl)
  | inr other ↦ rw other tt
]

perform-IsAggregate_example : IsAggregate (perform deps (finished task) world)
unfolding contains get
perform-IsAggregate_example =
    perform-IsAggregate deps (finished task) world (refl, (refl, tt)) refl refl base_shows

revectorize-pending_example :
    (status_of 1 (revectorize (λ i. none) 1 world).1.kbs ≡ some pending)
    × (aggregate_vector_status (list_statuses_by_kb 1 (revectorize (λ i. none) 1 world).1.docs)
        ≡ processing)
unfolding get list_by_kb
revectorize-pending_example = revectorize-pending 1 base world refl refl
