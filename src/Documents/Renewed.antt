-- ===== src/Documents/Renewed.antt =====
-- `revectorize` of service.py: every document of a knowledge base is put back.
use interview_agent_py.Prelude.{
  ℕ, ◌≡◌, inl, inr, refl, ap, List, [], ◌∷◌, Option, none, some, false, ◌=?◌, Bool-cases, nat_eq,
  contains, arith, is_empty,
}
use interview_agent_py.Prelude.Dict.{Dict, get, put, get-put_self}
use interview_agent_py.Tasks.{AsyncTaskStatus, pending, processing, failed, task_eq}
use interview_agent_py.Documents.{
  KnowledgeBase, Document, KbWorld, list_by_kb, list_statuses_by_kb, aggregate_vector_status,
}
use interview_agent_py.Documents.Service.{
  revectorize, set_pending, enqueue_all, enqueue_vectorize, with_kb,
}

-- A pending status for each document.
unfoldable all_pending : List (ℕ × Document) → List AsyncTaskStatus
all_pending [] = []
all_pending (doc ∷ docs) = pending ∷ all_pending docs

list_statuses_by_kb-set_pending :
    (kb_id : ℕ) (docs : Dict ℕ Document)
    → list_statuses_by_kb kb_id (set_pending kb_id docs) ≡ all_pending (list_by_kb kb_id docs)
unfolding list_statuses_by_kb set_pending all_pending list_by_kb
list_statuses_by_kb-set_pending kb_id [] = refl
list_statuses_by_kb-set_pending kb_id ((i, doc) ∷ docs) =
    elim (Bool-cases (doc.knowledge_base_id =? kb_id)) [
      | inl here ↦
          rw (here, here) (ap (λ l. pending ∷ l) (list_statuses_by_kb-set_pending kb_id docs))
      | inr other ↦ rw (other, other) (list_statuses_by_kb-set_pending kb_id docs)
    ]

all_pending-failed : (docs : List (ℕ × Document)) → contains failed (all_pending docs) ≡ false
unfolding all_pending contains
all_pending-failed [] = refl
all_pending-failed (doc ∷ docs) = all_pending-failed docs

aggregate_vector_status-all_pending :
    (docs : List (ℕ × Document))
    → is_empty docs ≡ false
    → aggregate_vector_status (all_pending docs) ≡ processing
unfolding aggregate_vector_status all_pending
aggregate_vector_status-all_pending [] h = absurd (ground arith)
aggregate_vector_status-all_pending (doc ∷ docs) h = rw (all_pending-failed (doc ∷ docs)) refl

abbrev pub status_of : ℕ → Dict ℕ KnowledgeBase → Option AsyncTaskStatus
status_of kb_id kbs = elim (get kbs kb_id) [ none ↦ none | some kb ↦ some kb.vector_status ]

module _ {ℓ} {Embedding : Type ℓ} where
  -- Tasks that the stream takes change the stream only.
  enqueue_all-taken :
      (P : Dict ℕ KnowledgeBase → Dict ℕ Document → Type 0) (kb_id : ℕ) (docs : List (ℕ × Document))
      (w : KbWorld Embedding)
      → P w.kbs w.docs
      → P (enqueue_all (λ i. none) kb_id docs w).kbs (enqueue_all (λ i. none) kb_id docs w).docs
  unfolding enqueue_all enqueue_vectorize
  enqueue_all-taken P kb_id [] w h = h
  enqueue_all-taken P kb_id ((i, doc) ∷ docs) w h =
      enqueue_all-taken P kb_id docs (enqueue_vectorize none kb_id i w) h

  -- If a knowledge base has documents and the stream takes their tasks, a renewed vectorization
  -- leaves it PENDING, while its documents, all PENDING, give PROCESSING.
  pub revectorize-pending :
      (kb_id : ℕ) (kb : KnowledgeBase) (w : KbWorld Embedding)
      → get w.kbs kb_id ≡ some kb
      → is_empty (list_by_kb kb_id w.docs) ≡ false
      → (status_of kb_id (revectorize (λ i. none) kb_id w).1.kbs ≡ some pending)
        × (aggregate_vector_status
              (list_statuses_by_kb kb_id (revectorize (λ i. none) kb_id w).1.docs)
            ≡ processing)
  unfolding revectorize
  revectorize-pending kb_id kb w at has =
      rw (revectorize, with_kb, at)
        (enqueue_all-taken
          (λ kbs docs.
            (status_of kb_id kbs ≡ some pending)
            × (aggregate_vector_status (list_statuses_by_kb kb_id docs) ≡ processing))
          kb_id (list_by_kb kb_id w.docs)
          (record w {
            kbs = put w.kbs kb_id (record kb { vector_status = pending; vector_error = none });
            docs = set_pending kb_id w.docs;
          })
          (
            rw
                (
                  status_of,
                  get-put_self w.kbs kb_id
                      (record kb { vector_status = pending; vector_error = none }),
                )
                refl,
            rw (list_statuses_by_kb-set_pending kb_id w.docs)
                (aggregate_vector_status-all_pending (list_by_kb kb_id w.docs) has),
          ))
