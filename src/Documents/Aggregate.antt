-- ===== src/Documents/Aggregate.antt =====
-- `_refresh_kb_aggregate` and `_sync_kb_aggregate`: the status, the error and the chunk count of a
-- knowledge base and of its documents.
use interview_agent_py.Prelude.{
  ℕ, ◌≡◌, inl, inr, refl, ap, sym, subst, ◌∙◌, [], ◌∷◌, Option, none, some, false, if◌then◌else◌,
  ◌=?◌, Bool-cases, Option-cases, nat_eq, contains, IsDistinct, arith,
}
use interview_agent_py.Prelude.Dict.{Dict, keys, get, put, remove, get-put}
use interview_agent_py.Documents.{
  KnowledgeBase, Document, KbWorld, list_statuses_by_kb, sum_chunk_count_by_kb, aggregated,
  without_kb, sync_kb_aggregate,
}

abbrev pub Shows : Dict ℕ Document → ℕ → Option KnowledgeBase → Type 0
Shows docs kb_id none = Unit
Shows docs kb_id (some kb) = kb ≡ aggregated docs kb_id kb

-- Every knowledge base shows its documents.
abbrev pub AllShow : Dict ℕ KnowledgeBase → Dict ℕ Document → Type 0
AllShow kbs docs = (i : ℕ) → Shows docs i (get kbs i)

-- What `aggregated` reads, for the other knowledge bases.
abbrev pub SameElsewhere : ℕ → Dict ℕ Document → Dict ℕ Document → Type 0
SameElsewhere kb_id docs docs' =
    (i : ℕ)
    → (kb_id =? i) ≡ false
    → (list_statuses_by_kb i docs' ≡ list_statuses_by_kb i docs)
      × (sum_chunk_count_by_kb i docs' ≡ sum_chunk_count_by_kb i docs)

abbrev pub IsIn : ℕ → Option Document → Type 0
IsIn kb_id none = Unit
IsIn kb_id (some doc) = doc.knowledge_base_id ≡ kb_id

pub Shows-SameElsewhere :
    (kb_id : ℕ) (docs docs' : Dict ℕ Document)
    → SameElsewhere kb_id docs docs'
    → (i : ℕ) → (kb_id =? i) ≡ false
    → (o : Option KnowledgeBase) → Shows docs i o
    → Shows docs' i o
unfolding aggregated
Shows-SameElsewhere kb_id docs docs' same i other none h = tt
Shows-SameElsewhere kb_id docs docs' same i other (some kb) h =
    rw ((same i other).0, (same i other).1) h

pub put-SameElsewhere :
    (kb_id d : ℕ) (doc : Document) (docs : Dict ℕ Document)
    → doc.knowledge_base_id ≡ kb_id
    → IsIn kb_id (get docs d)
    → SameElsewhere kb_id docs (put docs d doc)
unfolding list_statuses_by_kb sum_chunk_count_by_kb get put
put-SameElsewhere kb_id d doc [] here was i other = rw (ap (λ k. k =? i) here ∙ other) (refl, refl)
put-SameElsewhere kb_id d doc ((j, held) ∷ docs) here was i other = elim (Bool-cases (j =? d)) [
  | inl same ↦
      let was_here : held.knowledge_base_id ≡ kb_id =
        subst (λ b. IsIn kb_id (if b then some held else get docs d)) same was in
      rw (same, ap (λ k. k =? i) here ∙ other, ap (λ k. k =? i) was_here ∙ other) (refl, refl)
  | inr later ↦
      let rest =
        put-SameElsewhere kb_id d doc docs here
          (subst (λ b. IsIn kb_id (if b then some held else get docs d)) later was) i other in
      rw (later, rest.0, rest.1) (refl, refl)
]

remove-absent :
    (d : ℕ) (docs : Dict ℕ Document) → contains d (keys docs) ≡ false → remove docs d ≡ docs
unfolding contains remove
remove-absent d [] h = refl
remove-absent d ((j, held) ∷ docs) h =
    ground (arith, remove-absent d docs, nat_eq.beq_iff d j, nat_eq.beq_iff j d)

pub remove-SameElsewhere :
    (kb_id d : ℕ) (docs : Dict ℕ Document)
    → IsDistinct (keys docs)
    → IsIn kb_id (get docs d)
    → SameElsewhere kb_id docs (remove docs d)
unfolding list_statuses_by_kb sum_chunk_count_by_kb get remove
remove-SameElsewhere kb_id d [] distinct was i other = (refl, refl)
remove-SameElsewhere kb_id d ((j, held) ∷ docs) distinct was i other = elim (Bool-cases (j =? d)) [
  | inl same ↦
      let was_here : held.knowledge_base_id ≡ kb_id =
        subst (λ b. IsIn kb_id (if b then some held else get docs d)) same was in
      rw
        (
          same,
          ap (λ k. k =? i) was_here ∙ other,
          remove-absent d docs
              (ap (λ k. contains k (keys docs)) (sym ((nat_eq.beq_iff j d).0 same)) ∙ distinct.0),
        )
        (refl, refl)
  | inr later ↦
      let rest =
        remove-SameElsewhere kb_id d docs distinct.1
          (subst (λ b. IsIn kb_id (if b then some held else get docs d)) later was) i other in
      rw (later, rest.0, rest.1) (refl, refl)
]

pub without_kb-SameElsewhere :
    (kb_id : ℕ) (docs : Dict ℕ Document) → SameElsewhere kb_id docs (without_kb kb_id docs)
unfolding list_statuses_by_kb sum_chunk_count_by_kb without_kb
without_kb-SameElsewhere kb_id [] i other = (refl, refl)
without_kb-SameElsewhere kb_id ((j, held) ∷ docs) i other =
    let rest = without_kb-SameElsewhere kb_id docs i other in
    (ground (arith, rest.0), ground (arith, rest.1))

module _ {ℓ} {Embedding : Type ℓ} where
  abbrev pub IsAggregate : KbWorld Embedding → Type 0
  IsAggregate w = AllShow w.kbs w.docs

  pub sync-IsAggregate :
      (kb_id : ℕ) (docs : Dict ℕ Document) (w : KbWorld Embedding)
      → SameElsewhere kb_id docs w.docs
      → AllShow w.kbs docs
      → IsAggregate (sync_kb_aggregate kb_id w)
  unfolding aggregated sync_kb_aggregate
  sync-IsAggregate kb_id docs w same shows = elim (Option-cases (get w.kbs kb_id)) [
    | inl missing ↦
        rw (sync_kb_aggregate, missing)
          (λ i. elim (Bool-cases (kb_id =? i)) [
            | inl here ↦
                subst (λ k. Shows w.docs k (get w.kbs k)) ((nat_eq.beq_iff kb_id i).0 here)
                  (rw missing tt)
            | inr other ↦ Shows-SameElsewhere kb_id docs w.docs same i other (get w.kbs i) (shows i)
          ])
    | inr (kb, at) ↦
        rw (sync_kb_aggregate, at)
          (λ i. elim (Bool-cases (kb_id =? i)) [
            | inl here ↦
                rw (get-put w.kbs kb_id i (aggregated w.docs kb_id kb), here)
                  (subst (λ k. Shows w.docs k (some (aggregated w.docs kb_id kb)))
                    ((nat_eq.beq_iff kb_id i).0 here) refl)
            | inr other ↦
                rw (get-put w.kbs kb_id i (aggregated w.docs kb_id kb), other)
                  (Shows-SameElsewhere kb_id docs w.docs same i other (get w.kbs i) (shows i))
          ])
  ]
