-- ===== src/Retrieval/Merge.antt =====
-- domain/services/rag_query.py: the chunks of several searches, merged.
use interview_agent_py.Prelude.{
  ◌+◌, List, [], ◌∷◌, none, some, Bool, if◌then◌else◌, leb, ltb, filter, Text, nat_eq, list_eq,
}
use interview_agent_py.Prelude.Int.{ℤ, pos_part, neg_part}
use interview_agent_py.Prelude.Dict.{Dict, get, put, values}
use interview_agent_py.Prelude.Sorting.{sorted}
use interview_agent_py.Retrieval.{RetrievedChunk}

-- `a <= b`
abbrev pub leb_ℤ : ℤ → ℤ → Bool
leb_ℤ a b = leb (pos_part a + neg_part b) (pos_part b + neg_part a)

-- `a < b`
abbrev pub ltb_ℤ : ℤ → ℤ → Bool
ltb_ℤ a b = ltb (pos_part a + neg_part b) (pos_part b + neg_part a)

-- The body of the loops.
unfoldable pub keep_best : Dict Text RetrievedChunk → RetrievedChunk → Dict Text RetrievedChunk
keep_best best chunk = elim (get best chunk.content) [
  | none ↦ put best chunk.content chunk
  | some existing ↦ if ltb_ℤ existing.score chunk.score then put best chunk.content chunk else best
]

unfoldable pub best_of : Dict Text RetrievedChunk → List RetrievedChunk → Dict Text RetrievedChunk
unfolding keep_best
best_of best [] = best
best_of best (chunk ∷ chunks) = best_of (keep_best best chunk) chunks

unfoldable pub best_of_lists :
    Dict Text RetrievedChunk → List (List RetrievedChunk) → Dict Text RetrievedChunk
unfolding best_of
best_of_lists best [] = best
best_of_lists best (chunks ∷ candidate_lists) = best_of_lists (best_of best chunks) candidate_lists

-- `key=lambda c: c.score, reverse=True`, which keeps the order of equal scores.
abbrev pub score_leb : RetrievedChunk → RetrievedChunk → Bool
score_leb a b = leb_ℤ b.score a.score

unfoldable pub merge_and_dedup : List (List RetrievedChunk) → List RetrievedChunk
unfolding best_of_lists
merge_and_dedup candidate_lists = sorted score_leb (values (best_of_lists [] candidate_lists))

unfoldable pub filter_by_min_score : List RetrievedChunk → ℤ → List RetrievedChunk
unfolding filter
filter_by_min_score chunks min_score = filter (λ chunk. leb_ℤ min_score chunk.score) chunks
