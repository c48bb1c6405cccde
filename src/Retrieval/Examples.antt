-- ===== src/Retrieval/Examples.antt =====
-- Chunks of two searches.
use interview_agent_py.Prelude.{
  ℕ, ◌≡◌, refl, List, [], ◌∷◌, some, true, Text, codes, IsDistinct, join, nat_eq, list_eq, is_space,
  list_beq,
}
use interview_agent_py.Prelude.Int.{pos}
use interview_agent_py.Prelude.Dict.{get, put}
use interview_agent_py.Prelude.Sorting.{Ordered, sorted, insert}
use interview_agent_py.Retrieval.{
  RetrievedChunk, compute_retrieval_params, split, split_from, is_no_info_answer, any_occurs,
  occurs_in, starts_with,
}
use interview_agent_py.Retrieval.Merge.{
  merge_and_dedup, best_of, best_of_lists, keep_best, score_leb,
}
use interview_agent_py.Retrieval.Best.{IsBest, concat}
use interview_agent_py.Retrieval.Merged.{contents, find_content, merge_and_dedup-IsBest}

abbrev chunk : Text → ℕ → RetrievedChunk
chunk content score = record { content = content; score = pos score; kb_id = 1 }

abbrev searches : List (List RetrievedChunk)
searches =
    (chunk (codes "a") 3 ∷ chunk (codes "b") 5 ∷ [])
    ∷ (chunk (codes "a") 7 ∷ chunk (codes "b") 5 ∷ [])
    ∷ []

merged : merge_and_dedup searches ≡ chunk (codes "a") 7 ∷ chunk (codes "b") 5 ∷ []
unfolding merge_and_dedup best_of_lists best_of keep_best get put sorted insert list_beq
merged = refl

merge_and_dedup-IsBest_example :
    IsDistinct (contents (merge_and_dedup searches))
    × Ordered score_leb (merge_and_dedup searches)
    × IsBest (codes "a") (concat searches) (find_content (codes "a") (merge_and_dedup searches))
merge_and_dedup-IsBest_example = merge_and_dedup-IsBest searches (codes "a")

a_short_query : compute_retrieval_params (codes " a b ") ≡ (20, some 18)
unfolding compute_retrieval_params split split_from is_space join
a_short_query = refl

an_empty_answer : is_no_info_answer (codes "对不起，信息不足。") ≡ true
unfolding is_no_info_answer any_occurs occurs_in starts_with
an_empty_answer = refl
