-- ===== src/Retrieval.antt =====
-- domain/services/rag_query.py: what is done with the question before the search of a knowledge base,
-- and with the chunks after it. A score is a float that is compared only; here it is an integer.
pub mod Merge
pub mod Best
pub mod Merged
pub mod Context
mod Examples
use interview_agent_py.Prelude.{
  ℕ, zero, suc, ◌+◌, List, [], ◌∷◌, ◌++◌, Option, none, some, Bool, true, false, not, ◌||◌, ◌&&◌,
  if◌then◌else◌, leb, ltb, length, take, Text, codes, is_space, is_empty, join, decimal, ◌==◌,
}
use interview_agent_py.Prelude.Int.{ℤ}

pub record RetrievedChunk : Type 0 where
  pub content : Text
  pub score : ℤ
  pub kb_id : ℕ

abbrev pub short_query_max : ℕ
short_query_max = 4

abbrev pub medium_query_max : ℕ
medium_query_max = 12

-- The words of a text, with the word being read. An empty word is none.
unfoldable pub split_from : Text → Text → List Text
unfolding is_space
split_from word [] = if is_empty word then [] else word ∷ []
split_from word (c ∷ s) =
    let ended = split_from [] s in
    let longer = split_from (word ++ c ∷ []) s in
    if is_space c then if is_empty word then ended else word ∷ ended else longer

-- `text.split()`
unfoldable pub split : Text → List Text
unfolding split_from
split s = split_from [] s

unfoldable pub normalize_probe_window : Text → ℕ → Text
unfolding split
normalize_probe_window text limit =
    let collapsed = join (codes " ") (split text) in
    if ltb limit (length collapsed) then take limit collapsed else collapsed

-- The lowest score of a short query is 0.18; here it is said in hundredths.
unfoldable pub compute_retrieval_params : Text → ℕ × Option ℕ
unfolding split
compute_retrieval_params query =
    let n = length (join [] (split query)) in
    if leb n short_query_max
    then (20, some 18)
    else if leb n medium_query_max
    then (12, none)
    else (8, none)

abbrev pub no_info_patterns : List Text
no_info_patterns =
    codes "没有找到相关信息" ∷ codes "未检索到相关信息" ∷ codes "信息不足" ∷ codes "超出知识库范围" ∷ codes "无法根据提供内容回答" ∷ []

unfoldable pub starts_with : Text → Text → Bool
starts_with [] t = true
starts_with (c ∷ s) [] = false
starts_with (c ∷ s) (d ∷ t) = c == d && starts_with s t

-- `pattern in text`
unfoldable pub occurs_in : Text → Text → Bool
unfolding starts_with
occurs_in pattern [] = is_empty pattern
occurs_in pattern (c ∷ s) = starts_with pattern (c ∷ s) || occurs_in pattern s

unfoldable pub any_occurs : List Text → Text → Bool
unfolding occurs_in
any_occurs [] text = false
any_occurs (pattern ∷ patterns) text = occurs_in pattern text || any_occurs patterns text

unfoldable pub is_no_info_answer : Text → Bool
unfolding any_occurs
is_no_info_answer text = any_occurs no_info_patterns text

unfoldable pub detect_no_result : List RetrievedChunk → Bool
detect_no_result chunks = length chunks == 0
