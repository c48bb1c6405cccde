-- ===== src/Retrieval/Context.antt =====
-- domain/services/rag_query.py: the context of a prompt from the chunks.
use interview_agent_py.Prelude.{
  ℕ, suc, ◌+◌, List, [], ◌∷◌, ◌++◌, not, ◌&&◌, if◌then◌else◌, ltb, length, Text, codes, is_empty,
  join, decimal,
}
use interview_agent_py.Retrieval.{RetrievedChunk}

abbrev pub block : ℕ → RetrievedChunk → Text
block index chunk = codes "[片段" ++ (decimal index ++ (codes "] " ++ chunk.content))

-- The loop from the chunk `index` on, with its variables.
unfoldable pub parts_from : ℕ → ℕ → List Text → ℕ → List RetrievedChunk → List Text
parts_from max_chars index parts total [] = parts
parts_from max_chars index parts total (chunk ∷ chunks) =
    let b = block index chunk in
    let rest = parts_from max_chars (suc index) (parts ++ b ∷ []) (total + length b) chunks in
    if not (is_empty parts) && ltb max_chars (total + length b) then parts else rest

unfoldable pub build_context : List RetrievedChunk → ℕ → Text
unfolding parts_from
build_context chunks max_chars = join (codes "\n\n") (parts_from max_chars 1 [] 0 chunks)
