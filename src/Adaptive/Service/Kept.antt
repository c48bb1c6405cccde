-- ===== src/Adaptive/Service/Kept.antt =====
-- The states that are kept: the memory cache is bounded, and a state that was just saved is found.
use interview_agent_py.Prelude.{
  ℕ, suc, ◌≤◌, ◌<◌, ◌≡◌, inl, inr, refl, ◌∙◌, [], ◌∷◌, ◌++◌, none, some, Bool, true, false,
  Bool-cases, ltb, ◌=?◌, length, length-append, Text, arith, list_eq, nat_eq, =?-refl, ltb→lt,
}
use interview_agent_py.Prelude.Dict.{Dict, get, remove, get-put_self, get-remove}
use interview_agent_py.Errors.{ok}
use interview_agent_py.Adaptive.Graph.{AgentState}
use interview_agent_py.Adaptive.Service.{
  Sessions, memory_cache_maxsize, put_last, without_first, cache_state, get_state, save_checkpoint,
}

get-snoc {ℓ} :
    {V : Type ℓ} (d : Dict Text V) (k : Text) (v : V)
    → get d k ≡ none
    → get (d ++ (k, v) ∷ []) k ≡ some v
unfolding get
get-snoc [] k v missing = rw (=?-refl k) refl
get-snoc ((j, w) ∷ d) k v missing = elim (Bool-cases (j =? k)) [
  | inl same ↦ absurd (ground (arith, missing, same))
  | inr other ↦ rw other (get-snoc d k v (rw other at missing))
]

get-without_first {ℓ} :
    {V : Type ℓ} (d : Dict Text V) (k : Text) → get d k ≡ none → get (without_first d) k ≡ none
unfolding get
get-without_first [] k missing = refl
get-without_first ((j, w) ∷ d) k missing = elim (Bool-cases (j =? k)) [
  | inl same ↦ absurd (ground (arith, missing, same))
  | inr other ↦ rw other at missing
]

-- The oldest is dropped from a longer list: the new one stays.
get-without_first-snoc {ℓ} :
    {V : Type ℓ} (d : Dict Text V) (k : Text) (v : V)
    → get d k ≡ none
    → memory_cache_maxsize < length (d ++ (k, v) ∷ [])
    → get (without_first (d ++ (k, v) ∷ [])) k ≡ some v
get-without_first-snoc [] k v missing long = absurd (omega arith)
get-without_first-snoc (item ∷ d) k v missing long =
    get-snoc d k v (get-without_first (item ∷ d) k missing)

remove-missing {ℓ} : {V : Type ℓ} (d : Dict Text V) (k : Text) → get (remove d k) k ≡ none
remove-missing d k = get-remove d k k ∙ rw (=?-refl k) refl

abbrev SavedFound : Text → AgentState → Sessions → Type 0
SavedFound session_id state s =
    (get_state session_id (cache_state session_id state (save_checkpoint session_id state s))).0
    ≡ ok state

by_mode :
    (session_id : Text) (state : AgentState) (mode : Bool)
    (checkpoints cache : Dict Text AgentState)
    → SavedFound session_id state
        (record { has_checkpointer = mode; checkpoints = checkpoints; memory_cache = cache })
unfolding get_state cache_state save_checkpoint put_last
by_mode session_id state true checkpoints cache =
    rw (get-put_self checkpoints session_id state) refl
by_mode session_id state false checkpoints cache =
    let old = remove cache session_id in
    let missing = remove-missing cache session_id in
    elim (Bool-cases (ltb memory_cache_maxsize (length (old ++ (session_id, state) ∷ [])))) [
      | inl full ↦
          rw (full, get-without_first-snoc old session_id state missing (ltb→lt _ _ full)) refl
      | inr free ↦ rw (free, get-snoc old session_id state missing) refl
    ]

-- A state that was saved is the one that the session has then, with a checkpointer and without.
pub get_state-saved :
    (session_id : Text) (state : AgentState) (s : Sessions)
    → (get_state session_id (cache_state session_id state (save_checkpoint session_id state s))).0
      ≡ ok state
get_state-saved session_id state s =
    by_mode session_id state s.has_checkpointer s.checkpoints s.memory_cache

length-without_first {ℓ} :
    {V : Type ℓ} (d : Dict Text V) (n : ℕ) → length d ≤ suc n → length (without_first d) ≤ n
length-without_first [] n h = omega arith
length-without_first (item ∷ d) n h = omega arith

length-remove {ℓ} : {V : Type ℓ} (d : Dict Text V) (k : Text) → length (remove d k) ≤ length d
unfolding remove
length-remove [] k = omega arith
length-remove ((j, w) ∷ d) k = elim (Bool-cases (j =? k)) [
  | inl same ↦ rw same (omega (arith, length-remove d k))
  | inr other ↦ rw other (omega (arith, length-remove d k))
]

-- The memory cache never holds more than its size.
pub cache_state-bounded :
    (session_id : Text) (state : AgentState) (s : Sessions)
    → length s.memory_cache ≤ memory_cache_maxsize
    → length (cache_state session_id state s).memory_cache ≤ memory_cache_maxsize
unfolding cache_state put_last
cache_state-bounded session_id state s bounded = elim (Bool-cases s.has_checkpointer) [
  | inl kept ↦ rw kept bounded
  | inr in_memory ↦
      let cached = remove s.memory_cache session_id ++ (session_id, state) ∷ [] in
      elim (Bool-cases (ltb memory_cache_maxsize (length cached))) [
        | inl full ↦
            rw (in_memory, full)
              (length-without_first cached memory_cache_maxsize (
                omega (
                  arith,
                  length-append (remove s.memory_cache session_id) ((session_id, state) ∷ []),
                  length-remove s.memory_cache session_id,
                )))
        | inr free ↦ rw (in_memory, free) (ground (arith, free))
      ]
]
