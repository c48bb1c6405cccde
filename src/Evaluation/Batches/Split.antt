-- ===== src/Evaluation/Batches/Split.antt =====
-- The batches cut the records into consecutive pieces.
use interview_agent_py.Prelude.{
  ℕ, zero, suc, ◌+◌, ◌-◌, ◌≤◌, ◌<◌, ◌≡◌, refl, sym, max, min, List, [], ◌∷◌, ◌++◌, map, inl, inr,
  Bool-cases, ltb, length, drop, arith, tests, length-drop, take-min-length, take-append-drop,
  drop-drop,
}
use interview_agent_py.Evaluation.{QaRecord, QaBatch}
use interview_agent_py.Evaluation.Batches.{range_step, slice, batch_at, split_batches}

-- The pieces `[start, end)` follow one another from `a` to `b`, none empty or longer than `size`.
abbrev pub Tiles : ℕ → ℕ → List (ℕ × ℕ) → ℕ → Type 0
Tiles size a [] b = a ≡ b
Tiles size a ((start, end) ∷ rest) b =
    (start ≡ a) × (start < end) × (end ≤ start + size) × Tiles size end rest b

abbrev pub span : QaBatch → ℕ × ℕ
span batch = (batch.start_index, batch.end_index)

abbrev pub all_records : List QaBatch → List QaRecord
all_records [] = []
all_records (batch ∷ batches) = batch.records ++ all_records batches

drop-all : (n : ℕ) (xs : List QaRecord) → length xs ≤ n → drop n xs ≡ []
drop-all zero [] h = refl
drop-all zero (x ∷ xs) h = absurd (omega arith)
drop-all (suc n) [] h = refl
drop-all (suc n) (x ∷ xs) h = drop-all n xs (omega arith)

module _ (qa : List QaRecord) (size : ℕ) (pos : 0 < size) where
  batches_from : ℕ → ℕ → List QaBatch
  batches_from fuel a = map (batch_at qa size) (range_step fuel a (length qa) size)

  batches-Tiles :
      (fuel a : ℕ)
      → length qa ≤ fuel + a
      → Tiles size (min a (length qa)) (map span (batches_from fuel a)) (length qa)
  unfolding batches_from range_step batch_at
  batches-Tiles zero a h = omega arith
  batches-Tiles (suc fuel) a h = elim (Bool-cases (ltb a (length qa))) [
    | inl more ↦ rw more (
      omega (tests, more),
      omega (tests, more),
      omega (tests, more),
      batches-Tiles fuel (a + size) (omega arith),
    )
    | inr over ↦ rw over (ground arith)
  ]

  slice-append : (a : ℕ) → slice qa a (min (a + size) (length qa)) ++ drop (a + size) qa ≡ drop a qa
  unfolding slice
  slice-append a =
      let e : min (a + size) (length qa) - a ≡ min size (length (drop a qa)) =
        omega (arith, length-drop a qa) in
      rw (e, take-min-length, ← drop-drop) (take-append-drop size (drop a qa))

  records-batches :
      (fuel a : ℕ) → length qa ≤ fuel + a → all_records (batches_from fuel a) ≡ drop a qa
  unfolding batches_from range_step batch_at
  records-batches zero a h = sym (drop-all a qa (omega arith))
  records-batches (suc fuel) a h = elim (Bool-cases (ltb a (length qa))) [
    | inl more ↦ rw (more, records-batches fuel (a + size) (omega arith)) (slice-append a)
    | inr over ↦ rw over (sym (drop-all a qa (ground arith)))
  ]

-- Whatever the batch size, the batches hold the records in their order, each once; their index
-- ranges follow one another from 0 to the number of records, and none is empty or longer than the
-- batch size (at least 1).
pub split_batches-Tiles :
    (qa : List QaRecord) (batch_size : ℕ)
    → (all_records (split_batches qa batch_size) ≡ qa)
      × Tiles (max 1 batch_size) 0 (map span (split_batches qa batch_size)) (length qa)
unfolding split_batches batches_from
split_batches-Tiles qa batch_size =
    let pos : 0 < max 1 batch_size = omega arith in
    let start : min 0 (length qa) ≡ 0 = omega arith in
    (
      records-batches qa (max 1 batch_size) pos (length qa) 0 (omega arith),
      rw start at (batches-Tiles qa (max 1 batch_size) pos (length qa) 0 (omega arith)),
    )
