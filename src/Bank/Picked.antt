-- ===== src/Bank/Picked.antt =====
-- domain/services/question_bank.py: what `_pick_follow_ups` draws from a pool.
use mathlib.Core.List.{Perm, append-nil}
use mathlib.Core.List.Perm
use interview_agent_py.Prelude.{
  ℕ, zero, suc, ◌+◌, ◌≤◌, ◌≡◌, refl, List, [], ◌++◌, inl, inr, Bool-cases, ◌==◌, ltb, false, length,
  take, drop, length-take, take-append-drop, arith,
}
use interview_agent_py.Prelude.Permutations.{swap, swap-Perm, length-Perm}
use interview_agent_py.Errors.{ok}
use interview_agent_py.Bank.{Random, QuestionBankFollowUp, exchange, pick_follow_ups}

-- A draw of `count` different places of the pool.
abbrev pub Drawn : List QuestionBankFollowUp → ℕ → List QuestionBankFollowUp → Type 0
Drawn pool count picked =
    (length picked ≡ count) × ((left : List QuestionBankFollowUp) × Perm (picked ++ left) pool)

module _ (rng : Random) where
  open rng use {State, randrange, randrange-InRange}

  exchange-Perm :
      (n i : ℕ) (copy : List QuestionBankFollowUp) (s : State)
      → i + n ≤ length copy
      → Perm (exchange rng n i copy s).0 copy
  unfolding exchange
  exchange-Perm zero i copy s fits = Perm.rfl
  exchange-Perm (suc n) i copy s fits =
      let drawn = randrange i (length copy) s in
      let in_range = randrange-InRange i (length copy) s (omega arith) in
      let one = swap-Perm copy i drawn.0 in_range.0 in
      Perm.trans
        (exchange-Perm n (i + 1) (swap copy i drawn.0) drawn.1 (omega (arith, length-Perm one))) one

  -- From a pool that is large enough, exactly `count` follow-ups are drawn, from different places.
  pub pick_follow_ups-Drawn :
      (pool : List QuestionBankFollowUp) (count : ℕ) (s : State)
      → count ≤ length pool
      → (picked : List QuestionBankFollowUp) × (s' : State) × (pick_follow_ups rng pool count s
          ≡ ok (picked, s'))
        × Drawn pool count picked
  unfolding pick_follow_ups
  pick_follow_ups-Drawn pool count s enough = elim (Bool-cases (count == 0)) [
    | inl zero_count ↦ ([], s, rw zero_count refl, (ground arith, (pool, Perm.rfl)))
    | inr some_count ↦
        let enough' : ltb (length pool) count ≡ false = ground arith in
        elim (Bool-cases (length pool == count)) [
          | inl all_of_it ↦ (
            pool,
            s,
            rw (some_count, enough', all_of_it) refl,
            (ground arith, ([], rw append-nil Perm.rfl)),
          )
          | inr more ↦
              let done = exchange rng count 0 pool s in
              let moved = exchange-Perm count 0 pool s (omega arith) in
              (
                take count done.0,
                done.1,
                rw (some_count, enough', more) refl,
                (
                  omega (arith, length-take count done.0, length-Perm moved),
                  (drop count done.0, rw (take-append-drop count done.0) moved),
                ),
              )
        ]
  ]
