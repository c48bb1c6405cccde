-- ===== src/Adaptive/Update.antt =====
-- domain/services/adaptive_strategy.py: how far an update of the strategy can go.
use mathlib.Core.Bool.{true≢false}
use interview_agent_py.Prelude.{
  ℕ, ◌+◌, ◌≤◌, ◌<◌, ltb, length, tests, ap, ◌≡◌, ◌⊎◌, refl, sym, ◌∙◌, subst, List, [], ◌∷◌, inl,
  inr, Bool, true, false, not, Bool-cases, leb, ◌=?◌, Text, is_empty, contains, nat_eq, list_eq,
  list_beq, text_iff, arith,
}
use interview_agent_py.Prelude.Int.{ℤ}
use interview_agent_py.Prelude.Dict.{Dict}
use interview_agent_py.Adaptive.Strategy.{
  junior, mid, senior, difficulty_levels, general, below, at_most, global_average, safe_difficulty,
  level, step, next_difficulty, least, fewer_scores, weaker, average_of, category_averages, choose,
  pick_next_category, compute_strategy_update,
}

-- One of the three levels, at most one from `safe`; higher only if the average is high, lower only if
-- it is low.
abbrev pub OneLevel : Bool → Bool → Text → Text → Type 0
OneLevel high low safe difficulty =
    (contains difficulty difficulty_levels ≡ true)
    × (level difficulty ≤ level safe + 1)
    × (level safe ≤ level difficulty + 1)
    × ((level difficulty ≤ level safe) ⊎ (high ≡ true))
    × ((level safe ≤ level difficulty) ⊎ (low ≡ true))

safe_difficulty-cases :
    (d : Text)
    → (safe_difficulty d ≡ junior) ⊎ (safe_difficulty d ≡ mid) ⊎ (safe_difficulty d ≡ senior)
unfolding safe_difficulty contains
safe_difficulty-cases d = elim (Bool-cases (contains d difficulty_levels)) [
  | inr unknown ↦ rw (safe_difficulty, unknown) (inr (inl refl))
  | inl known ↦ elim (Bool-cases (junior =? d)) [
    | inl is_junior ↦ rw (safe_difficulty, known) (inl (sym ((text_iff junior d).0 is_junior)))
    | inr no_junior ↦ elim (Bool-cases (mid =? d)) [
      | inl is_mid ↦ rw (safe_difficulty, known) (inr (inl (sym ((text_iff mid d).0 is_mid))))
      | inr no_mid ↦ elim (Bool-cases (senior =? d)) [
        | inl is_senior ↦
            rw (safe_difficulty, known) (inr (inr (sym ((text_iff senior d).0 is_senior))))
        | inr no_senior ↦ absurd (true≢false (sym known ∙ rw (no_junior, no_mid, no_senior) refl))
      ]
    ]
  ]
]

step_junior : (high low : Bool) → OneLevel high low junior (step high low junior)
unfolding step level contains list_beq
step_junior true low = (refl, omega arith, omega arith, inr refl, inl (omega arith))
step_junior false true = (refl, omega arith, omega arith, inl (omega arith), inl (omega arith))
step_junior false false = (refl, omega arith, omega arith, inl (omega arith), inl (omega arith))

step_mid : (high low : Bool) → OneLevel high low mid (step high low mid)
unfolding step level contains list_beq
step_mid true low = (refl, omega arith, omega arith, inr refl, inl (omega arith))
step_mid false true = (refl, omega arith, omega arith, inl (omega arith), inr refl)
step_mid false false = (refl, omega arith, omega arith, inl (omega arith), inl (omega arith))

step_senior : (high low : Bool) → OneLevel high low senior (step high low senior)
unfolding step level contains list_beq
step_senior true true = (refl, omega arith, omega arith, inl (omega arith), inr refl)
step_senior true false = (refl, omega arith, omega arith, inl (omega arith), inl (omega arith))
step_senior false true = (refl, omega arith, omega arith, inl (omega arith), inr refl)
step_senior false false = (refl, omega arith, omega arith, inl (omega arith), inl (omega arith))

step-OneLevel :
    (high low : Bool) (safe : Text)
    → (safe ≡ junior) ⊎ (safe ≡ mid) ⊎ (safe ≡ senior)
    → OneLevel high low safe (step high low safe)
step-OneLevel high low safe (inl e) = rw e (step_junior high low)
step-OneLevel high low safe (inr (inl e)) = rw e (step_mid high low)
step-OneLevel high low safe (inr (inr e)) = rw e (step_senior high low)

-- An item of a dict.
abbrev pub HasItem : {V : Type 0} → Text × V → Dict Text V → Type 0
HasItem item [] = ⊥
HasItem item (first ∷ items) = (item ≡ first) ⊎ HasItem item items

-- No category has fewer scores.
abbrev pub AllHave : ℕ → Dict Text (List ℤ) → Type 0
AllHave n [] = Unit
AllHave n ((category, scores) ∷ rest) = (n ≤ length scores) × AllHave n rest

-- The category has the fewest scores of all.
abbrev pub IsLeastCovered : Text → Dict Text (List ℤ) → Type 0
IsLeastCovered category category_scores =
    (scores : List ℤ) × HasItem (category, scores) category_scores
    × AllHave (length scores) category_scores

-- The category has scores, with an average below 5.
abbrev pub IsWeak : Text → Dict Text (List ℤ) → Type 0
IsWeak category category_scores =
    (scores : List ℤ) × HasItem (category, scores) category_scores
    × (is_empty scores ≡ false)
    × (below 5 (average_of scores) ≡ true)

-- The general category if there is no score; else the weak one, unless at most two turns are left, or
-- the one with the fewest scores.
abbrev pub IsPicked : Text → Dict Text (List ℤ) → ℕ → ℕ → Type 0
IsPicked category category_scores turn_count max_turns =
    ((category ≡ general) × (category_averages category_scores ≡ []))
    ⊎ IsLeastCovered category category_scores
    ⊎ ((turn_count + 2 < max_turns) × IsWeak category category_scores)

skip-HasItem :
    {V : Type 0} (item x y : Text × V) (ys : Dict Text V)
    → HasItem item (x ∷ ys)
    → HasItem item (x ∷ y ∷ ys)
skip-HasItem item x y ys (inl here) = inl here
skip-HasItem item x y ys (inr there) = inr (inr there)

least-HasItem :
    {V : Type 0} (less : Text × V → Text × V → Bool) (x : Text × V) (ys : Dict Text V)
    → HasItem (least less x ys) (x ∷ ys)
unfolding least
least-HasItem less x [] = inl refl
least-HasItem less x (y ∷ ys) = elim (Bool-cases (less y x)) [
  | inl first ↦
      let e : least less x (y ∷ ys) ≡ least less y ys = rw (least, first) refl in
      subst (λ item. HasItem item (x ∷ y ∷ ys)) (sym e) (inr (least-HasItem less y ys))
  | inr later ↦
      let e : least less x (y ∷ ys) ≡ least less x ys = rw (least, later) refl in
      subst (λ item. HasItem item (x ∷ y ∷ ys)) (sym e)
        (skip-HasItem (least less x ys) x y ys (least-HasItem less x ys))
]

least-AllHave :
    (x : Text × List ℤ) (ys : Dict Text (List ℤ))
    → AllHave (length (least fewer_scores x ys).1) (x ∷ ys)
unfolding least
least-AllHave x [] = (omega arith, tt)
least-AllHave x (y ∷ ys) = elim (Bool-cases (ltb (length y.1) (length x.1))) [
  | inl first ↦
      let fewest = least-AllHave y ys in
      let e : least fewer_scores x (y ∷ ys) ≡ least fewer_scores y ys = rw (least, first) refl in
      subst (λ item. AllHave (length item.1) (x ∷ y ∷ ys)) (sym e)
        (omega (tests, first, fewest.0), (fewest.0, fewest.1))
  | inr later ↦
      let fewest = least-AllHave x ys in
      let e : least fewer_scores x (y ∷ ys) ≡ least fewer_scores x ys = rw (least, later) refl in
      let not_fewer : length x.1 ≤ length y.1 = ground (arith, later) in
      subst (λ item. AllHave (length item.1) (x ∷ y ∷ ys)) (sym e)
        (fewest.0, (omega (arith, fewest.0, not_fewer), fewest.1))
]

category_averages-HasItem :
    (d : Dict Text (List ℤ)) (category : Text) (average : ℤ × ℕ)
    → HasItem (category, average) (category_averages d)
    → (scores : List ℤ) × HasItem (category, scores) d
      × (is_empty scores ≡ false)
      × (average ≡ average_of scores)
unfolding category_averages
category_averages-HasItem [] category average h = elim h [ ]
category_averages-HasItem ((cat, scores) ∷ d) category average h =
    elim (Bool-cases (is_empty scores)) [
      | inl nothing ↦
          let rest =
            category_averages-HasItem d category average (rw (category_averages, nothing) at h) in
          (rest.0, inr rest.1, rest.2, rest.3)
      | inr something ↦
          kept something (λ there. category_averages-HasItem d category average there)
            (rw (category_averages, something) at h)
    ]
  where
    kept :
        is_empty scores ≡ false
        → (HasItem (category, average) (category_averages d)
            → (found : List ℤ) × HasItem (category, found) d
              × (is_empty found ≡ false)
              × (average ≡ average_of found))
        → HasItem (category, average) ((cat, average_of scores) ∷ category_averages d)
        → (found : List ℤ) × HasItem (category, found) ((cat, scores) ∷ d)
          × (is_empty found ≡ false)
          × (average ≡ average_of found)
    kept something rest (inl same) =
        (scores, inl (ap (λ item. (item.0, scores)) same), something, ap (λ item. item.1) same)
    kept something rest (inr there) =
        let found = rest there in (found.0, inr found.1, found.2, found.3)

choose-IsPicked :
    (d : Dict Text (List ℤ)) (averages : Dict Text (ℤ × ℕ)) (turn_count max_turns : ℕ)
    → is_empty d ≡ false
    → category_averages d ≡ averages
    → IsPicked (choose d averages turn_count max_turns) d turn_count max_turns
unfolding choose
choose-IsPicked [] averages turn_count max_turns entries same = absurd (ground arith)
choose-IsPicked (item ∷ items) [] turn_count max_turns entries same = inl (refl, same)
choose-IsPicked (item ∷ items) (average ∷ averages) turn_count max_turns entries same =
    let fewest = least fewer_scores item items in
    let least_covered : IsLeastCovered fewest.0 (item ∷ items) =
      (fewest.1, least-HasItem fewer_scores item items, least-AllHave item items) in
    let weakest = least weaker average averages in
    let Picked = λ (category : Text). IsPicked category (item ∷ items) turn_count max_turns in
    elim (Bool-cases (leb max_turns (turn_count + 2))) [
      | inl near ↦
          let e : choose (item ∷ items) (average ∷ averages) turn_count max_turns ≡ fewest.0 =
            rw (choose, near) refl in
          subst Picked (sym e) (inr (inl least_covered))
      | inr early ↦ elim (Bool-cases (below 5 weakest.1)) [
        | inr fair ↦
            let e : choose (item ∷ items) (average ∷ averages) turn_count max_turns ≡ fewest.0 =
              rw (choose, early, fair) refl in
            subst Picked (sym e) (inr (inl least_covered))
        | inl weak ↦
            let e : choose (item ∷ items) (average ∷ averages) turn_count max_turns ≡ weakest.0 =
              rw (choose, early, weak) refl in
            let found =
              category_averages-HasItem (item ∷ items) weakest.0 weakest.1
                (subst (HasItem weakest) (sym same) (least-HasItem weaker average averages)) in
            subst Picked (sym e) (
              inr (
                inr (
                  ground (arith, early),
                  (found.0, found.1, found.2, subst (λ a. below 5 a ≡ true) found.3 weak),
                )))
      ]
    ]

-- If category_scores has an entry, the difficulty that is suggested is one of the three levels, at most
-- one from the current one (or from mid, if that is none of the three), higher only if the average of all
-- scores is at least 7 and lower only if it is at most 4; and the category is the general one, with no
-- score anywhere, or an entry with the fewest scores, maybe none, or, with more than two turns left, one
-- whose own average is below 5.
pub compute_strategy_update-OneLevel :
    (category_scores : Dict Text (List ℤ)) (current_difficulty : Text) (turn_count max_turns : ℕ)
    → is_empty category_scores ≡ false
    → let update =
        compute_strategy_update category_scores current_difficulty turn_count max_turns in
      let average = global_average category_scores in
      OneLevel
        (not (below 7 average))
        (at_most 4 average)
        (safe_difficulty current_difficulty)
        update.suggested_difficulty
      × IsPicked update.suggested_category category_scores turn_count max_turns
unfolding compute_strategy_update next_difficulty pick_next_category
compute_strategy_update-OneLevel [] current_difficulty turn_count max_turns some_scores =
    absurd (ground arith)
compute_strategy_update-OneLevel (item ∷ items) current_difficulty turn_count max_turns
      some_scores =
    (
      step-OneLevel _ _ (safe_difficulty current_difficulty)
          (safe_difficulty-cases current_difficulty),
      choose-IsPicked (item ∷ items) (category_averages (item ∷ items)) turn_count max_turns refl
          refl,
    )
