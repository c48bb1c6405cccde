-- ===== src/Adaptive/Strategy.antt =====
-- domain/services/adaptive_strategy.py: the difficulty and the category of the next question. An
-- average is compared as a fraction of integers; the code divides floats, which compare in the same
-- way for sums below 2 ^ 50.
use interview_agent_py.Prelude.{
  ℕ, zero, suc, ◌+◌, ◌-◌, ◌*◌, ◌≤◌, ◌<◌, ◌≡◌, refl, ap, sym, ◌∙◌, List, [], ◌∷◌, ◌++◌, Option, none,
  some, inl, inr, Bool, true, false, not, ◌&&◌, ◌||◌, if◌then◌else◌, Bool-cases, leb, ltb, ◌=?◌,
  length, Text, codes, is_empty, contains, nat_eq, list_eq, =?-refl, arith, min, get_elem?,
}
use interview_agent_py.Prelude as Prelude
use interview_agent_py.Prelude.Int.{ℤ, pos, pos_part, neg_part, sum_ℤ}
use interview_agent_py.Prelude.Dict.{Dict, values}

pub record StrategyUpdate : Type 0 where
  pub suggested_difficulty : Text
  pub suggested_category : Text

abbrev pub junior : Text
junior = codes "junior"

abbrev pub mid : Text
mid = codes "mid"

abbrev pub senior : Text
senior = codes "senior"

abbrev pub difficulty_levels : List Text
difficulty_levels = junior ∷ mid ∷ senior ∷ []

abbrev pub general : Text
general = codes "通用"

-- A sum of scores with their number: `sum / count < limit`, on the parts of the sum.
abbrev pub below : ℕ → ℤ × ℕ → Bool
below limit (total, count) = ltb (pos_part total) (limit * count + neg_part total)

-- `sum / count <= limit`
abbrev pub at_most : ℕ → ℤ × ℕ → Bool
at_most limit (total, count) = leb (pos_part total) (limit * count + neg_part total)

-- One average is lower than another.
abbrev pub lower_average : ℤ × ℕ → ℤ × ℕ → Bool
lower_average (a, m) (b, n) =
    ltb (pos_part a * n + neg_part b * m) (pos_part b * m + neg_part a * n)

unfoldable pub average_of : List ℤ → ℤ × ℕ
average_of scores = (sum_ℤ scores, length scores)

unfoldable pub concat_scores : List (List ℤ) → List ℤ
concat_scores [] = []
concat_scores (scores ∷ rest) = scores ++ concat_scores rest

-- The average of all scores, 5 if there are none.
unfoldable pub global_average : Dict Text (List ℤ) → ℤ × ℕ
unfolding concat_scores average_of
global_average category_scores =
    let all_scores = concat_scores (values category_scores) in
    if is_empty all_scores then (pos 5, 1) else average_of all_scores

unfoldable pub safe_difficulty : Text → Text
unfolding contains
safe_difficulty current = if contains current difficulty_levels then current else mid

-- `_DIFFICULTY_LEVELS.index(difficulty)` for one of the levels.
unfoldable pub level : Text → ℕ
level difficulty = if difficulty =? junior then 0 else if difficulty =? mid then 1 else 2

-- The branches on whether the average is high, and whether it is low.
unfoldable pub step : Bool → Bool → Text → Text
unfolding level
step high low safe =
    if high && not (safe =? senior)
    then Prelude.get_or difficulty_levels (min (level safe + 1) 2) []
    else if low && not (safe =? junior)
    then Prelude.get_or difficulty_levels (level safe - 1) []
    else safe

unfoldable pub next_difficulty : ℤ × ℕ → Text → Text
unfolding step
next_difficulty average safe = step (not (below 7 average)) (at_most 4 average) safe

-- `min(items, key=...)`: the first of the least items, `less` being the order of their keys.
unfoldable pub least {ℓ} : {A : Type ℓ} → (A → A → Bool) → A → List A → A
least less x [] = x
least less x (y ∷ ys) = if less y x then least less y ys else least less x ys

abbrev pub fewer_scores : Text × List ℤ → Text × List ℤ → Bool
fewer_scores (cat, scores) (cat', scores') = ltb (length scores) (length scores')

abbrev pub weaker : Text × (ℤ × ℕ) → Text × (ℤ × ℕ) → Bool
weaker (cat, average) (cat', average') = lower_average average average'

unfoldable pub category_averages : Dict Text (List ℤ) → Dict Text (ℤ × ℕ)
unfolding average_of
category_averages [] = []
category_averages ((cat, scores) ∷ rest) =
    if is_empty scores
    then category_averages rest
    else (cat, average_of scores) ∷ category_averages rest

-- The branches after the averages, which are not empty, nor are the scores.
unfoldable pub choose : Dict Text (List ℤ) → Dict Text (ℤ × ℕ) → ℕ → ℕ → Text
unfolding least
choose [] averages turn_count max_turns = general
choose (item ∷ items) [] turn_count max_turns = general
choose (item ∷ items) (average ∷ averages) turn_count max_turns =
    let weakest = least weaker average averages in
    let least_covered = least fewer_scores item items in
    if leb max_turns (turn_count + 2)
    then least_covered.0
    else if below 5 weakest.1
    then weakest.0
    else least_covered.0

unfoldable pub pick_next_category : Dict Text (List ℤ) → ℕ → ℕ → Text
unfolding choose category_averages
pick_next_category category_scores turn_count max_turns =
    choose category_scores (category_averages category_scores) turn_count max_turns

unfoldable pub compute_strategy_update : Dict Text (List ℤ) → Text → ℕ → ℕ → StrategyUpdate
unfolding pick_next_category next_difficulty global_average safe_difficulty
compute_strategy_update category_scores current_difficulty turn_count max_turns =
    if is_empty category_scores
    then record { suggested_difficulty = current_difficulty; suggested_category = general }
    else record {
      suggested_difficulty =
          next_difficulty (global_average category_scores) (safe_difficulty current_difficulty);
      suggested_category = pick_next_category category_scores turn_count max_turns;
    }

-- `all(len(scores) >= 2 for scores in ...)`
unfoldable pub all_twice : List (List ℤ) → Bool
all_twice [] = true
all_twice (scores ∷ rest) = leb 2 (length scores) && all_twice rest

unfoldable pub should_end_interview : ℕ → ℕ → Dict Text (List ℤ) → Bool
unfolding all_twice
should_end_interview turn_count max_turns category_scores =
    leb max_turns turn_count || leb max_turns (turn_count + 1) && all_twice (values category_scores)
