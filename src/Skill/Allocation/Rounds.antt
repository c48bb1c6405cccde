-- ===== src/Skill/Allocation/Rounds.antt =====
-- The rounds: they go on until no question remains, and deal the questions out in turn.
use interview_agent_py.Prelude.{
  ℕ, zero, suc, ◌-◌, ◌+◌, ◌/◌, ◌%◌, ◌≤◌, ◌<◌, ◌≡◌, refl, ap, ◌∙◌, List, [], ◌∷◌, ◌++◌, true, false,
  some, ltb, if◌then◌else◌, Text, list_eq, nat_eq, length, get_elem?, count, arith, inl, inr,
  Bool-cases, tests, lt-length_of_get_elem?, not, ◌&&◌, is_empty,
}
use native.Mathlib.Decide.{dec_lt}
use native.Mathlib.Nat.{div-eq_of_lt, mod-eq_of_lt, div-eq-sub-div, mod-eq-sub-mod}
use interview_agent_py.Skill.{SkillCategory}
use interview_agent_py.Skill.Allocation.{Progress, deal, one_more, rotate}
use interview_agent_py.Skill.Allocation.Deal.{
  category_keys, value, remaining-deal, deal-append, value-deal, value-deal_absent, total,
  total-deal,
}

-- What place `i` of `m` gets when `r` questions are dealt out in turn.
pub share : ℕ → ℕ → ℕ → ℕ
share r m i = r / m + (if ltb i (r % m) then 1 else 0)

pub share_step : (r m i : ℕ) → i < m → share r m i ≡ (if ltb i r then 1 else 0) + share (r - m) m i
unfolding share
share_step r m i h = elim (dec_lt r m) [
  | yes less ↦
      let none_left : r - m ≡ 0 = omega arith in
      rw (none_left, div-eq_of_lt less, mod-eq_of_lt less)
        (ground (
          arith,
          div-eq_of_lt {n = 0} {m = m} (omega arith),
          mod-eq_of_lt {n = 0} {m = m} (omega arith),
        ))
  | no more ↦
      let pos : 0 < m = omega arith in
      let enough : m ≤ r = omega arith in
      ground (arith, div-eq-sub-div pos enough, mod-eq-sub-mod enough)
]

share_zero : (r m i : ℕ) → i < m → r ≡ 0 → share r m i ≡ 0
unfolding share
share_zero r m i h e = rw e (
    ground (
      arith,
      div-eq_of_lt {n = 0} {m = m} (omega arith),
      mod-eq_of_lt {n = 0} {m = m} (omega arith),
    ))

not-both_empty :
    (xs ys : List SkillCategory) → 0 < length (xs ++ ys) → not (is_empty xs && is_empty ys) ≡ true
not-both_empty [] [] h = absurd (omega arith)
not-both_empty [] (y ∷ ys) h = refl
not-both_empty (x ∷ xs) ys h = refl

-- A round over both lists is one pass over all of them.
module _ (cores normals : List SkillCategory) (some_cats : 0 < length (cores ++ normals)) where
  round : Progress → Progress
  round s = deal one_more (deal one_more s cores) normals

  round-eq : (s : Progress) → round s ≡ deal one_more s (cores ++ normals)
  unfolding round
  round-eq s = deal-append one_more s cores normals

  remaining-round : (s : Progress) → (round s).remaining ≡ s.remaining - length (cores ++ normals)
  remaining-round s = rw round-eq (remaining-deal one_more s (cores ++ normals))

  rotate_more :
      (fuel : ℕ) (s : Progress)
      → ltb 0 s.remaining ≡ true
      → rotate (suc fuel) cores normals s ≡ rotate fuel cores normals (round s)
  unfolding rotate round
  rotate_more fuel s more = rw (more, not-both_empty cores normals some_cats) refl

  rotate_done :
      (fuel : ℕ) (s : Progress) → ltb 0 s.remaining ≡ false → rotate fuel cores normals s ≡ s
  unfolding rotate
  rotate_done zero s over = refl
  rotate_done (suc fuel) s over = rw over refl

  -- With as much fuel as questions, none remains.
  pub remaining-rotate :
      (fuel : ℕ) (s : Progress) → s.remaining ≤ fuel → (rotate fuel cores normals s).remaining ≡ 0
  remaining-rotate zero s h = rw (rotate_done zero s (ground arith)) (omega arith)
  remaining-rotate (suc fuel) s h = elim (Bool-cases (ltb 0 s.remaining)) [
    | inl more ↦
        rw (rotate_more fuel s more)
          (remaining-rotate fuel (round s) (omega (tests, more, remaining-round s)))
    | inr over ↦ rw (rotate_done (suc fuel) s over) (ground arith)
  ]

  module _ (i : ℕ) (c : SkillCategory)
      (once : (k : Text) → count k (category_keys (cores ++ normals)) ≤ 1)
      (at : get_elem? (cores ++ normals) i ≡ some c) where
    inside : i < length (cores ++ normals)
    inside = lt-length_of_get_elem? (cores ++ normals) i at

    value-round :
        (s : Progress)
        → value (round s) c.key ≡ value s c.key + (if ltb i s.remaining then 1 else 0)
    value-round s =
        rw round-eq (ground (arith, value-deal one_more s (cores ++ normals) i c once at))

    -- The category at place `i` gets its share of what remained.
    pub value-rotate :
        (fuel : ℕ) (s : Progress)
        → s.remaining ≤ fuel
        → value (rotate fuel cores normals s) c.key
          ≡ value s c.key + share s.remaining (length (cores ++ normals)) i
    value-rotate zero s h =
        rw (rotate_done zero s (ground arith))
          (omega (arith, share_zero s.remaining _ i inside (omega arith)))
    value-rotate (suc fuel) s h = elim (Bool-cases (ltb 0 s.remaining)) [
      | inl more ↦ rw (rotate_more fuel s more) (
          omega (
            arith,
            value-rotate fuel (round s) (omega (tests, more, remaining-round s)),
            value-round s,
            ap (λ r. share r (length (cores ++ normals)) i) (remaining-round s),
            share_step s.remaining (length (cores ++ normals)) i inside,
          ))
      | inr over ↦
          rw (rotate_done (suc fuel) s over)
            (omega (arith, share_zero s.remaining _ i inside (ground arith)))
    ]

-- A key of no category in the rounds keeps its value.
pub value-rotate_absent :
    (fuel : ℕ) (cores normals : List SkillCategory) (s : Progress) (k : Text)
    → count k (category_keys cores) ≡ 0
    → count k (category_keys normals) ≡ 0
    → value (rotate fuel cores normals s) k ≡ value s k
unfolding rotate
value-rotate_absent zero cores normals s k hc hn = refl
value-rotate_absent (suc fuel) cores normals s k hc hn =
    let dealt = deal one_more (deal one_more s cores) normals in
    let kept =
      value-deal_absent one_more (deal one_more s cores) normals k hn
      ∙ value-deal_absent one_more s cores k hc in
    elim (Bool-cases (ltb 0 s.remaining && not (is_empty cores && is_empty normals))) [
      | inl more ↦ rw more (value-rotate_absent fuel cores normals dealt k hc hn ∙ kept)
      | inr over ↦ rw over refl
    ]

-- With nobody to deal to, the rounds do nothing.
pub rotate-nil : (fuel : ℕ) (s : Progress) → rotate fuel [] [] s ≡ s
unfolding rotate
rotate-nil zero s = refl
rotate-nil (suc fuel) s = ground arith

-- The rounds move questions from `remaining` to the entries.
pub total-rotate :
    (fuel : ℕ) (cores normals : List SkillCategory) (s : Progress)
    → total (rotate fuel cores normals s) ≡ total s
unfolding rotate
total-rotate zero cores normals s = refl
total-rotate (suc fuel) cores normals s =
    let dealt = deal one_more (deal one_more s cores) normals in
    let kept = total-deal (deal one_more s cores) normals ∙ total-deal s cores in
    elim (Bool-cases (ltb 0 s.remaining && not (is_empty cores && is_empty normals))) [
      | inl more ↦ rw more (total-rotate fuel cores normals dealt ∙ kept)
      | inr over ↦ rw over refl
    ]

-- What the rounds leave over.
pub remaining-rotate_cases :
    (fuel : ℕ) (cores normals : List SkillCategory) (s : Progress)
    → s.remaining ≤ fuel
    → (rotate fuel cores normals s).remaining
      ≡ (if is_empty (cores ++ normals) then s.remaining else 0)
remaining-rotate_cases fuel [] [] s h = ap (λ t. t.remaining) (rotate-nil fuel s)
remaining-rotate_cases fuel [] (y ∷ ys) s h = remaining-rotate [] (y ∷ ys) (omega arith) fuel s h
remaining-rotate_cases fuel (x ∷ xs) ys s h = remaining-rotate (x ∷ xs) ys (omega arith) fuel s h
