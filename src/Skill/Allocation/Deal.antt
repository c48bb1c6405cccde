-- ===== src/Skill/Allocation/Deal.antt =====
-- One pass over the categories: what each key holds after it.
use interview_agent_py.Prelude.{
  ℕ, zero, suc, ◌-◌, ◌+◌, ◌≤◌, ◌≡◌, refl, ◌∙◌, List, [], ◌∷◌, ◌++◌, map, some, ltb, if◌then◌else◌,
  Text, ◌=?◌, text_iff, list_eq, nat_eq, length, get_elem?, count, arith, sum, inl, inr, Bool-cases,
}
use interview_agent_py.Prelude.Dict.{get_or, values, get_or-put, sum-values-put}
use interview_agent_py.Skill.{SkillCategory}
use interview_agent_py.Skill.Allocation.{Progress, deal, deal_one, one, one_more}

abbrev pub category_keys : List SkillCategory → List Text
category_keys cats = map (λ c. c.key) cats

unfoldable pub value : Progress → Text → ℕ
value s k = get_or s.allocation k 0

remaining-deal_one :
    (next : ℕ → ℕ) (s : Progress) (cat : SkillCategory)
    → (deal_one next s cat).remaining ≡ s.remaining - 1
unfolding deal_one
remaining-deal_one next s cat = ground arith

pub remaining-deal :
    (next : ℕ → ℕ) (s : Progress) (cats : List SkillCategory)
    → (deal next s cats).remaining ≡ s.remaining - length cats
unfolding deal
remaining-deal next s [] = omega arith
remaining-deal next s (cat ∷ cats) =
    omega (arith, remaining-deal_one next s cat, remaining-deal next (deal_one next s cat) cats)

pub deal-append :
    (next : ℕ → ℕ) (s : Progress) (xs ys : List SkillCategory)
    → deal next (deal next s xs) ys ≡ deal next s (xs ++ ys)
unfolding deal
deal-append next s [] ys = refl
deal-append next s (x ∷ xs) ys = deal-append next (deal_one next s x) xs ys

value-deal_one :
    (next : ℕ → ℕ) (s : Progress) (cat : SkillCategory) (k : Text)
    → value (deal_one next s cat) k ≡ (
        if cat.key =? k
        then (if ltb 0 s.remaining then next (value s k) else value s k)
        else value s k)
unfolding value deal_one
value-deal_one next s cat k = elim (Bool-cases (ltb 0 s.remaining)) [
  | inl more ↦ rw more (
      ground (
        arith,
        get_or-put s.allocation cat.key k (next (get_or s.allocation cat.key 0)),
        text_iff cat.key k,
      ))
  | inr over ↦ rw over (ground arith)
]

-- A key that the pass does not meet keeps its value.
pub value-deal_absent :
    (next : ℕ → ℕ) (s : Progress) (cats : List SkillCategory) (k : Text)
    → count k (category_keys cats) ≡ 0
    → value (deal next s cats) k ≡ value s k
unfolding deal count
value-deal_absent next s [] k h = refl
value-deal_absent next s (cat ∷ cats) k h =
    ground (arith, value-deal_absent next (deal_one next s cat) cats k, value-deal_one next s cat k)

pub count-category_keys :
    (cats : List SkillCategory) (i : ℕ) (c : SkillCategory)
    → get_elem? cats i ≡ some c
    → 1 ≤ count c.key (category_keys cats)
unfolding count
count-category_keys [] i c h = absurd (ground arith)
count-category_keys (cat ∷ cats) zero c h = ground (arith, text_iff cat.key c.key)
count-category_keys (cat ∷ cats) (suc i) c h = omega (arith, count-category_keys cats i c h)

-- The category at place `i` is reached if more than `i` questions remained.
pub value-deal :
    (next : ℕ → ℕ) (s : Progress) (cats : List SkillCategory) (i : ℕ) (c : SkillCategory)
    → ((k : Text) → count k (category_keys cats) ≤ 1)
    → get_elem? cats i ≡ some c
    → value (deal next s cats) c.key
      ≡ (if ltb i s.remaining then next (value s c.key) else value s c.key)
unfolding deal count
value-deal next s [] i c once h = absurd (ground arith)
value-deal next s (cat ∷ cats) zero c once h = ground (
  arith,
  value-deal_absent next (deal_one next s cat) cats c.key,
  value-deal_one next s cat c.key,
  once c.key,
  text_iff cat.key c.key,
)
value-deal next s (cat ∷ cats) (suc i) c once h =
    let later = value-deal next (deal_one next s cat) cats i c (λ k. omega (arith, once k)) h in
    ground (
      arith,
      later,
      value-deal_one next s cat c.key,
      remaining-deal_one next s cat,
      once c.key,
      count-category_keys cats i c h,
      text_iff cat.key c.key,
    )

unfoldable pub total : Progress → ℕ
total s = sum (values s.allocation) + s.remaining

-- Raising an entry by one takes one question.
total-deal_one : (s : Progress) (cat : SkillCategory) → total (deal_one one_more s cat) ≡ total s
unfolding total deal_one
total-deal_one s cat =
    ground (arith, sum-values-put s.allocation cat.key (get_or s.allocation cat.key 0 + 1))

pub total-deal : (s : Progress) (cats : List SkillCategory) → total (deal one_more s cats) ≡ total s
unfolding deal
total-deal s [] = refl
total-deal s (cat ∷ cats) = total-deal (deal_one one_more s cat) cats ∙ total-deal_one s cat

deal_one-one-eq :
    (s : Progress) (cat : SkillCategory)
    → value s cat.key ≡ 0
    → deal_one one s cat ≡ deal_one one_more s cat
unfolding deal_one value
deal_one-one-eq s cat h = let e : get_or s.allocation cat.key 0 + 1 ≡ 1 = omega arith in rw e refl

-- On keys that hold nothing yet, `allocation[key] = 1` is the same as raising by one.
pub deal-one-eq :
    (s : Progress) (cats : List SkillCategory)
    → ((k : Text) → count k (category_keys cats) ≤ 1)
    → ((k : Text) → 1 ≤ count k (category_keys cats) → value s k ≡ 0)
    → deal one s cats ≡ deal one_more s cats
unfolding deal count
deal-one-eq s [] once fresh = refl
deal-one-eq s (cat ∷ cats) once fresh =
    rw (deal_one-one-eq s cat (fresh cat.key (ground (arith, text_iff cat.key cat.key)))) (
      deal-one-eq (deal_one one_more s cat) cats (λ k. omega (arith, once k))
        (λ k listed. ground (arith, once k, fresh k, value-deal_one one_more s cat k)))
