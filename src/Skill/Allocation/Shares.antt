-- ===== src/Skill/Allocation/Shares.antt =====
-- The allocation in closed form, and its total.
use interview_agent_py.Prelude.{
  ℕ, ◌+◌, ◌-◌, ◌≤◌, ◌≡◌, refl, ◌∙◌, ap, sym, min, List, [], ◌++◌, some, if◌then◌else◌, ltb, Text,
  list_eq, nat_eq, count, arith, sum, IsDistinct, IsDistinct-count, length, get_elem?,
  lt-length_of_get_elem?, is_empty,
}
use interview_agent_py.Prelude.Dict.{get_or, get, values}
use interview_agent_py.Skill.{SkillCategory}
use interview_agent_py.Skill.Allocation.{
  Progress, deal, one, one_more, rotate, always_one_cats, core_cats, normal_cats, default_zero,
  calculate_allocation,
}
use interview_agent_py.Skill.Allocation.Deal.{
  category_keys, value, remaining-deal, deal-append, value-deal, value-deal_absent, total,
  total-deal, deal-one-eq, count-category_keys,
}
use interview_agent_py.Skill.Allocation.Rounds.{
  share, share_step, remaining-rotate_cases, total-rotate, value-rotate, value-rotate_absent,
}
use interview_agent_py.Skill.Allocation.Classes.{
  count-classes, count-category_keys-append, get_or-default_zero, sum-default_zero,
}

module _ (cats : List SkillCategory) (n : ℕ) (distinct : IsDistinct (category_keys cats)) where
  always : List SkillCategory
  always = always_one_cats cats

  others : List SkillCategory
  others = core_cats cats ++ normal_cats cats

  start : Progress
  start = record { allocation = []; remaining = n }

  first : Progress
  unfolding start always
  first = deal one start always

  covered : Progress
  covered = deal one (deal one first (core_cats cats)) (normal_cats cats)

  rotated : Progress
  rotated = rotate n (core_cats cats) (normal_cats cats) covered

  once : (k : Text) → count k (category_keys always) + count k (category_keys others) ≤ 1
  unfolding always others
  once k = omega (
    arith,
    count-classes cats k,
    count-category_keys-append (core_cats cats) (normal_cats cats) k,
    IsDistinct-count (category_keys cats) distinct k,
  )

  first-eq : first ≡ deal one_more start always
  unfolding first
  first-eq =
      deal-one-eq start always (λ k. omega (arith, once k))
        (λ k _. unfold start value get_or get in refl)

  first_absent : (k : Text) → count k (category_keys always) ≡ 0 → value first k ≡ 0
  unfolding first
  first_absent k h =
      value-deal_absent one start always k h ∙ (unfold start value get_or get in refl)

  covered-eq : covered ≡ deal one_more first others
  unfolding covered others
  covered-eq =
      deal-append one first (core_cats cats) (normal_cats cats)
      ∙ deal-one-eq first others (λ k. omega (arith, once k))
          (λ k listed. first_absent k (omega (arith, once k)))

  remaining-first : first.remaining ≡ n - length always
  unfolding first
  remaining-first = remaining-deal one start always

  remaining-covered : covered.remaining ≡ n - length always - length others
  remaining-covered =
      rw covered-eq (omega (arith, remaining-deal one_more first others, remaining-first))

  total-covered : total covered ≡ n
  total-covered =
      rw (covered-eq, total-deal, first-eq, total-deal) (unfold start total sum in omega arith)

  -- The total of the finished allocation is that of the rounds.
  sum-allocation : sum (values (calculate_allocation cats n)) ≡ sum (values rotated.allocation)
  unfolding calculate_allocation rotated covered first start always
  sum-allocation =
      sum-default_zero (default_zero rotated.allocation (core_cats cats)) (normal_cats cats)
      ∙ sum-default_zero rotated.allocation (core_cats cats)

  value-allocation : (k : Text) → get_or (calculate_allocation cats n) k 0 ≡ value rotated k
  unfolding calculate_allocation rotated covered first start always value
  value-allocation k =
      get_or-default_zero (default_zero rotated.allocation (core_cats cats)) (normal_cats cats) k
      ∙ get_or-default_zero rotated.allocation (core_cats cats) k

  rotated-total : total rotated ≡ n
  unfolding rotated
  rotated-total = total-rotate n (core_cats cats) (normal_cats cats) covered ∙ total-covered

  value-first :
      (i : ℕ) (c : SkillCategory)
      → get_elem? always i ≡ some c
      → value first c.key ≡ (if ltb i n then 1 else 0)
  unfolding first start value get_or get
  value-first i c at = value-deal one start always i c (λ k. omega (arith, once k)) at

  -- The category at place `i` of those that always have one question gets one, if there are more
  -- than `i` questions, and none otherwise; never a second one.
  pub allocation-always_one :
      (i : ℕ) (c : SkillCategory)
      → get_elem? (always_one_cats cats) i ≡ some c
      → get_or (calculate_allocation cats n) c.key 0 ≡ (if ltb i n then 1 else 0)
  unfolding always others rotated
  allocation-always_one i c at =
      let here = count-category_keys always i c at in
      let absent : count c.key (category_keys others) ≡ 0 = omega (arith, once c.key, here) in
      let parts = count-category_keys-append (core_cats cats) (normal_cats cats) c.key in
      value-allocation c.key
      ∙ value-rotate_absent n (core_cats cats) (normal_cats cats) covered c.key
          (omega (arith, absent, parts)) (omega (arith, absent, parts))
      ∙ ap (λ s. value s c.key) covered-eq
      ∙ value-deal_absent one_more first others c.key absent
      ∙ value-first i c at

  -- What is left is dealt out in turn to the core categories and then the others: the one at place
  -- `i` of these `m` gets `r / m` of the `r` questions left, and one more if `i < r % m`.
  pub allocation-share :
      (i : ℕ) (c : SkillCategory)
      → get_elem? (core_cats cats ++ normal_cats cats) i ≡ some c
      → get_or (calculate_allocation cats n) c.key 0
        ≡ share (n - length (always_one_cats cats)) (length (core_cats cats ++ normal_cats cats)) i
  unfolding always others rotated
  allocation-share i c at =
      let here = count-category_keys others i c at in
      let none_yet = first_absent c.key (omega (arith, once c.key, here)) in
      let inside = lt-length_of_get_elem? others i at in
      let dealt =
        value-rotate (core_cats cats) (normal_cats cats) (omega arith) i c
          (λ k. omega (arith, once k)) at n covered (omega (arith, remaining-covered)) in
      let once_more = value-deal one_more first others i c (λ k. omega (arith, once k)) at in
      value-allocation c.key
      ∙ dealt
      ∙ rw (covered-eq, once_more, none_yet, remaining-deal, remaining-first)
          (sym (share_step (n - length always) (length others) i inside))

  -- All questions are allocated, unless every category is of the kind that gets one at most.
  pub sum-allocation_total : sum (values (calculate_allocation cats n)) ≡ (
      if is_empty (core_cats cats ++ normal_cats cats)
      then min n (length (always_one_cats cats))
      else n)
  unfolding rotated total always others
  sum-allocation_total =
      let left =
        remaining-rotate_cases n (core_cats cats) (normal_cats cats) covered
          (omega (arith, remaining-covered)) in
      rw sum-allocation (ground (arith, left, rotated-total, remaining-covered))
