-- ===== src/Skill/Allocation/Classes.antt =====
-- The three classes of categories hold each category once; writing zeros changes no value.
use interview_agent_py.Prelude.{
  ℕ, ◌+◌, ◌≡◌, refl, ◌∙◌, List, [], ◌∷◌, ◌++◌, sym, true, Text, ◌=?◌, text_iff, list_eq, nat_eq,
  count, count-append, arith, sum, inl, inr, Bool-cases,
}
use mathlib.Core.List.{map-append}
use interview_agent_py.Prelude.Dict.{
  Dict, get_or, values, get_or-set_default, sum-values-set_default, set_default,
}
use interview_agent_py.Skill.{SkillCategory, core, always_one}
use interview_agent_py.Skill.Allocation.{always_one_cats, core_cats, normal_cats, default_zero}
use interview_agent_py.Skill.Allocation.Deal.{category_keys}

core-ne-always : (p : Text) → (p =? always_one) ≡ true → (p =? core) ≡ true → ⊥
core-ne-always p a c =
    let e : always_one ≡ core = sym ((text_iff p always_one).0 a) ∙ (text_iff p core).0 c in cc

pub count-classes :
    (cats : List SkillCategory) (k : Text)
    → count k (category_keys (always_one_cats cats))
        + (count k (category_keys (core_cats cats)) + count k (category_keys (normal_cats cats)))
      ≡ count k (category_keys cats)
unfolding always_one_cats core_cats normal_cats count
count-classes [] k = refl
count-classes (cat ∷ cats) k =
    let ih = count-classes cats k in
    elim (Bool-cases (cat.priority =? always_one)) [
      | inl a ↦ elim (Bool-cases (cat.priority =? core)) [
        | inl c ↦ absurd (core-ne-always cat.priority a c)
        | inr c ↦ rw (a, c) (omega (arith, ih))
      ]
      | inr a ↦ elim (Bool-cases (cat.priority =? core)) [
        | inl c ↦ rw (a, c) (omega (arith, ih))
        | inr c ↦ rw (a, c) (omega (arith, ih))
      ]
    ]

pub count-category_keys-append :
    (xs ys : List SkillCategory) (k : Text)
    → count k (category_keys (xs ++ ys)) ≡ count k (category_keys xs) + count k (category_keys ys)
count-category_keys-append xs ys k =
    rw map-append (count-append k (category_keys xs) (category_keys ys))

pub get_or-default_zero :
    (d : Dict Text ℕ) (cats : List SkillCategory) (k : Text)
    → get_or (default_zero d cats) k 0 ≡ get_or d k 0
unfolding default_zero
get_or-default_zero d [] k = refl
get_or-default_zero d (cat ∷ cats) k =
    get_or-default_zero (set_default d cat.key 0) cats k ∙ get_or-set_default d cat.key k

pub sum-default_zero :
    (d : Dict Text ℕ) (cats : List SkillCategory)
    → sum (values (default_zero d cats)) ≡ sum (values d)
unfolding default_zero
sum-default_zero d [] = refl
sum-default_zero d (cat ∷ cats) =
    sum-default_zero (set_default d cat.key 0) cats ∙ sum-values-set_default d cat.key
