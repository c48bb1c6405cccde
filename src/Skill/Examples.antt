-- ===== src/Skill/Examples.antt =====
-- A skill of four categories, two of them core.
use interview_agent_py.Prelude.{
  ◌≡◌, ◌-◌, refl, List, [], ◌∷◌, ◌++◌, none, false, sum, length, Text, codes, IsDistinct, contains,
  list_eq, nat_eq, list_beq,
}
use interview_agent_py.Prelude.Dict.{get_or, values, get, put, set_default}
use interview_agent_py.Prelude.{some, strip, lstrip, is_space}
use interview_agent_py.Skill.Custom.{
  sanitize_category_key, sanitize_category_label, is_key_char, starts_with_letter, is_upper_letter,
  join_lines,
}
use interview_agent_py.Skill.{SkillCategory, core, always_one}
use interview_agent_py.Skill.Allocation.{
  calculate_allocation, core_cats, normal_cats, always_one_cats,
}
use interview_agent_py.Skill.Allocation.Deal.{category_keys}
use interview_agent_py.Skill.Allocation.Rounds.{share}
use interview_agent_py.Skill.Allocation.Shares.{allocation-share, sum-allocation_total}

abbrev category : Text → Text → SkillCategory
category key priority = record {
  key = key;
  label = key;
  priority = priority;
  ref = none;
  shared = false;
}

abbrev java : List SkillCategory
java =
    category (codes "project") always_one
    ∷ category (codes "mysql") core
    ∷ category (codes "network") (codes "NORMAL")
    ∷ category (codes "redis") core
    ∷ []

java-IsDistinct : IsDistinct (category_keys java)
unfolding contains list_beq
java-IsDistinct = (refl, (refl, (refl, (refl, tt))))

network_gets_two : get_or (calculate_allocation java 8) (codes "network") 0 ≡ 2
unfolding calculate_allocation get_or always_one_cats core_cats normal_cats get list_beq set_default
    put
network_gets_two = refl

allocation-share_example :
    get_or (calculate_allocation java 8) (codes "redis") 0
    ≡ share (8 - length (always_one_cats java)) (length (core_cats java ++ normal_cats java)) 1
unfolding core_cats normal_cats list_beq
allocation-share_example =
    allocation-share java 8 java-IsDistinct 1 (category (codes "redis") core) refl

sum-allocation_total_example : sum (values (calculate_allocation java 8)) ≡ 8
unfolding core_cats normal_cats list_beq
sum-allocation_total_example = sum-allocation_total java 8 java-IsDistinct

-- Two categories of a job description, data bases and clouds, that get the same key.
two_keys_collide :
    sanitize_category_key (λ t. t) (some (codes "数据库"))
    ≡ sanitize_category_key (λ t. t) (some (codes "云计算"))
unfolding sanitize_category_key strip lstrip is_space is_key_char starts_with_letter is_upper_letter
two_keys_collide = refl

lines_are_joined : sanitize_category_label (some (codes " a\r\nb ")) ≡ codes "a b"
unfolding sanitize_category_label strip lstrip is_space join_lines
lines_are_joined = refl
