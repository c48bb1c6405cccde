-- ===== src/Skill/Allocation.antt =====
-- `calculate_allocation` of domain/services/skill_service.py: how many questions each category of a
-- skill gets. The proofs are in the modules below. The number of questions is a natural number
-- (the request schema asks for 3 to 20).
pub mod Deal
pub mod Rounds
pub mod Shares
mod Classes
use interview_agent_py.Prelude.{
  ℕ, zero, suc, ◌-◌, ◌+◌, List, [], ◌∷◌, Bool, true, false, not, ◌&&◌, ◌||◌, ltb, if◌then◌else◌,
  Text, is_empty, filter, ◌=?◌, list_eq, nat_eq,
}
use interview_agent_py.Prelude.Dict.{Dict, get_or, put, set_default}
use interview_agent_py.Skill.{SkillCategory, core, always_one}

-- The two variables of the loops.
pub record Progress : Type 0 where
  pub allocation : Dict Text ℕ
  pub remaining : ℕ

unfoldable pub always_one_cats : List SkillCategory → List SkillCategory
unfolding filter
always_one_cats = filter (λ c. c.priority =? always_one)

unfoldable pub core_cats : List SkillCategory → List SkillCategory
unfolding filter
core_cats = filter (λ c. c.priority =? core)

unfoldable pub normal_cats : List SkillCategory → List SkillCategory
unfolding filter
normal_cats = filter (λ c. not (c.priority =? always_one) && not (c.priority =? core))

-- The body of the loops: while questions remain, the category's entry becomes `next` of what it is.
pub deal_one : (ℕ → ℕ) → Progress → SkillCategory → Progress
deal_one next s cat =
    if ltb 0 s.remaining
    then record {
      allocation = put s.allocation cat.key (next (get_or s.allocation cat.key 0));
      remaining = s.remaining - 1;
    }
    else s

-- `for cat in cats` (`break`, and a guard that fails for the rest of the loop, are the same).
pub deal : (ℕ → ℕ) → Progress → List SkillCategory → Progress
unfolding deal_one
deal next s [] = s
deal next s (cat ∷ cats) = deal next (deal_one next s cat) cats

-- `allocation[cat.key] = 1`
abbrev pub one : ℕ → ℕ
one n = 1

-- `allocation[cat.key] = allocation.get(cat.key, 0) + 1`
abbrev pub one_more : ℕ → ℕ
one_more n = n + 1

-- The `while` loop over the core and the normal categories, on fuel.
pub rotate : ℕ → List SkillCategory → List SkillCategory → Progress → Progress
rotate zero cores normals s = s
rotate (suc fuel) cores normals s =
    let rest = rotate fuel cores normals (deal one_more (deal one_more s cores) normals) in
    if ltb 0 s.remaining && not (is_empty cores && is_empty normals) then rest else s

-- `allocation.setdefault(cat.key, 0)` for every category.
pub default_zero : Dict Text ℕ → List SkillCategory → Dict Text ℕ
default_zero d [] = d
default_zero d (cat ∷ cats) = default_zero (set_default d cat.key 0) cats

-- A round takes at least one question, so `total_questions` rounds are enough.
unfoldable pub calculate_allocation : List SkillCategory → ℕ → Dict Text ℕ
unfolding deal rotate default_zero
calculate_allocation categories total_questions =
    let always = always_one_cats categories in
    let cores = core_cats categories in
    let normals = normal_cats categories in
    let start : Progress = record { allocation = []; remaining = total_questions } in
    let covered = deal one (deal one (deal one start always) cores) normals in
    let rotated = rotate total_questions cores normals covered in
    default_zero (default_zero rotated.allocation cores) normals
