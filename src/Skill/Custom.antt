-- ===== src/Skill/Custom.antt =====
-- domain/services/skill_service.py: skills from a job description, and the reference files of skills.
-- The upper case of a text (`str.upper`) is a parameter.
use interview_agent_py.Prelude.{
  ℕ, List, [], ◌∷◌, ◌++◌, map, Option, none, some, Bool, true, false, not, ◌&&◌, ◌||◌,
  if◌then◌else◌, leb, ltb, ◌==◌, length, take, Text, codes, strip, is_empty, nat_eq, list_eq,
}
use interview_agent_py.Prelude.Dict.{Dict, get, set_default, values}
use interview_agent_py.Skill.{SkillCategory, Skill}

pub record JdCategory : Type 0 where
  pub key : Option Text
  pub label : Option Text
  pub priority : Text
  pub ref : Option Text
  pub shared : Option Bool

pub record RefMapping : Type 0 where
  pub ref : Text
  pub shared : Bool
  pub source_skill_id : Text

abbrev pub max_category_key_length : ℕ
max_category_key_length = 50

abbrev pub max_category_label_length : ℕ
max_category_label_length = 50

-- What `_KEY_SANITIZE_PATTERN` leaves: A to Z, 0 to 9 and the underscore.
unfoldable pub is_upper_letter : ℕ → Bool
is_upper_letter c = leb 65 c && leb c 90

unfoldable pub is_key_char : ℕ → Bool
unfolding is_upper_letter
is_key_char c = is_upper_letter c || leb 48 c && leb c 57 || c == 95

-- After the substitution a character that is a letter is one of A to Z.
unfoldable pub starts_with_letter : Text → Bool
unfolding is_upper_letter
starts_with_letter [] = false
starts_with_letter (c ∷ s) = is_upper_letter c

unfoldable pub sanitize_category_key : (Text → Text) → Option Text → Text
unfolding is_key_char starts_with_letter
sanitize_category_key upper none = codes "UNKNOWN"
sanitize_category_key upper (some key) =
    let trimmed = strip key in
    let cut =
      if ltb max_category_key_length (length trimmed)
      then take max_category_key_length trimmed
      else trimmed in
    let safe = map (λ c. if is_key_char c then c else 95) (upper cut) in
    if is_empty trimmed
    then codes "UNKNOWN"
    else if is_empty safe
    then codes "UNKNOWN"
    else if starts_with_letter safe
    then safe
    else codes "CAT_" ++ safe

-- Each run of line ends becomes one space; the flag says that the run was begun.
unfoldable pub join_lines : Bool → Text → Text
join_lines begun [] = []
join_lines begun (c ∷ s) =
    let in_run = join_lines true s in
    let outside = join_lines false s in
    if c == 10 || c == 13 then if begun then in_run else 32 ∷ in_run else c ∷ outside

unfoldable pub sanitize_category_label : Option Text → Text
unfolding join_lines
sanitize_category_label none = codes "未命名"
sanitize_category_label (some label) =
    let trimmed = join_lines false (strip label) in
    if is_empty (strip label)
    then codes "未命名"
    else if ltb max_category_label_length (length trimmed)
    then take max_category_label_length trimmed
    else trimmed

-- `if text` for a text that may be missing.
abbrev pub is_given : Option Text → Bool
is_given none = false
is_given (some s) = not (is_empty s)

abbrev pub reference_row : Skill → SkillCategory → Text → Text
reference_row skill cat ref =
    codes "| "
    ++ (ref
        ++ (codes " | "
            ++ ((if cat.shared then codes "shared" else codes "skill-local")
                ++ (codes " | " ++ (skill.name ++ (codes " | " ++ (cat.label ++ codes " |\n")))))))

unfoldable pub describe_categories : Dict Text Text → Skill → List SkillCategory → Dict Text Text
describe_categories d skill [] = d
describe_categories d skill (cat ∷ cats) =
    describe_categories
      (elim cat.ref [
        | none ↦ d
        | some ref ↦ if is_empty ref then d else set_default d ref (reference_row skill cat ref)
      ])
      skill cats

unfoldable pub describe_skills : Dict Text Text → List Skill → Dict Text Text
unfolding describe_categories
describe_skills d [] = d
describe_skills d (skill ∷ skills) =
    describe_skills (describe_categories d skill skill.categories) skills

unfoldable pub concat_rows : List Text → Text
concat_rows [] = []
concat_rows (row ∷ rows) = row ++ concat_rows rows

unfoldable pub build_reference_file_list : List Skill → Text
unfolding describe_skills concat_rows
build_reference_file_list skills =
    let ref_descriptions = describe_skills [] skills in
    if is_empty ref_descriptions
    then codes "（无可用参考文件）"
    else codes "| 文件名 | 范围 | 来源 Skill | 覆盖内容 |\n|--------|------|-------------|----------|\n"
      ++ concat_rows (values ref_descriptions)

-- The first mapping of a key stays; that others differ is only logged.
unfoldable pub index_category :
    Dict Text RefMapping → Skill → SkillCategory → Option Text → Dict Text RefMapping
index_category index skill cat none = index
index_category index skill cat (some ref) =
    if not (is_empty ref) && not (is_empty cat.key)
    then set_default index cat.key
        (record { ref = ref; shared = cat.shared; source_skill_id = skill.id })
    else index

unfoldable pub index_categories :
    Dict Text RefMapping → Skill → List SkillCategory → Dict Text RefMapping
unfolding index_category
index_categories index skill [] = index
index_categories index skill (cat ∷ cats) =
    index_categories (index_category index skill cat cat.ref) skill cats

unfoldable pub index_skills : Dict Text RefMapping → List Skill → Dict Text RefMapping
unfolding index_categories
index_skills index [] = index
index_skills index (skill ∷ skills) =
    index_skills (index_categories index skill skill.categories) skills

unfoldable pub build_category_ref_index : List Skill → Dict Text RefMapping
unfolding index_skills
build_category_ref_index skills = index_skills [] skills

-- `bool(shared)`
abbrev pub is_shared : Option Bool → Bool
is_shared none = false
is_shared (some b) = b

module _ (upper : Text → Text) where
  unfoldable pub custom_category : Dict Text RefMapping → JdCategory → SkillCategory
  unfolding sanitize_category_key sanitize_category_label
  custom_category category_ref_index cat =
      let safe_key = sanitize_category_key upper cat.key in
      let safe_label = sanitize_category_label cat.label in
      elim (get category_ref_index safe_key) [
        | some ref_mapping ↦ record {
          key = safe_key;
          label = safe_label;
          priority = cat.priority;
          ref = some ref_mapping.ref;
          shared = ref_mapping.shared;
        }
        | none ↦ record {
          key = safe_key;
          label = safe_label;
          priority = cat.priority;
          ref = cat.ref;
          shared = is_shared cat.shared;
        }
      ]

  unfoldable pub custom_categories : Dict Text RefMapping → List JdCategory → List SkillCategory
  unfolding custom_category
  custom_categories category_ref_index [] = []
  custom_categories category_ref_index (cat ∷ cats) =
      if is_given cat.key && is_given cat.label
      then custom_category category_ref_index cat ∷ custom_categories category_ref_index cats
      else custom_categories category_ref_index cats

  unfoldable pub build_custom_skill : List JdCategory → Dict Text RefMapping → Text → Skill
  unfolding custom_categories
  build_custom_skill cats category_ref_index jd_text = record {
    id = codes "custom";
    name = codes "自定义面试（JD 解析）";
    description = some (codes "基于职位描述提取的面试方向");
    categories = custom_categories category_ref_index cats;
    is_preset = false;
    persona = none;
    source_jd = some jd_text;
    icon = none;
    gradient = none;
    icon_bg = none;
    icon_color = none;
  }
