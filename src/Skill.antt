-- ===== src/Skill.antt =====
-- domain/entities/skill.py: skills and their categories. A priority is a text, as in the source.
pub mod Allocation
pub mod Custom
mod Examples
use interview_agent_py.Prelude.{List, Option, Bool, Text, codes}

pub record SkillCategory : Type 0 where
  pub key : Text
  pub label : Text
  pub priority : Text
  pub ref : Option Text
  pub shared : Bool

abbrev pub core : Text
core = codes "CORE"

abbrev pub always_one : Text
always_one = codes "ALWAYS_ONE"

pub record Skill : Type 0 where
  pub id : Text
  pub name : Text
  pub description : Option Text
  pub categories : List SkillCategory
  pub is_preset : Bool
  pub persona : Option Text
  pub source_jd : Option Text
  pub icon : Option Text
  pub gradient : Option Text
  pub icon_bg : Option Text
  pub icon_color : Option Text
