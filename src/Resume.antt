-- ===== src/Resume.antt =====
-- resume/tailor.py: a résumé for one posting, made of the profile's own projects and skills, with
-- bullets that a model rewrote and the guards accepted, and its document.
pub mod Words
pub mod Select
pub mod Guard
pub mod Tailor
pub mod Latex
pub mod Fit
use job_aggregator.Prelude.{String, Option, List}

-- profile/schema.py
pub record Project : Type 0 where
  pub name : String
  pub tagline : Option String
  pub url : Option String
  pub tech : List String
  pub bullets : List String
  pub tags : List String

pub record SkillGroup : Type 0 where
  pub category : String
  pub items : List String

pub record Link : Type 0 where
  pub label : String
  pub url : String

pub record Contact : Type 0 where
  pub name : String
  pub email : String
  pub phone : Option String
  pub location : Option String
  pub links : List Link

pub record Education : Type 0 where
  pub institution : String
  pub degree : String
  pub location : Option String
  pub start : Option String
  pub end : Option String
  pub grade : Option String
  pub url : Option String

pub record Experience : Type 0 where
  pub company : String
  pub title : String
  pub location : Option String
  pub start : Option String
  pub end : Option String
  pub url : Option String
  pub bullets : List String

pub record Profile : Type 0 where
  pub contact : Contact
  pub summary : Option String
  pub ambitions : Option String
  pub target_roles : List String
  pub education : List Education
  pub experience : List Experience
  pub projects : List Project
  pub skills : List SkillGroup
  pub achievements : List String

-- The kinds of flags, each with the texts that its message names.
pub data Flag : Type 0 where
  unsupported_facts : String → Flag
  added_tech : String → List String → Flag
  kept_originals : String → Flag
  dropped_skills : List String → Flag
  no_skills_row keyword_ranking : Flag
  tailoring_skipped : String → Flag
  lost_numbers : String → Flag
  -- what a trim to one page dropped, by the name of the project
  dropped_bullet dropped_project : String → Flag
