-- ===== src/Apply/Ats.antt =====
-- apply/ats: the selectors of the application forms that are known, and the form of a host.
use text.Mathlib.Text.{find?}
use job_aggregator.Prelude.{String, Option, none, some, List, [], ◌∷◌, any, if◌then◌else◌, is_some}
use job_aggregator.Apply.Driver.{Selectors}

pub record AtsForm : Type 0 where
  pub name : String
  pub host_markers : List String
  pub selectors : Selectors

-- ATS_FORMS
abbrev pub ats_forms : List AtsForm
ats_forms =
    record {
      name = "greenhouse";
      host_markers = "greenhouse.io" ∷ "boards.greenhouse.io" ∷ "job-boards.greenhouse.io" ∷ [];
      selectors =
          ("first_name", "#first_name" ∷ [])
          ∷ ("last_name", "#last_name" ∷ [])
          ∷ ("email", "#email" ∷ [])
          ∷ ("phone", "#phone" ∷ [])
          ∷ ("linkedin", "input[name*='linkedin' i]" ∷ [])
          ∷ ("resume", "input[type='file'][id*='resume' i], input[type='file']" ∷ [])
          ∷ [];
    }
    ∷ record {
      name = "lever";
      host_markers = "lever.co" ∷ "jobs.lever.co" ∷ [];
      selectors =
          ("full_name", "input[name='name']" ∷ [])
          ∷ ("email", "input[name='email']" ∷ [])
          ∷ ("phone", "input[name='phone']" ∷ [])
          ∷ ("linkedin", "input[name='urls[LinkedIn]']" ∷ [])
          ∷ ("github", "input[name='urls[GitHub]']" ∷ [])
          ∷ ("resume", "input[name='resume'], input[type='file']" ∷ [])
          ∷ [];
    }
    ∷ record {
      name = "ashby";
      host_markers = "ashbyhq.com" ∷ "jobs.ashbyhq.com" ∷ [];
      selectors =
          ("full_name", "input[name*='name' i]" ∷ [])
          ∷ ("email", "input[type='email']" ∷ [])
          ∷ ("phone", "input[type='tel']" ∷ [])
          ∷ ("linkedin", "input[name*='linkedin' i]" ∷ [])
          ∷ ("resume", "input[type='file']" ∷ [])
          ∷ [];
    }
    ∷ record {
      name = "smartrecruiters";
      host_markers = "smartrecruiters.com" ∷ "jobs.smartrecruiters.com" ∷ [];
      selectors =
          ("first_name", "input[name*='first' i]" ∷ [])
          ∷ ("last_name", "input[name*='last' i]" ∷ [])
          ∷ ("email", "input[type='email']" ∷ [])
          ∷ ("phone", "input[type='tel']" ∷ [])
          ∷ ("resume", "input[type='file']" ∷ [])
          ∷ [];
    }
    ∷ []

-- The name of the first form with a marker in the host.
unfoldable pub match_ats : String → List AtsForm → Option AtsForm
match_ats host [] = none
match_ats host (form ∷ forms) =
    let rest = match_ats host forms in
    if any (λ marker. is_some (find? host marker)) form.host_markers then some form else rest
