-- ===== src/Examples/Apply.antt =====
-- The laws of the apply agent at an example machine.
use job_aggregator.Prelude.{
  String, none, Option, false, ◌==◌, if◌then◌else◌, true, some, [], ◌∷◌, ◌≡◌, refl, All, not,
}
use job_aggregator.Models.Amount.{pos}
use job_aggregator.Apply.Driver.{Page, fill_page}
use job_aggregator.Apply.Driver.Allowed.{IsAllowed, fill_page-IsAllowed}
use job_aggregator.Apply.Fields.{ApplicationFields, Field, Grounder, object}
use job_aggregator.Apply.Report.{Transcript, extract_result_text, parse_agent_report, report_of}
use job_aggregator.Apply.Report.Last.{parse_agent_report-last}
use job_aggregator.Apply.Procs.{is_apply_proc, Host, read_pids, stop_all}
use job_aggregator.Apply.Procs.Stop.{
  IsOurs, has, is_term, n_signals, n_sent, stop_all-IsOurs, stop_all-stuck,
}

-- Every process is an apply agent, and the file always lists 41 and 42, the first twice.
abbrev pub host : Host
host = record {
  split = λ text. "41" ∷ "42" ∷ "41" ∷ [];
  is_digits = λ word. true;
  int = λ word. if word == "41" then 41 else 42;
  str = λ n. "41";
  cmdline = λ n pid. some "python -m job_aggregator apply x";
  group_of = λ pid. some pid;
  signals_group = λ group. true;
  is_writable = true;
}

stop_all-IsOurs_example :
    All (IsOurs host (some "pids") 0) (stop_all host 0 (some "pids")).sent
    × ((stop_all host 0 (some "pids")).signalled
        ≡ n_signals is_term (stop_all host 0 (some "pids")).sent)
stop_all-IsOurs_example = stop_all-IsOurs host 0 (some "pids")

registered : has (read_pids host (some "pids")) 41 ≡ true
unfolding read_pids
registered = refl

stop_all-stuck_example :
    (n_sent is_term 41 (stop_all host 0 (some "pids")).sent ≡ 1)
    × (n_sent (λ s. not (is_term s)) 41 (stop_all host 0 (some "pids")).sent ≡ 1)
stop_all-stuck_example =
    stop_all-stuck host 0 (some "pids") 41 registered (λ at. unfold is_apply_proc in refl)

abbrev grounder : Grounder
grounder = record {
  strip = λ t. t;
  repr = λ t. t;
  str = λ n. "0";
  int = λ key. some (pos 0);
  loads = λ text. object (("0", some "Ada Lovelace") ∷ []);
  dumps = λ pairs. "{}";
}

abbrev application : ApplicationFields
application = record {
  full_name = "Ada Lovelace";
  first_name = "Ada";
  last_name = "Lovelace";
  email = "ada@example.com";
  resume_path = "resume.pdf";
  phone = none;
  location = none;
  linkedin = none;
  github = none;
  cover_note = none;
  extra_context = none;
  background = none;
}

-- A form with an empty name field and an e-mail input.
abbrev name_field : Field
name_field = record {
  index = 0;
  tag = "input";
  kind = "text";
  name = "name";
  label = "Your name";
  x = 10;
  y = 20;
  value = "";
  is_file = false;
}

abbrev page : Page
page = record { has = λ acts css. true; rows = λ acts. name_field ∷ [] }

abbrev answering : Option (String → Option String)
answering = some (λ prompt. some "{\"0\": \"Ada Lovelace\"}")

fill_page-IsAllowed_example :
    IsAllowed grounder application page false
      (fill_page page grounder answering application (("email", "#email" ∷ []) ∷ [])).acts
fill_page-IsAllowed_example =
    fill_page-IsAllowed grounder application page answering (("email", "#email" ∷ []) ∷ [])

abbrev transcript : Transcript
transcript = record {
  strip = λ t. t;
  splitlines = λ t. if t == "stream" then "{}" ∷ [] else "RESULT: {}" ∷ [];
  last_300 = λ t. t;
  result_event = λ t. some ("said", false);
  payload = λ t. none;
  behind_prefix = λ t. t;
}

parse_agent_report-last_example :
    (extract_result_text transcript "stream" ≡ ("said", false))
    × (parse_agent_report transcript (extract_result_text transcript "stream").0
        ≡ report_of transcript "said" "RESULT: {}")
parse_agent_report-last_example =
    parse_agent_report-last transcript "stream" "said" false [] [] [] [] "{}" "RESULT: {}" refl refl
      tt refl refl tt
