-- ===== src/Dashboard/Launch.antt =====
-- dashboard/routes_jobs.py: the context that the user gives for a posting, and the routes that start
-- and stop the apply agent. The machine that the dashboard runs on is the record `Desk`.
pub mod Laws
use Prim.Native.String
use Prim.Native.String.{◌++◌ as text_append}
use job_aggregator.Prelude.{
  given, ℕ, String, Bool, true, false, not, ◌&&◌, ◌||◌, Option, none, some, List, [], ◌∷◌, ◌==◌,
  coalesce, eqb, holds, if◌then◌else◌, is_some, length, reverse,
}
use job_aggregator.Errors.{Error, Result, ok, raise, ◌>>=◌, not_found, or_raise, value_error}
use job_aggregator.Models.Amount.{ℤ, pos, negsuc}
use job_aggregator.Storage.{Row, find}
use job_aggregator.Storage.Flags.{Value, null, plain, set_user_flag}
use job_aggregator.Apply.Procs.{Host, live_pids, register_pid, stop_all}

-- The file /.dockerenv, the variables of the display, the packages found, the LaTeX engines, the
-- PID that Popen gives and the exit code after the grace period, `none` for a process that still
-- runs; the text of the log, `none` for an OSError, and the search for an error word in a line.
-- Opening the log and the PID file is `none`, or the exception that it raises.
pub record Desk : Type 0 where
  pub strip : String → String
  pub splitlines : String → List String
  pub in_docker : Bool
  pub display : Option String
  pub wayland_display : Option String
  pub has_playwright : Bool
  pub has_cryptography : Bool
  pub tectonic : Option String
  pub pdflatex : Option String
  pub opens_log : Option Error
  pub spawned : Result ℕ
  pub opens_registry : Option Error
  pub returncode : Option ℤ
  pub log_text : Option String
  pub is_error_line : String → Bool
  pub host : Host

abbrev pub is_zero : ℤ → Bool
is_zero (pos n) = eqb n 0
is_zero (negsuc n) = false

-- A set_user_flag whose answer is not used.
unfoldable pub write_flag : List Row → String → String → Value → Result (List Row)
write_flag rows uid name v = elim (set_user_flag rows uid name v) [
  | none ↦ raise value_error
  | some out ↦ ok out.0
]

-- What the apply route answers.
pub record Reply : Type 0 where
  pub is_ok : Bool
  pub message : String

-- The table and the PID file that the apply route leaves, the PID of the agent if one was started, and
-- the answer or the exception.
pub record Launch : Type 0 where
  pub rows : List Row
  pub registry : Option String
  pub launched : Option ℕ
  pub answer : Result Reply

module _ (desk : Desk) where
  open desk use {
    strip, splitlines, in_docker, display, wayland_display, has_playwright, has_cryptography,
    tectonic, pdflatex, opens_log, spawned, opens_registry, returncode, log_text, is_error_line,
    host,
  }

  -- text.strip() or None, as a value to store
  abbrev pub cleaned : String → Value
  cleaned text = if strip text == "" then null else plain (strip text)

  unfoldable pub effective_context : List Row → String → Option String → Result (List Row × String)
  unfolding write_flag
  effective_context rows uid none =
      ok (rows, elim (find uid rows) [ none ↦ "" | some r ↦ coalesce r.extra_context "" ])
  effective_context rows uid (some sent) = do
    rows' ← write_flag rows uid "extra_context" (cleaned sent)
    ok (rows', strip sent)

  unfoldable pub job_context : List Row → String → String → Result (List Row)
  job_context rows uid extra_context =
      if is_some (find uid rows)
      then write_flag rows uid "extra_context" (cleaned extra_context)
      else raise not_found

  -- The reason why the agent cannot run here.
  unfoldable pub apply_preflight : String → Option String
  apply_preflight uid =
      if in_docker || not (given display || given wayland_display)
      then some (
          text_append
            "This dashboard runs in Docker/headless, so it cannot open a browser window here. Run the agent on your desktop instead:  python -m job_aggregator apply "
            (text_append uid
              "  (repo root, conda env job-aggregator; it opens its OWN Chromium window — your default browser isn't used)."))
      else if not has_playwright || not has_cryptography
      then some
          "The apply extra is not installed in this environment. Run: pip install -e '.[apply]' && playwright install chromium — then retry."
      else if not (given tectonic || given pdflatex)
      then some
          "No LaTeX engine found (tectonic or pdflatex) — the agent tailors a résumé PDF before filling. Install tectonic (or texlive) and retry."
      else none

  -- The loop over the lines, last line first.
  unfoldable pub last_error : List String → Option String
  last_error [] = none
  last_error (line ∷ lines) =
      let rest = last_error lines in
      if is_error_line line && not (strip line == "Traceback (most recent call last):")
      then some (strip line)
      else rest

  abbrev pub tail_of : List String → String
  tail_of [] = "no output captured"
  tail_of (line ∷ lines) = coalesce (last_error (line ∷ lines)) (strip line)

  abbrev pub tail_of_log : Option String → String
  tail_of_log none = "no output captured"
  tail_of_log (some text) = tail_of (reverse (splitlines (strip text)))

  unfoldable pub apply_log_tail : String
  apply_log_tail = tail_of_log log_text

  abbrev pub persisted : List Row → String → Option String → Result (List Row)
  persisted rows uid none = ok rows
  persisted rows uid (some sent) = do out ← effective_context rows uid (some sent); ok (out.0)

  -- The answer for an agent that was started and registered.
  unfoldable pub reply : Reply
  unfolding apply_log_tail
  reply =
      let died = holds (λ code. not (is_zero code)) returncode in
      record {
        is_ok = not died;
        message =
            if died
            then text_append "Apply agent exited immediately: " apply_log_tail
            else "Chromium is opening with the form pre-filled — review, submit it yourself, then close that window. (The agent marks the job applied when the fill completes.) Use the Stop button in the header to abort it at any time.";
      }

  -- register_pid, whose OSError leaves a started agent that is not registered.
  abbrev pub registered : List Row → Option String → ℕ → Option Error → Launch
  registered rows registry pid (some e) = record {
    rows = rows;
    registry = registry;
    launched = some pid;
    answer = raise e;
  }
  registered rows registry pid none = record {
    rows = rows;
    registry = register_pid host registry pid;
    launched = some pid;
    answer = ok reply;
  }

  abbrev pub not_started : List Row → Option String → Result Reply → Launch
  not_started rows registry answer = record {
    rows = rows;
    registry = registry;
    launched = none;
    answer = answer;
  }

  abbrev pub popen : List Row → Option String → Result ℕ → Launch
  popen rows registry (raise e) = not_started rows registry (raise e)
  popen rows registry (ok pid) = registered rows registry pid opens_registry

  abbrev pub logged : List Row → Option String → Option Error → Launch
  logged rows registry (some e) = not_started rows registry (raise e)
  logged rows registry none = popen rows registry spawned

  -- _launch_apply, and the answer after the grace period.
  unfoldable pub spawn : List Row → Option String → Launch
  unfolding register_pid reply
  spawn rows registry = logged rows registry opens_log

  abbrev pub refuse : List Row → Option String → String → Launch
  refuse rows registry message =
      not_started rows registry (ok (record { is_ok = false; message = message }))

  unfoldable pub launch : Bool → List Row → Option String → String → Launch
  unfolding apply_preflight spawn
  launch enabled rows registry uid =
      if not enabled
      then refuse rows registry
          "Apply agent is off. Set apply.enabled: true, install '.[apply]' + `playwright install chromium`, and run serve on your desktop."
      else elim (apply_preflight uid) [
        | some reason ↦ refuse rows registry reason
        | none ↦ spawn rows registry
      ]

  unfoldable pub job_apply :
      Bool → List Row → Option String → String → Option String → Result Launch
  job_apply enabled rows registry uid extra_context =
      if is_some (find uid rows)
      then (persisted rows uid extra_context >>= λ rows'. ok (launch enabled rows' registry uid))
      else raise not_found

-- The number of live agents, and the file as pruned.
unfoldable pub apply_status : Host → ℕ → Option String → ℕ × Option String
apply_status host n registry = let out = live_pids host n registry in (length out.0, out.1)

unfoldable pub stop_message : Host → ℕ → String
stop_message host stopped =
    if eqb stopped 0
    then "No apply agent is running."
    else text_append "Stopped " (
        text_append (host.str stopped)
          (text_append " apply agent" (if eqb stopped 1 then "." else "s.")))

-- The file, the number of agents and the message.
unfoldable pub apply_stop : Host → ℕ → Option String → Option String × (ℕ × String)
unfolding stop_message
apply_stop host n registry =
    let out = stop_all host n registry in
    (out.file, (out.signalled, stop_message host out.signalled))
