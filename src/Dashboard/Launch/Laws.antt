-- ===== src/Dashboard/Launch/Laws.antt =====
-- When the dashboard starts the apply agent, and what it reports of it.
use mathlib.Core.List.{append_assoc}
use job_aggregator.Prelude.{
  ℕ, eqb, reverse-append, ◌∙◌, ap, ◌&&◌, ◌||◌, ◌++◌, ◌≡◌, Bool, List, Option, String, [], ◌==◌, ◌∷◌,
  any, arith, false, none, not, refl, reverse, some, true,
}
use job_aggregator.Errors.{ok}
use job_aggregator.Models.Amount.{ℤ, pos, negsuc}
use job_aggregator.Apply.Procs.{register_pid}
use job_aggregator.Storage.{Row}
use job_aggregator.Storage.Flags.{extra_context, set_field}
use job_aggregator.Dashboard.Launch.{
  Reply, Desk, Launch, apply_log_tail, apply_preflight, cleaned, last_error, tail_of, tail_of_log,
}

module _ (desk : Desk) where
  -- The row with the context that came with the request.
  abbrev pub with_context : Option String → Row → Row
  with_context none r = r
  with_context (some sent) r = set_field extra_context (cleaned desk sent) r

  -- A process that still runs, or has ended with the exit code 0.
  abbrev pub is_healthy : Option ℤ → Bool
  is_healthy none = true
  is_healthy (some (pos n)) = eqb n 0
  is_healthy (some (negsuc n)) = false

  -- What the outcome says of the agent: with success reported an agent was started, is in the PID file
  -- and did not die; every agent is one that Popen gave, with the agent enabled and nothing against it; and
  -- without one the PID file is as it was and success is not reported.
  pub record IsHonest (enabled : Bool) (uid : String) (registry : Option String) (out : Launch)
      : Type 0 where
    pub reported :
        (a : Reply)
        → out.answer ≡ ok a
        → a.is_ok ≡ true
        → (pid : ℕ) × (out.launched ≡ some pid)
          × (out.registry ≡ register_pid desk.host registry pid)
          × (is_healthy desk.returncode ≡ true)
    pub starts :
        (pid : ℕ)
        → out.launched ≡ some pid
        → (enabled ≡ true) × (apply_preflight desk uid ≡ none) × (desk.spawned ≡ ok pid)
    pub idle : out.launched ≡ none → out.registry ≡ registry

  -- A line of the log that names an error, other than the bare head of a traceback.
  abbrev pub reports : String → Bool
  reports line =
      desk.is_error_line line && not (desk.strip line == "Traceback (most recent call last):")

  last_error-append :
      (after before : List String) (line : String)
      → any reports after ≡ false
      → reports line ≡ true
      → last_error desk (after ++ line ∷ before) ≡ some (desk.strip line)
  unfolding last_error
  last_error-append [] before line h e = rw e refl
  last_error-append (x ∷ after) before line h e =
      ground (arith, h, last_error-append after before line (ground (arith, h)) e)

  any-append : (xs ys : List String) → any reports (xs ++ ys) ≡ (any reports xs || any reports ys)
  any-append [] ys = refl
  any-append (x ∷ xs) ys = ground (arith, any-append xs ys)

  any-reverse : (lines : List String) → any reports (reverse lines) ≡ any reports lines
  any-reverse [] = refl
  any-reverse (x ∷ lines) =
      rw (reverse-append (x ∷ []) lines)
        (any-append (reverse lines) (x ∷ []) ∙ ground (arith, any-reverse lines))

  tail_of-some :
      (lines : List String) (found : String)
      → last_error desk lines ≡ some found
      → tail_of desk lines ≡ found
  unfolding last_error
  tail_of-some [] found e = cc
  tail_of-some (x ∷ lines) found e = rw e refl

  -- The reason that is reported for an agent that died is the last line of its log that names an
  -- error, whatever other lines stand before and after it.
  pub apply_log_tail-last :
      (text : String) (before after : List String) (line : String)
      → desk.log_text ≡ some text
      → desk.splitlines (desk.strip text) ≡ before ++ line ∷ after
      → reports line ≡ true
      → any reports after ≡ false
      → apply_log_tail desk ≡ desk.strip line
  unfolding apply_log_tail
  apply_log_tail-last text before after line read lines error quiet =
      let parts : reverse (before ++ line ∷ after) ≡ reverse after ++ line ∷ reverse before =
        reverse-append before (line ∷ after)
        ∙ ap (λ xs. xs ++ reverse before) (reverse-append (line ∷ []) after)
        ∙ append_assoc (reverse after) (line ∷ []) (reverse before) in
      ap (tail_of_log desk) read
      ∙ rw (lines, parts)
          (tail_of-some (reverse after ++ line ∷ reverse before) (desk.strip line) (
            last_error-append (reverse after) (reverse before) line (any-reverse after ∙ quiet)
              error))
