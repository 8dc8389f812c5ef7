-- ===== src/Apply/Report/Last.antt =====
-- Which line of a transcript counts.
use mathlib.Core.List.{append_assoc}
use job_aggregator.Prelude.{
  All-reverse, String, Bool, true, false, none, some, List, [], ◌∷◌, ◌++◌, ◌≡◌, refl, ap, ◌∙◌, All,
  reverse, reverse-append,
}
use job_aggregator.Apply.Report.{
  Transcript, event_of, extract_result_text, find_report, is_report, parse_agent_report,
  read_events, report_of, taken,
}

module _ (tr : Transcript) where
  read_events-quiet :
      (out : String × Bool) (lines : List String)
      → All (λ line. event_of tr line ≡ none) lines
      → read_events tr out lines ≡ out
  unfolding read_events
  read_events-quiet out [] h = refl
  read_events-quiet out (line ∷ lines) h =
      ap (λ e. read_events tr (taken tr out e) lines) (h.0) ∙ read_events-quiet out lines (h.1)

  read_events-last :
      (out event : String × Bool) (before after : List String) (line : String)
      → event_of tr line ≡ some event
      → All (λ x. event_of tr x ≡ none) after
      → read_events tr out (before ++ line ∷ after) ≡ event
  unfolding read_events
  read_events-last out event [] after line e h =
      ap (λ x. read_events tr (taken tr out x) after) e ∙ read_events-quiet event after h
  read_events-last out event (x ∷ before) after line e h =
      read_events-last (taken tr out (event_of tr x)) event before after line e h

  find_report-first :
      (output : String) (before after : List String) (line : String)
      → All (λ x. is_report tr x ≡ false) before
      → is_report tr line ≡ true
      → find_report tr output (before ++ line ∷ after) ≡ report_of tr output line
  unfolding find_report
  find_report-first output [] after line h e = rw e refl
  find_report-first output (x ∷ before) after line h e =
      rw (h.0) (find_report-first output before after line (h.1) e)

  -- The last result event of the transcript is what the agent said, and the last report line of
  -- that text is its report, whatever stands before them: when that line cannot be read, the
  -- report is the degraded one and not that of an earlier line.
  pub parse_agent_report-last :
      (stream text : String) (is_error : Bool) (before after earlier later : List String)
      (line said : String)
      → tr.splitlines stream ≡ before ++ line ∷ after
      → event_of tr line ≡ some (text, is_error)
      → All (λ x. event_of tr x ≡ none) after
      → tr.splitlines (tr.strip text) ≡ earlier ++ said ∷ later
      → is_report tr said ≡ true
      → All (λ x. is_report tr x ≡ false) later
      → (extract_result_text tr stream ≡ (text, is_error))
        × (parse_agent_report tr (extract_result_text tr stream).0 ≡ report_of tr text said)
  unfolding extract_result_text parse_agent_report
  parse_agent_report-last stream text is_error before after earlier later line said lines event
        quiet spoken reported silent =
      let found : extract_result_text tr stream ≡ (text, is_error) =
        ap (read_events tr (stream, false)) lines
        ∙ read_events-last (stream, false) (text, is_error) before after line event quiet in
      let parts : reverse (earlier ++ said ∷ later) ≡ reverse later ++ said ∷ reverse earlier =
        reverse-append earlier (said ∷ later)
        ∙ ap (λ xs. xs ++ reverse earlier) (reverse-append (said ∷ []) later)
        ∙ append_assoc (reverse later) (said ∷ []) (reverse earlier) in
      (
        found,
        ap (λ (x : String × Bool). parse_agent_report tr x.0) found
            ∙ ap (λ xs. find_report tr text (reverse xs)) spoken
            ∙ ap (find_report tr text) parts
            ∙ find_report-first text (reverse later) (reverse earlier) said
                (All-reverse (λ x. is_report tr x ≡ false) later silent) reported,
      )
