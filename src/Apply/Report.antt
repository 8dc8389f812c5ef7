-- ===== src/Apply/Report.antt =====
-- apply/agentic.py: the command line of the agent that drives the browser, and what is read of its
-- transcript.
pub mod Last
use Prim.Native.String
use Prim.Native.String.{◌++◌ as text_append}
use text.Mathlib.Text.{starts_with}
use job_aggregator.Prelude.{
  String, Bool, true, false, Option, none, some, List, [], ◌∷◌, ◌++◌, given, coalesce,
  if◌then◌else◌, reverse,
}

-- A line that is a result event: its text and its error flag. The report: what is filled, what is
-- not, whether a login is needed, and the notes.
pub record Report : Type 0 where
  pub filled : List String
  pub unfilled : List String
  pub needs_login : Bool
  pub notes : String

-- str.strip, str.splitlines, text[-300:], the JSON of a line when it is a result event, and of a
-- report, `none` for one that cannot be read.
pub record Transcript : Type 0 where
  pub strip : String → String
  pub splitlines : String → List String
  pub last_300 : String → String
  pub result_event : String → Option (String × Bool)
  pub payload : String → Option Report
  -- text[len("RESULT:"):]
  pub behind_prefix : String → String

abbrev pub report_prefix : String
report_prefix = "RESULT:"

abbrev pub mcp_server_name : String
mcp_server_name = "browser"

-- Behind the named tools; `model` adds a flag when it is given.
unfoldable pub build_claude_command : String → String → String → Option String → List String
build_claude_command claude_bin prompt mcp_config_path model =
    (claude_bin ∷ "-p" ∷ prompt ∷ "--mcp-config" ∷ mcp_config_path ∷ "--strict-mcp-config"
      ∷ "--allowedTools" ∷ "mcp__browser__*" ∷ "--disallowedTools"
      ∷ "Bash,Edit,Write,NotebookEdit,WebFetch,WebSearch" ∷ "--output-format" ∷ "stream-json"
      ∷ "--verbose" ∷ [])
    ++ (if given model then "--model" ∷ coalesce model "" ∷ [] else [])

module _ (tr : Transcript) where
  open tr use {strip, splitlines, last_300, result_event, payload, behind_prefix}

  -- A line of the transcript that is a result event.
  abbrev pub event_of : String → Option (String × Bool)
  event_of line = if starts_with (strip line) "{" then result_event (strip line) else none

  abbrev pub taken : String × Bool → Option (String × Bool) → String × Bool
  taken out none = out
  taken out (some event) = event

  unfoldable pub read_events : String × Bool → List String → String × Bool
  read_events out [] = out
  read_events out (line ∷ lines) = read_events (taken out (event_of line)) lines

  unfoldable pub extract_result_text : String → String × Bool
  extract_result_text stream_output = read_events (stream_output, false) (splitlines stream_output)

  abbrev pub is_report : String → Bool
  is_report line = starts_with (strip line) report_prefix

  unfoldable pub degraded : String → Report
  degraded output = record {
    filled = [];
    unfilled = [];
    needs_login = false;
    notes = text_append "agent report unparsed; raw tail: " (last_300 (strip output));
  }

  abbrev pub report_of : String → String → Report
  report_of output line = coalesce (payload (strip (behind_prefix (strip line)))) (degraded output)

  -- The first report of the lines, which are reversed; a malformed one ends the search.
  unfoldable pub find_report : String → List String → Report
  find_report output [] = degraded output
  find_report output (line ∷ lines) =
      let rest = find_report output lines in if is_report line then report_of output line else rest

  unfoldable pub parse_agent_report : String → Report
  parse_agent_report output = find_report output (reverse (splitlines (strip output)))
