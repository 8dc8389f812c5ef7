-- ===== src/Notify.antt =====
-- notify/base.py, notify/telegram.py and notify/rss.py: what the notifiers say of postings and runs.
pub mod Messages
use Prim.Native.String
use Prim.Native.String.{◌++◌ as text_append}
use job_aggregator.Prelude.{
  ℕ, suc, ◌-◌, String, Bool, true, false, not, ◌&&◌, ◌||◌, Option, none, some, List, [], ◌∷◌, ◌++◌,
  ◌==◌, coalesce, eqb, filter, given, holds, if◌then◌else◌, length, ltb, map, take,
}
use job_aggregator.Errors.{Result, ok, raise}
use job_aggregator.Models.{Job, SalaryBucket}
use job_aggregator.Models.Amount.{ℤ, pos, negsuc}
use job_aggregator.Pipeline.Runner.Cycle.{RunSummary}
use job_aggregator.Pipeline.Signals.{is_nil}
use job_aggregator.Dashboard.Render.{text_take}
use job_aggregator.Resume.Words.{join_texts, text_length}
use job_aggregator.Storage.Query.{bucket_value}

-- html.escape without and with quotes, str of a number, the grouping format of an amount, equality
-- of amounts, the clock's RFC 3339 form, whether an address is local, and str.strip.
pub record Printer : Type 0 where
  pub esc : String → String
  pub esc_attr : String → String
  pub str : ℕ → String
  pub grouped : ℤ → String
  pub same_amount : ℤ → ℤ → Bool
  pub rfc3339 : ℕ → String
  pub is_local_url : String → Bool
  pub strip : String → String

abbrev pub telegram_message_limit : ℕ
telegram_message_limit = 4096

abbrev pub max_telegram_jobs : ℕ
max_telegram_jobs = 20

abbrev pub max_summary_failed_sources : ℕ
max_summary_failed_sources = 6

unfoldable pub format_remote_or_location : Job → String
format_remote_or_location job =
    if holds (λ b. b) job.is_remote then "Remote" else coalesce job.location ""

-- Text or word, for a text that is missing or empty.
abbrev pub or_word : Option String → String → String
or_word text word = if given text then coalesce text word else word

-- STATUS_ICON.get(status, "⚪")
unfoldable pub status_icon : String → String
status_icon status =
    if status == "success"
    then "🟢"
    else if status == "partial"
    then "🟠"
    else if status == "failed"
    then "🔴"
    else "⚪"

-- text[:4095] + "…" for a longer one
unfoldable pub fit_message : String → String
unfolding text_take
fit_message text =
    if ltb telegram_message_limit (text_length text)
    then text_append (text_take 4095 text) "…"
    else text

-- jobs[:n], which drops from the end for a negative n
abbrev pub capped_jobs : ℤ → List Job → List Job
capped_jobs (pos n) jobs = take n jobs
capped_jobs (negsuc n) jobs = take (length jobs - suc n) jobs

pub record Entry : Type 0 where
  pub id : String
  pub title : String
  pub updated : String
  pub published : Option String
  pub url : String
  pub categories : List String
  pub summary : String

-- A sendMessage call: the token, the chat and the text.
pub record Message : Type 0 where
  pub token : String
  pub chat_id : String
  pub text : String

module _ (p : Printer) where
  open p use {esc, esc_attr, str, grouped, same_amount, rfc3339, is_local_url, strip}

  abbrev pub line : List String → String
  line parts = join_texts "" parts

  -- One amount, or two that differ.
  abbrev pub format_amount : Option ℤ → Option ℤ → String
  format_amount none none = ""
  format_amount none (some hi) = grouped hi
  format_amount (some lo) none = grouped lo
  format_amount (some lo) (some hi) =
      if same_amount lo hi then grouped hi else line (grouped lo ∷ "-" ∷ grouped hi ∷ [])

  abbrev pub no_bounds : Option ℤ → Option ℤ → Bool
  no_bounds none none = true
  no_bounds _ _ = false

  unfoldable pub format_salary : Job → String
  format_salary job =
      if not job.salary_parsed || no_bounds job.salary_min job.salary_max
      then ""
      else line (
          or_word job.salary_currency "INR"
          ∷ " "
          ∷ format_amount job.salary_min job.salary_max
          ∷ "/"
          ∷ or_word job.salary_period "month"
          ∷ [])

  unfoldable pub format_meta : Job → String
  unfolding format_remote_or_location format_salary
  format_meta job = join_texts " · " (
      filter (λ t. not (t == ""))
        (format_remote_or_location job ∷ format_salary job ∷ job.source ∷ []))

  abbrev pub meta_lines : Job → List String
  meta_lines job =
      if esc (format_meta job) == "" then [] else text_append "   " (esc (format_meta job)) ∷ []

  -- The lines of the postings, numbered from `n`.
  unfoldable pub job_lines : ℕ → List Job → List String
  unfolding format_meta
  job_lines n [] = []
  job_lines n (job ∷ jobs) =
      line (
        str n
        ∷ ". <a href=\""
        ∷ esc_attr job.url
        ∷ "\">"
        ∷ esc job.title
        ∷ "</a> — "
        ∷ esc job.company
        ∷ [])
      ∷ (meta_lines job ++ job_lines (suc n) jobs)

  unfoldable pub digest_lines : List Job → List String
  unfolding job_lines
  digest_lines jobs =
      let n = length jobs in
      let more : List String =
        if ltb max_telegram_jobs n
        then "" ∷ line ("…and " ∷ str (n - max_telegram_jobs) ∷ " more." ∷ []) ∷ []
        else [] in
      line ("<b>" ∷ str n ∷ " new job" ∷ (if eqb n 1 then "" else "s") ∷ "</b>" ∷ [])
      ∷ ""
      ∷ (job_lines 1 (take max_telegram_jobs jobs) ++ more)

  unfoldable pub build_digest : List Job → String
  unfolding digest_lines fit_message
  build_digest jobs = fit_message (join_texts "\n" (digest_lines jobs))

  abbrev pub failed_line : List (String × String) → List String
  failed_line [] = []
  failed_line (e ∷ errors) =
      let names = take max_summary_failed_sources (e ∷ errors) in
      let extra = length (e ∷ errors) - length names in
      let more : String = if eqb extra 0 then "" else line (" +" ∷ str extra ∷ " more" ∷ []) in
      line ("failed: " ∷ join_texts ", " (map (λ (x : String × String). esc x.0) names) ∷ more ∷ [])
      ∷ []

  unfoldable pub summary_lines : String → RunSummary → String → List String
  unfolding status_icon
  summary_lines trigger s dashboard_url =
      let dashboard : String =
        if is_local_url dashboard_url
        then text_append "Dashboard: " (esc dashboard_url)
        else line ("<a href=\"" ∷ esc_attr dashboard_url ∷ "\">Open dashboard →</a>" ∷ []) in
      let counts = s.counts in
      line (
        status_icon s.status
        ∷ " <b>Run #"
        ∷ str s.run_id
        ∷ "</b> ["
        ∷ esc s.status
        ∷ "] · "
        ∷ esc trigger
        ∷ [])
      ∷ line (
          "new "
          ∷ str counts.n_new
          ∷ " · updated "
          ∷ str counts.n_updated
          ∷ " · expired "
          ∷ str counts.n_expired
          ∷ " · filtered "
          ∷ str s.n_filtered_out
          ∷ [])
      ∷ line ("sources ok " ∷ str counts.n_sources_ok ∷ " / err " ∷ str counts.n_sources_err ∷ [])
      ∷ (failed_line s.source_errors ++ dashboard ∷ [])

  unfoldable pub build_run_summary : String → RunSummary → String → String
  unfolding summary_lines fit_message
  build_run_summary trigger s dashboard_url =
      fit_message (join_texts "\n" (summary_lines trigger s dashboard_url))

  -- Sending a text with the environment's token and chat, unless one of them is missing.
  unfoldable pub send : Option String → Option String → String → List Message
  send token chat_id text =
      if given token && given chat_id
      then record { token = coalesce token ""; chat_id = coalesce chat_id ""; text = text } ∷ []
      else []

  -- TelegramNotifier.notify_new and notify_run; an error of the call is swallowed.
  unfoldable pub notify_new : Option String → Option String → List Job → List Message
  unfolding send build_digest
  notify_new token chat_id jobs = if is_nil jobs then [] else send token chat_id (build_digest jobs)

  unfoldable pub notify_run :
      Option String → Option String → Option String → String → String → RunSummary → List Message
  unfolding send build_run_summary
  notify_run token chat_id public_url dashboard_url trigger s =
      send token chat_id (build_run_summary trigger s (or_word public_url dashboard_url))

  -- One entry of the feed; `now` is the time of the rendering.
  unfoldable pub feed_entry : ℕ → Job → Entry
  unfolding format_meta
  feed_entry now job = record {
    id = text_append "urn:jobuid:" job.job_uid;
    title = line (job.title ∷ " — " ∷ job.company ∷ []);
    updated = rfc3339 (coalesce job.posted_at now);
    published = elim (job.posted_at) [ none ↦ none | some at ↦ some (rfc3339 at) ];
    url = job.url;
    categories =
        job.source
        ∷ ((if holds (λ b. b) job.is_remote then "remote" ∷ [] else [])
            ++ elim (job.salary_bucket) [
              | none ↦ []
              | some bucket ↦ text_append "salary:" (bucket_value bucket) ∷ []
            ]);
    summary = format_meta job;
  }

  unfoldable pub feed_entries : ℤ → ℕ → List Job → List Entry
  unfolding feed_entry
  feed_entries max_items now jobs = map (feed_entry now) (capped_jobs max_items jobs)
