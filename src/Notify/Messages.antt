-- ===== src/Notify/Messages.antt =====
-- What is sent, and how long it is.
use job_aggregator.Prelude.{
  to_ℕ, ◌≤◌, String, Bool, not, ◌&&◌, Option, List, ◌≡◌, refl, All, arith, given, length, ltb,
  Bool-cases, inl, inr,
}
use job_aggregator.Models.{Job}
use job_aggregator.Pipeline.Signals.{is_nil}
use job_aggregator.Dashboard.Render.{text_take}
use job_aggregator.Dashboard.Render.Safe.{length-text_take}
use job_aggregator.Dashboard.Render.Safe.{length-append}
use job_aggregator.Resume.Words.{text_length}
use job_aggregator.Notify.{
  join_texts, build_digest, build_run_summary, digest_lines, summary_lines, or_word, RunSummary,
  build_run_summary, build_digest, Printer, Message, fit_message, notify_new, notify_run, send,
}

fit_message-short : (text : String) → text_length (fit_message text) ≤ 4096
unfolding fit_message
fit_message-short text = elim (Bool-cases (ltb 4096 (text_length text))) [
  | inl e ↦
      rw e (omega (arith, length-append (text_take 4095 text) "…", length-text_take 4095 text))
  | inr e ↦ rw e (ground (arith, e))
]

module _ (p : Printer) where
  -- As many messages as there are, each within the limit.
  abbrev pub AreFit : List Message → Bool → Type 0
  AreFit sent due = All (λ (m : Message). text_length m.text ≤ 4096) sent × (length sent ≡ to_ℕ due)

  send-AreFit :
      (token chat_id : Option String) (text : String)
      → text_length text ≤ 4096
      → AreFit (send p token chat_id text) (given token && given chat_id)
  unfolding send
  send-AreFit token chat_id text short = elim (Bool-cases (given token && given chat_id)) [
    | inl e ↦ rw e ((short, tt), refl)
    | inr e ↦ rw e (tt, refl)
  ]

  build_digest-short : (jobs : List Job) → text_length (build_digest p jobs) ≤ 4096
  unfolding build_digest
  build_digest-short jobs = fit_message-short (join_texts "\n" (digest_lines p jobs))

  build_run_summary-short :
      (trigger url : String) (s : RunSummary)
      → text_length (build_run_summary p trigger s url) ≤ 4096
  unfolding build_run_summary
  build_run_summary-short trigger url s =
      fit_message-short (join_texts "\n" (summary_lines p trigger s url))

  -- The digest is one message exactly when there is a new posting and the channel is configured,
  -- and the summary of a run is one message exactly when the channel is configured, whatever the
  -- postings and the run. No message is longer than Telegram takes.
  pub notify-AreFit :
      (token chat_id public_url : Option String) (jobs : List Job) (trigger url : String)
      (s : RunSummary)
      → AreFit
          (notify_new p token chat_id jobs)
          (not (is_nil jobs) && (given token && given chat_id))
        × AreFit
            (notify_run p token chat_id public_url url trigger s)
            (given token && given chat_id)
  unfolding notify_new notify_run
  notify-AreFit token chat_id public_url jobs trigger url s = (
    elim (Bool-cases (is_nil jobs)) [
      | inl e ↦ rw e (tt, refl)
      | inr e ↦ rw e (send-AreFit token chat_id (build_digest p jobs) (build_digest-short jobs))
    ],
    send-AreFit token chat_id (build_run_summary p trigger s (or_word public_url url))
        (build_run_summary-short trigger (or_word public_url url) s),
  )
