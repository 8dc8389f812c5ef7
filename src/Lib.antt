-- ===== src/Lib.antt =====
-- A model of the aggregation pipeline in src/job_aggregator.
--
-- One cycle fetches postings from job boards, normalises and filters them, stores them in SQLite,
-- retires rows that fail today's filters, expires rows that their source no longer shows, asks some
-- sites whether a posting is closed, and records the run. The files follow this division.
--
-- Models, Config, Errors, Clock, Python: src/job_aggregator/models/job.py, config/schema.py,
--   errors.py and clock.py. A datetime is the count of microseconds since datetime.min in UTC.
--   Pay is an unbounded integer, as in Python. Python's floats and text methods are parameters.
-- Storage: src/job_aggregator/storage/. The jobs table is the list of its rows, and an UPDATE is
--   a map over the rows that pass its WHERE clause. Upsert is upsert_job, Flags is set_user_flag,
--   Query is the dashboard's listing, Retire is refilter_candidates, retire_jobs and the two lists
--   for notifications, Runs is runs_repo.py. SQLite's LIKE, ORDER BY and julianday are parameters.
-- Pipeline: src/job_aggregator/pipeline/. Dedup is dedup.py's normal forms and job_uid on lists of
--   code points, Normalize its canonical_url and clean_text of normalize.py, Salary is salary.py
--   and _normalize_salary, Signals is signals.py over what its patterns find, Filters is
--   filters.py with its keyword search written out, Stale is stale.py, Runner is runner.py:
--   Outcomes, Ingest and Refilter are its steps and Cycle is run_cycle, whose `try` block is a chain
--   of steps that stops at the first exception.
--   Runner.Fetch is the fetch in threads, whose results are put in the slots of their sources, and
--   Runner.Windowed joins the fetches that were cut short to the stale pass.
-- Sources: src/job_aggregator/sources/. Base is the outcome of a fetch and run_ats of base.py;
--   Closure is closure.py, with the HTTP answers as a parameter. Http is the retry loop and the page
--   walk of _http.py, over the answers of httpx, and Walks is the fetch of unstop.py and
--   internshala.py, which walks the pages of every search and merges the items. Registry is
--   registry.py.
-- Scheduler: src/job_aggregator/scheduler/scheduler.py: the run lock, the catch-up and the start.
-- Resume: src/job_aggregator/resume/tailor.py. Words is its reading of texts, Select the selection by
--   keywords, Guard the guards on a model's bullets and skills, Tailor is tailor_resume. The model is
--   a function from what it is asked to its reply. Latex and Fit are resume/render.py: the document,
--   and the trimming to one page.
-- Dashboard: src/job_aggregator/dashboard/routes_jobs.py. Render is the two readers of an HTML
--   description, over the calls of HTMLParser, Listing the list page and the actions on a card,
--   Detail the view of one posting with its check of the original page, Launch the context of a
--   posting and the routes of the apply agent, Tailoring the résumé routes, Settings the form of
--   routes_config.py over the stored configuration, History the run routes of routes_runs.py.
-- Notify: src/job_aggregator/notify/. The messages of telegram.py and the entries of rss.py.
-- Apply: src/job_aggregator/apply/. Procs is the registry of running agents of procs.py. Fields is
--   the applicant's data, the fields of detector.py and the plan of grounding.py, Driver the filling
--   of a page, Report the transcript that agentic.py reads, Ats the known forms, Agent is agent.py.
-- Paths: the names of résumé files in src/job_aggregator/paths.py.
-- Examples: rows and postings at which the theorems are applied.
--
-- A stateful function takes the tables and returns them; a clock is a function from the number of a
-- reading to the instant it gave; an exception is `none` or a value of Error. Every loop is a
-- recursion on the list it walks or on the number of rounds that the code allows, but for the loop of
-- build_pdf, which gets as many rounds as there are projects and bullets and is shown to end in them.
--
-- Not modelled: the templates of the dashboard, the mails and the files of the notifiers, the browser
-- of the application agent, the LaTeX engine, the mappings of the single job boards, the YAML files,
-- the command line and logging. urlsplit and urlparse are taken to answer in canonical_url and in the
-- check for a local address of a notifier, and int to read each word of digits in the PID file; the
-- ValueError that they may raise there is left out.
-- They meet the modelled code only through the tables, the fetched results and the settings.
pub mod Prelude
pub mod Models
pub mod Python
pub mod Config
pub mod Errors
pub mod Clock
pub mod Storage
pub mod Sources
pub mod Pipeline
pub mod Scheduler
pub mod Resume
pub mod Paths
pub mod Notify
pub mod Apply
pub mod Dashboard
pub mod Examples
