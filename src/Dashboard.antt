-- ===== src/Dashboard.antt =====
-- dashboard/: the reading of descriptions, the list of postings, the detail view, the actions on a
-- card, tailoring, the apply agent's routes, the configuration form, and the page of runs.
pub mod Render
pub mod Listing
pub mod Detail
pub mod Launch
pub mod Tailoring
pub mod Settings
pub mod History
