-- ===== src/Apply.antt =====
-- apply/: the application agent. It fills forms in a browser and never submits them.
pub mod Procs
pub mod Fields
pub mod Driver
pub mod Report
pub mod Ats
pub mod Agent
