-- ===== src/Sources.antt =====
-- sources/: the contract of a source, the HTTP client, two page walks, the closure checks, and
-- the registry.
pub mod Base
pub mod Closure
pub mod Http
pub mod Walks
pub mod Registry
