-- ===== src/Filters.antt =====
-- What a listing must satisfy: its freshness, its place, and the filters of the users.
pub mod Freshness
pub mod Periods
pub mod Geography
pub mod Data
pub mod Checks
pub mod Engine
pub mod Refinement
pub mod Enrichment
pub mod Match
mod Examples
