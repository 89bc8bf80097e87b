-- ===== src/Engine.antt =====
-- crates/sni-cache/src/engine.rs: the poll engine. Each child is one of its functions or loops
-- with lemmas on it.
pub mod Apply
pub mod Budget
pub mod Cycle
pub mod Drain
pub mod Pending
pub mod Select
pub mod Split
