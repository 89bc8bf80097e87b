-- ===== src/Host/Gfx.antt =====
-- The `gfx` table: what its calls do to the state that they share.
pub mod State
pub mod Draws
pub mod Table
pub mod Colors
pub mod Groups
pub mod Metrics
pub mod Placement
