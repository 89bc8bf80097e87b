-- ===== src/Tests.antt =====
-- Runs at concrete inputs: data shared by the tests, then the tests by part of the program.
pub mod Data
pub mod Watches
pub mod Reads
pub mod Cycles
pub mod Scripts
pub mod Services
pub mod Requests
pub mod Saves
pub mod Toys
pub mod Paints
pub mod Panels
pub mod Loads
pub mod Windows
pub mod Drawings
