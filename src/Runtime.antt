-- ===== src/Runtime.antt =====
-- crates/sni-lua-api/src/runtime.rs: the script's services that work in the background.
pub mod Store
pub mod Http
