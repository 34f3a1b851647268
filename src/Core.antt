-- ===== src/Core.antt =====
-- bootstrap/src/core and its public headers: source files and positions.
pub mod Source
