-- ===== src/Support.antt =====
-- bootstrap/src/support: text, containers and memory.
pub mod Alignment
pub mod Arena
pub mod Builder
pub mod Growth
pub mod Paths
pub mod Utf8
pub mod Vector
pub mod TextEquality
