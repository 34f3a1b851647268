-- ===== src/Kernel.antt =====
-- bootstrap/src/kernel: what the compiler knows of types, memory and safety.
pub mod Memory
pub mod Safety
pub mod Builtins
pub mod Compatibility
pub mod Conversion
pub mod Names
pub mod Ownership
pub mod Types
pub mod Tagged
pub mod Layout
pub mod Projection
pub mod Payloads
pub mod Units
pub mod Lookup
pub mod Owners
pub mod Constructors
