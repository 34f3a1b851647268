-- ===== src/Checks.antt =====
-- The theorems at concrete inputs, one file for each group of components.
mod TextChecks
mod VectorChecks
mod ArenaChecks
mod KernelChecks
mod TypeChecks
mod LayoutChecks
mod LookupChecks
mod IdentityChecks
mod LexerChecks
mod PathChecks
