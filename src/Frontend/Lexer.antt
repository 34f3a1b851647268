-- ===== src/Frontend/Lexer.antt =====
-- The lexer: bootstrap/src/frontend/lexer.
pub mod Characters
pub mod Cursor
pub mod KeywordTable
pub mod Keywords
pub mod Operators
pub mod Runs
pub mod Numbers
pub mod Escapes
pub mod Strings
pub mod Next
