-- ===== src/Frontend.antt =====
-- Tokens, identifiers and the lexer: bootstrap/src/frontend up to the parser.
pub mod Token
pub mod Identity
pub mod Lexer
pub mod Ast
