-- ===== src/Frontend/Lexer/Operators.antt =====
-- Operators and delimiters: bootstrap/src/frontend/lexer/lexer_operator.c, with the operator rows of
-- bootstrap/include/private/frontend/lexer/token_registry.def.
pub mod Longest
use sultanc.Prelude.{ℕ, Bool, true, false, Option, none, some, List, [], ◌∷◌, length, if◌then◌else◌}
use sultanc.Core.Source.{SourcePosition}
use sultanc.Frontend.Token.{
  TokenKind, Token, token_and_and_operator, token_and_operator,
  token_arithmetic_right_shift_operator, token_at_operator, token_caret_operator,
  token_colon_operator, token_comma_operator, token_definition_separator, token_dot_operator,
  token_equals_operator, token_greater_than_operator, token_greater_than_or_equal_operator,
  token_left_brace_operator, token_left_bracket_operator, token_left_parenthesis_operator,
  token_left_shift_operator, token_less_than_operator, token_less_than_or_equal_operator,
  token_minus_operator, token_not_equal_operator, token_not_operator,
  token_operator_assignment_colon, token_or_operator, token_or_or_operator, token_percent_operator,
  token_plus_operator, token_right_arrow_operator, token_right_brace_operator,
  token_right_bracket_operator, token_right_parenthesis_operator, token_right_shift_operator,
  token_semicolon_operator, token_slash_operator, token_star_operator, token_tilde_operator,
}
use sultanc.Frontend.Lexer.Cursor.{Lexer, matches, advance_bytes, set_token}

-- `__Operator_Entry__`
pub record OperatorEntry : Type 0 where
  pub spelling : List ℕ
  pub kind : TokenKind

abbrev pub operator : List ℕ → TokenKind → OperatorEntry
operator spelling kind = record { spelling = spelling; kind = kind }

-- `__Operators__`
abbrev pub operators : List OperatorEntry
operators =
    operator (0x3e ∷ 0x3e ∷ 0x3e ∷ []) token_arithmetic_right_shift_operator
    ∷ operator (0x3c ∷ 0x3d ∷ []) token_less_than_or_equal_operator
    ∷ operator (0x3d ∷ 0x3d ∷ []) token_equals_operator
    ∷ operator (0x21 ∷ 0x3d ∷ []) token_not_equal_operator
    ∷ operator (0x3e ∷ 0x3d ∷ []) token_greater_than_or_equal_operator
    ∷ operator (0x26 ∷ 0x26 ∷ []) token_and_and_operator
    ∷ operator (0x7c ∷ 0x7c ∷ []) token_or_or_operator
    ∷ operator (0x3c ∷ 0x3c ∷ []) token_left_shift_operator
    ∷ operator (0x3e ∷ 0x3e ∷ []) token_right_shift_operator
    ∷ operator (0x3a ∷ 0x3d ∷ []) token_operator_assignment_colon
    ∷ operator (0x2d ∷ 0x3e ∷ []) token_right_arrow_operator
    ∷ operator (0x40 ∷ []) token_at_operator
    ∷ operator (0x2b ∷ []) token_plus_operator
    ∷ operator (0x2d ∷ []) token_minus_operator
    ∷ operator (0x2a ∷ []) token_star_operator
    ∷ operator (0x2f ∷ []) token_slash_operator
    ∷ operator (0x25 ∷ []) token_percent_operator
    ∷ operator (0x3d ∷ []) token_definition_separator
    ∷ operator (0x3c ∷ []) token_less_than_operator
    ∷ operator (0x3e ∷ []) token_greater_than_operator
    ∷ operator (0x21 ∷ []) token_not_operator
    ∷ operator (0x26 ∷ []) token_and_operator
    ∷ operator (0x7c ∷ []) token_or_operator
    ∷ operator (0x7e ∷ []) token_tilde_operator
    ∷ operator (0x7b ∷ []) token_left_brace_operator
    ∷ operator (0x7d ∷ []) token_right_brace_operator
    ∷ operator (0x5e ∷ []) token_caret_operator
    ∷ operator (0x2e ∷ []) token_dot_operator
    ∷ operator (0x2c ∷ []) token_comma_operator
    ∷ operator (0x3b ∷ []) token_semicolon_operator
    ∷ operator (0x3a ∷ []) token_colon_operator
    ∷ operator (0x28 ∷ []) token_left_parenthesis_operator
    ∷ operator (0x29 ∷ []) token_right_parenthesis_operator
    ∷ operator (0x5b ∷ []) token_left_bracket_operator
    ∷ operator (0x5d ∷ []) token_right_bracket_operator
    ∷ []

-- The loop of `__Lexer_Scan_Operator__` up to the first entry that matches.
unfoldable pub find_operator : Lexer → List OperatorEntry → Option OperatorEntry
find_operator lexer [] = none
find_operator lexer (entry ∷ entries) =
    let rest = find_operator lexer entries in
    if matches lexer entry.spelling then some entry else rest

abbrev pub take_operator : Lexer → Option OperatorEntry → SourcePosition → ℕ → Lexer × Option Token
take_operator lexer none start start_offset = (lexer, none)
take_operator lexer (some entry) start start_offset =
    set_token (advance_bytes lexer (length entry.spelling)) entry.kind start start_offset

-- `__Lexer_Scan_Operator__`
unfoldable pub scan_operator : Lexer → SourcePosition → ℕ → Lexer × Option Token
unfolding find_operator
scan_operator lexer start start_offset =
    take_operator lexer (find_operator lexer operators) start start_offset
