-- ===== src/Frontend/Token.antt =====
-- Tokens: bootstrap/include/private/frontend/lexer/token.h, token_registry.def and
-- bootstrap/src/frontend/lexer/token.c. The out-of-range test on a kind has no counterpart: a kind is
-- one of the constructors.
use sultanc.Prelude.{ℕ, Bool, true, false, List}
use sultanc.Core.Source.{SourceSpan}

-- `__Token_Kind__`, the rows of the registry.
pub data TokenKind : Type 0 where
  token_comptime token_at_operator token_function_type token_of token_from token_extern token_import
        token_use token_as token_lit_undef token_function_def token_alias token_let token_return
        token_else token_if token_any token_bool token_string token_char token_int token_uint
        token_float token_void token_i8 token_i16 token_i32 token_i64 token_u8 token_u16 token_u32
        token_u64 token_f32 token_f64 token_assembly token_unsafe token_while token_for token_break
        token_continue token_type token_match token_with token_mutable token_public
        token_slice_operator token_plus_operator token_minus_operator token_star_operator
        token_slash_operator token_percent_operator token_definition_separator token_equals_operator
        token_less_than_operator token_less_than_or_equal_operator token_box_operator
        token_not_equal_operator token_greater_than_or_equal_operator token_greater_than_operator
        token_not_operator token_and_operator token_and_and_operator token_or_operator
        token_or_or_operator token_left_shift_operator token_right_shift_operator
        token_arithmetic_right_shift_operator token_tilde_operator token_left_brace_operator
        token_underscore_with_index token_underscore_operator token_right_brace_operator
        token_caret_operator token_dot_operator token_comma_operator token_semicolon_operator
        token_operator_assignment_colon token_colon_operator token_right_arrow_operator
        token_left_parenthesis_operator token_right_parenthesis_operator token_left_bracket_operator
        token_right_bracket_operator token_identifier token_lit_int token_lit_flo token_lit_str
        token_lit_char token_lit_bool token_eof :
      TokenKind

-- `__Token_Class__`
pub data TokenClass : Type 0 where
  class_keyword class_operator class_delimiter class_value class_identifier class_eof : TokenClass

-- `__Token_Lifecycle__`
pub data TokenLifecycle : Type 0 where
  lifecycle_active lifecycle_future_reserved : TokenLifecycle

-- `__Token_Payload_Kind__`
pub data PayloadKind : Type 0 where
  payload_none payload_index payload_integer payload_text payload_character payload_boolean :
      PayloadKind

-- `__Token_Classes__`; the rows that are not named are keywords.
abbrev pub class_of : TokenKind → TokenClass
class_of token_at_operator = class_operator
class_of token_plus_operator = class_operator
class_of token_minus_operator = class_operator
class_of token_star_operator = class_operator
class_of token_slash_operator = class_operator
class_of token_percent_operator = class_operator
class_of token_definition_separator = class_operator
class_of token_equals_operator = class_operator
class_of token_less_than_operator = class_operator
class_of token_less_than_or_equal_operator = class_operator
class_of token_not_equal_operator = class_operator
class_of token_greater_than_or_equal_operator = class_operator
class_of token_greater_than_operator = class_operator
class_of token_not_operator = class_operator
class_of token_and_operator = class_operator
class_of token_and_and_operator = class_operator
class_of token_or_operator = class_operator
class_of token_or_or_operator = class_operator
class_of token_left_shift_operator = class_operator
class_of token_right_shift_operator = class_operator
class_of token_arithmetic_right_shift_operator = class_operator
class_of token_tilde_operator = class_operator
class_of token_left_brace_operator = class_delimiter
class_of token_underscore_with_index = class_value
class_of token_underscore_operator = class_operator
class_of token_right_brace_operator = class_delimiter
class_of token_caret_operator = class_operator
class_of token_dot_operator = class_delimiter
class_of token_comma_operator = class_delimiter
class_of token_semicolon_operator = class_delimiter
class_of token_operator_assignment_colon = class_operator
class_of token_colon_operator = class_delimiter
class_of token_right_arrow_operator = class_operator
class_of token_left_parenthesis_operator = class_delimiter
class_of token_right_parenthesis_operator = class_delimiter
class_of token_left_bracket_operator = class_delimiter
class_of token_right_bracket_operator = class_delimiter
class_of token_identifier = class_identifier
class_of token_lit_int = class_value
class_of token_lit_flo = class_value
class_of token_lit_str = class_value
class_of token_lit_char = class_value
class_of token_eof = class_eof
class_of _ = class_keyword

-- `__Token_Lifecycle_Of__`
unfoldable pub lifecycle_of : TokenKind → TokenLifecycle
lifecycle_of token_use = lifecycle_future_reserved
lifecycle_of token_float = lifecycle_future_reserved
lifecycle_of token_underscore_with_index = lifecycle_future_reserved
lifecycle_of _ = lifecycle_active

-- `__Token_Payload_Kind_Of__`
abbrev pub payload_kind_of : TokenKind → PayloadKind
payload_kind_of token_underscore_with_index = payload_index
payload_kind_of token_lit_int = payload_integer
payload_kind_of token_lit_str = payload_text
payload_kind_of token_lit_char = payload_character
payload_kind_of token_lit_bool = payload_boolean
payload_kind_of _ = payload_none

-- `__Token_Is_Keyword_Kind__`
unfoldable pub is_keyword_kind : TokenKind → Bool
is_keyword_kind kind = elim (class_of kind) [ class_keyword ↦ true | _ ↦ false ]

-- `__Integer_Literal__`; the value is the 64-bit pattern.
pub record IntegerLiteral : Type 0 where
  pub value : ℕ
  pub spelling : List ℕ
  pub unsigned_wide : Bool

-- `__Token_Payload__`, a union that the kind of the token selects from.
pub data Payload : Type 0 where
  no_payload : Payload
  index_payload : ℕ → Payload
  integer_payload : IntegerLiteral → Payload
  text_payload : List ℕ → Payload
  character_payload : ℕ → Payload
  boolean_payload : Bool → Payload

-- `__Token__`
pub record Token : Type 0 where
  pub kind : TokenKind
  pub span : SourceSpan
  pub lexeme : List ℕ
  pub payload : Payload
