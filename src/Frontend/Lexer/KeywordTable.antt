-- ===== src/Frontend/Lexer/KeywordTable.antt =====
-- The keyword table: the keyword rows of bootstrap/include/private/frontend/lexer/token_registry.def, as
-- bootstrap/src/frontend/lexer/keyword.c lists them, the English spelling before the Arabic one, in UTF-8.
use sultanc.Prelude.{ℕ, Bool, true, false, List, [], ◌∷◌}
use sultanc.Frontend.Token.{
  TokenKind, token_alias, token_any, token_as, token_assembly, token_bool, token_box_operator,
  token_break, token_char, token_comptime, token_continue, token_else, token_extern, token_f32,
  token_f64, token_float, token_for, token_from, token_function_def, token_function_type, token_i16,
  token_i32, token_i64, token_i8, token_if, token_import, token_int, token_let, token_lit_bool,
  token_lit_undef, token_match, token_mutable, token_of, token_public, token_return,
  token_slice_operator, token_string, token_type, token_u16, token_u32, token_u64, token_u8,
  token_uint, token_unsafe, token_use, token_void, token_while, token_with,
}

-- `__Keyword_Entry__`
pub record Entry : Type 0 where
  pub alias_bytes : List ℕ
  pub kind : TokenKind
  pub boolean_value : Bool

abbrev pub entry : List ℕ → TokenKind → Bool → Entry
entry alias_bytes kind boolean_value = record {
  alias_bytes = alias_bytes;
  kind = kind;
  boolean_value = boolean_value;
}

-- `__Keyword_Entries__`
abbrev pub keyword_entries : List Entry
keyword_entries =
    entry (0x63 ∷ 0x6f ∷ 0x6d ∷ 0x70 ∷ 0x74 ∷ 0x69 ∷ 0x6d ∷ 0x65 ∷ []) token_comptime false
    ∷ entry
        (0xd9 ∷ 0x88 ∷ 0xd9 ∷ 0x82 ∷ 0xd8 ∷ 0xaa ∷ 0x5f ∷ 0xd8 ∷ 0xa7 ∷ 0xd9 ∷ 0x84 ∷ 0xd8 ∷ 0xaa
          ∷ 0xd8 ∷ 0xb1 ∷ 0xd8 ∷ 0xac ∷ 0xd9 ∷ 0x85 ∷ 0xd8 ∷ 0xa9 ∷ [])
        token_comptime false
    ∷ entry (0x66 ∷ 0x6e ∷ []) token_function_type false
    ∷ entry (0xd8 ∷ 0xaf ∷ 0xd8 ∷ 0xa7 ∷ 0xd9 ∷ 0x84 ∷ 0xd8 ∷ 0xa9 ∷ []) token_function_type false
    ∷ entry (0x6f ∷ 0x66 ∷ []) token_of false
    ∷ entry (0xd8 ∷ 0xa8 ∷ 0xd9 ∷ 0x86 ∷ 0xd9 ∷ 0x88 ∷ 0xd8 ∷ 0xb9 ∷ []) token_of false
    ∷ entry (0x66 ∷ 0x72 ∷ 0x6f ∷ 0x6d ∷ []) token_from false
    ∷ entry (0xd9 ∷ 0x85 ∷ 0xd9 ∷ 0x86 ∷ []) token_from false
    ∷ entry (0x65 ∷ 0x78 ∷ 0x74 ∷ 0x65 ∷ 0x72 ∷ 0x6e ∷ []) token_extern false
    ∷ entry (0xd8 ∷ 0xae ∷ 0xd8 ∷ 0xa7 ∷ 0xd8 ∷ 0xb1 ∷ 0xd8 ∷ 0xac ∷ 0xd9 ∷ 0x8a ∷ []) token_extern
        false
    ∷ entry (0x69 ∷ 0x6d ∷ 0x70 ∷ 0x6f ∷ 0x72 ∷ 0x74 ∷ []) token_import false
    ∷ entry (0xd8 ∷ 0xa7 ∷ 0xd8 ∷ 0xb3 ∷ 0xd8 ∷ 0xaa ∷ 0xd9 ∷ 0x88 ∷ 0xd8 ∷ 0xb1 ∷ 0xd8 ∷ 0xaf ∷ [])
        token_import false
    ∷ entry (0x75 ∷ 0x73 ∷ 0x65 ∷ []) token_use false
    ∷ entry (0xd8 ∷ 0xa7 ∷ 0xd8 ∷ 0xb3 ∷ 0xd8 ∷ 0xaa ∷ 0xd8 ∷ 0xae ∷ 0xd8 ∷ 0xaf ∷ 0xd9 ∷ 0x85 ∷ [])
        token_use false
    ∷ entry (0x61 ∷ 0x73 ∷ []) token_as false
    ∷ entry (0xd9 ∷ 0x85 ∷ 0xd8 ∷ 0xab ∷ 0xd9 ∷ 0x84 ∷ []) token_as false
    ∷ entry (0x75 ∷ 0x6e ∷ 0x64 ∷ 0x65 ∷ 0x66 ∷ 0x69 ∷ 0x6e ∷ 0x65 ∷ 0x64 ∷ []) token_lit_undef
        false
    ∷ entry
        (0xd8 ∷ 0xba ∷ 0xd9 ∷ 0x8a ∷ 0xd8 ∷ 0xb1 ∷ 0x5f ∷ 0xd9 ∷ 0x85 ∷ 0xd8 ∷ 0xb9 ∷ 0xd8 ∷ 0xb1
          ∷ 0xd9 ∷ 0x81 ∷ [])
        token_lit_undef false
    ∷ entry (0x64 ∷ 0x65 ∷ 0x66 ∷ []) token_function_def false
    ∷ entry (0xd8 ∷ 0xb9 ∷ 0xd8 ∷ 0xb1 ∷ 0xd9 ∷ 0x81 ∷ []) token_function_def false
    ∷ entry (0x61 ∷ 0x6c ∷ 0x69 ∷ 0x61 ∷ 0x73 ∷ []) token_alias false
    ∷ entry (0xd9 ∷ 0x85 ∷ 0xd8 ∷ 0xb1 ∷ 0xd8 ∷ 0xa7 ∷ 0xd8 ∷ 0xaf ∷ 0xd9 ∷ 0x81 ∷ []) token_alias
        false
    ∷ entry (0x6c ∷ 0x65 ∷ 0x74 ∷ []) token_let false
    ∷ entry (0xd8 ∷ 0xaf ∷ 0xd8 ∷ 0xb9 ∷ []) token_let false
    ∷ entry (0x72 ∷ 0x65 ∷ 0x74 ∷ 0x75 ∷ 0x72 ∷ 0x6e ∷ []) token_return false
    ∷ entry (0xd8 ∷ 0xa3 ∷ 0xd8 ∷ 0xb1 ∷ 0xd8 ∷ 0xac ∷ 0xd8 ∷ 0xb9 ∷ []) token_return false
    ∷ entry (0x65 ∷ 0x6c ∷ 0x73 ∷ 0x65 ∷ []) token_else false
    ∷ entry (0xd9 ∷ 0x88 ∷ 0xd8 ∷ 0xa5 ∷ 0xd9 ∷ 0x84 ∷ 0xd8 ∷ 0xa7 ∷ []) token_else false
    ∷ entry (0x69 ∷ 0x66 ∷ []) token_if false
    ∷ entry (0xd9 ∷ 0x84 ∷ 0xd9 ∷ 0x88 ∷ []) token_if false
    ∷ entry (0x61 ∷ 0x6e ∷ 0x79 ∷ []) token_any false
    ∷ entry (0xd8 ∷ 0xa3 ∷ 0xd9 ∷ 0x8a ∷ []) token_any false
    ∷ entry (0x62 ∷ 0x6f ∷ 0x6f ∷ 0x6c ∷ []) token_bool false
    ∷ entry (0xd9 ∷ 0x85 ∷ 0xd9 ∷ 0x86 ∷ 0xd8 ∷ 0xb7 ∷ 0xd9 ∷ 0x82 ∷ 0xd9 ∷ 0x8a ∷ []) token_bool
        false
    ∷ entry (0x73 ∷ 0x74 ∷ 0x72 ∷ 0x69 ∷ 0x6e ∷ 0x67 ∷ []) token_string false
    ∷ entry (0xd9 ∷ 0x86 ∷ 0xd8 ∷ 0xb5 ∷ []) token_string false
    ∷ entry (0x63 ∷ 0x68 ∷ 0x61 ∷ 0x72 ∷ []) token_char false
    ∷ entry (0xd8 ∷ 0xad ∷ 0xd8 ∷ 0xb1 ∷ 0xd9 ∷ 0x81 ∷ []) token_char false
    ∷ entry (0x69 ∷ 0x6e ∷ 0x74 ∷ []) token_int false
    ∷ entry (0xd8 ∷ 0xb9 ∷ 0xd8 ∷ 0xaf ∷ 0xd8 ∷ 0xaf ∷ []) token_int false
    ∷ entry (0x75 ∷ 0x69 ∷ 0x6e ∷ 0x74 ∷ []) token_uint false
    ∷ entry
        (0xd8 ∷ 0xba ∷ 0xd9 ∷ 0x8a ∷ 0xd8 ∷ 0xb1 ∷ 0x5f ∷ 0xd9 ∷ 0x85 ∷ 0xd9 ∷ 0x88 ∷ 0xd9 ∷ 0x82
          ∷ 0xd8 ∷ 0xb9 ∷ [])
        token_uint false
    ∷ entry (0x66 ∷ 0x6c ∷ 0x6f ∷ 0x61 ∷ 0x74 ∷ []) token_float false
    ∷ entry
        (0xd8 ∷ 0xb9 ∷ 0xd8 ∷ 0xaf ∷ 0xd8 ∷ 0xaf ∷ 0x5f ∷ 0xd8 ∷ 0xb9 ∷ 0xd8 ∷ 0xa7 ∷ 0xd8 ∷ 0xa6
          ∷ 0xd9 ∷ 0x85 ∷ [])
        token_float false
    ∷ entry (0x76 ∷ 0x6f ∷ 0x69 ∷ 0x64 ∷ []) token_void false
    ∷ entry (0xd9 ∷ 0x81 ∷ 0xd8 ∷ 0xb1 ∷ 0xd8 ∷ 0xa7 ∷ 0xd8 ∷ 0xba ∷ []) token_void false
    ∷ entry (0x69 ∷ 0x38 ∷ []) token_i8 false
    ∷ entry (0xd8 ∷ 0xb5 ∷ 0x38 ∷ []) token_i8 false
    ∷ entry (0x69 ∷ 0x31 ∷ 0x36 ∷ []) token_i16 false
    ∷ entry (0xd8 ∷ 0xb5 ∷ 0x31 ∷ 0x36 ∷ []) token_i16 false
    ∷ entry (0x69 ∷ 0x33 ∷ 0x32 ∷ []) token_i32 false
    ∷ entry (0xd8 ∷ 0xb5 ∷ 0x33 ∷ 0x32 ∷ []) token_i32 false
    ∷ entry (0x69 ∷ 0x36 ∷ 0x34 ∷ []) token_i64 false
    ∷ entry (0xd8 ∷ 0xb5 ∷ 0x36 ∷ 0x34 ∷ []) token_i64 false
    ∷ entry (0x75 ∷ 0x38 ∷ []) token_u8 false
    ∷ entry (0xd8 ∷ 0xba ∷ 0x38 ∷ []) token_u8 false
    ∷ entry (0x75 ∷ 0x31 ∷ 0x36 ∷ []) token_u16 false
    ∷ entry (0xd8 ∷ 0xba ∷ 0x31 ∷ 0x36 ∷ []) token_u16 false
    ∷ entry (0x75 ∷ 0x33 ∷ 0x32 ∷ []) token_u32 false
    ∷ entry (0xd8 ∷ 0xba ∷ 0x33 ∷ 0x32 ∷ []) token_u32 false
    ∷ entry (0x75 ∷ 0x36 ∷ 0x34 ∷ []) token_u64 false
    ∷ entry (0xd8 ∷ 0xba ∷ 0x36 ∷ 0x34 ∷ []) token_u64 false
    ∷ entry (0x66 ∷ 0x33 ∷ 0x32 ∷ []) token_f32 false
    ∷ entry (0xd8 ∷ 0xb9 ∷ 0x33 ∷ 0x32 ∷ []) token_f32 false
    ∷ entry (0x66 ∷ 0x36 ∷ 0x34 ∷ []) token_f64 false
    ∷ entry (0xd8 ∷ 0xb9 ∷ 0x36 ∷ 0x34 ∷ []) token_f64 false
    ∷ entry (0x61 ∷ 0x73 ∷ 0x6d ∷ []) token_assembly false
    ∷ entry (0xd8 ∷ 0xaa ∷ 0xd8 ∷ 0xac ∷ 0xd9 ∷ 0x85 ∷ 0xd9 ∷ 0x8a ∷ 0xd8 ∷ 0xb9 ∷ [])
        token_assembly false
    ∷ entry (0x75 ∷ 0x6e ∷ 0x73 ∷ 0x61 ∷ 0x66 ∷ 0x65 ∷ []) token_unsafe false
    ∷ entry
        (0xd8 ∷ 0xba ∷ 0xd9 ∷ 0x8a ∷ 0xd8 ∷ 0xb1 ∷ 0x5f ∷ 0xd8 ∷ 0xa2 ∷ 0xd9 ∷ 0x85 ∷ 0xd9 ∷ 0x86
          ∷ [])
        token_unsafe false
    ∷ entry (0x77 ∷ 0x68 ∷ 0x69 ∷ 0x6c ∷ 0x65 ∷ []) token_while false
    ∷ entry (0xd8 ∷ 0xa8 ∷ 0xd9 ∷ 0x8a ∷ 0xd9 ∷ 0x86 ∷ 0xd9 ∷ 0x85 ∷ 0xd8 ∷ 0xa7 ∷ []) token_while
        false
    ∷ entry (0x66 ∷ 0x6f ∷ 0x72 ∷ []) token_for false
    ∷ entry (0xd9 ∷ 0x84 ∷ 0xd9 ∷ 0x83 ∷ 0xd9 ∷ 0x84 ∷ []) token_for false
    ∷ entry (0x62 ∷ 0x72 ∷ 0x65 ∷ 0x61 ∷ 0x6b ∷ []) token_break false
    ∷ entry
        (0xd8 ∷ 0xa7 ∷ 0xd8 ∷ 0xae ∷ 0xd8 ∷ 0xb1 ∷ 0xd8 ∷ 0xac ∷ 0x5f ∷ 0xd9 ∷ 0x85 ∷ 0xd9 ∷ 0x86
          ∷ 0x5f ∷ 0xd8 ∷ 0xad ∷ 0xd9 ∷ 0x84 ∷ 0xd9 ∷ 0x82 ∷ 0xd8 ∷ 0xa9 ∷ [])
        token_break false
    ∷ entry (0x63 ∷ 0x6f ∷ 0x6e ∷ 0x74 ∷ 0x69 ∷ 0x6e ∷ 0x75 ∷ 0x65 ∷ []) token_continue false
    ∷ entry
        (0xd8 ∷ 0xaa ∷ 0xd8 ∷ 0xa7 ∷ 0xd8 ∷ 0xa8 ∷ 0xd8 ∷ 0xb9 ∷ 0x5f ∷ 0xd8 ∷ 0xad ∷ 0xd9 ∷ 0x84
          ∷ 0xd9 ∷ 0x82 ∷ 0xd8 ∷ 0xa9 ∷ [])
        token_continue false
    ∷ entry (0x74 ∷ 0x79 ∷ 0x70 ∷ 0x65 ∷ []) token_type false
    ∷ entry (0xd9 ∷ 0x86 ∷ 0xd9 ∷ 0x88 ∷ 0xd8 ∷ 0xb9 ∷ []) token_type false
    ∷ entry (0x6d ∷ 0x61 ∷ 0x74 ∷ 0x63 ∷ 0x68 ∷ []) token_match false
    ∷ entry (0xd8 ∷ 0xb7 ∷ 0xd8 ∷ 0xa7 ∷ 0xd8 ∷ 0xa8 ∷ 0xd9 ∷ 0x82 ∷ []) token_match false
    ∷ entry (0x77 ∷ 0x69 ∷ 0x74 ∷ 0x68 ∷ []) token_with false
    ∷ entry (0xd9 ∷ 0x85 ∷ 0xd8 ∷ 0xb9 ∷ []) token_with false
    ∷ entry (0x6d ∷ 0x75 ∷ 0x74 ∷ 0x61 ∷ 0x62 ∷ 0x6c ∷ 0x65 ∷ []) token_mutable false
    ∷ entry (0xd9 ∷ 0x85 ∷ 0xd8 ∷ 0xaa ∷ 0xd8 ∷ 0xba ∷ 0xd9 ∷ 0x8a ∷ 0xd8 ∷ 0xb1 ∷ []) token_mutable
        false
    ∷ entry (0x70 ∷ 0x75 ∷ 0x62 ∷ 0x6c ∷ 0x69 ∷ 0x63 ∷ []) token_public false
    ∷ entry (0xd8 ∷ 0xb9 ∷ 0xd8 ∷ 0xa7 ∷ 0xd9 ∷ 0x85 ∷ []) token_public false
    ∷ entry (0x73 ∷ 0x6c ∷ 0x69 ∷ 0x63 ∷ 0x65 ∷ []) token_slice_operator false
    ∷ entry (0xd8 ∷ 0xb4 ∷ 0xd8 ∷ 0xb1 ∷ 0xd9 ∷ 0x8a ∷ 0xd8 ∷ 0xad ∷ 0xd8 ∷ 0xa9 ∷ [])
        token_slice_operator false
    ∷ entry (0x62 ∷ 0x6f ∷ 0x78 ∷ []) token_box_operator false
    ∷ entry (0xd8 ∷ 0xb5 ∷ 0xd9 ∷ 0x86 ∷ 0xd8 ∷ 0xaf ∷ 0xd9 ∷ 0x88 ∷ 0xd9 ∷ 0x82 ∷ [])
        token_box_operator false
    ∷ entry (0x74 ∷ 0x72 ∷ 0x75 ∷ 0x65 ∷ []) token_lit_bool true
    ∷ entry (0xd8 ∷ 0xb5 ∷ 0xd9 ∷ 0x88 ∷ 0xd8 ∷ 0xa7 ∷ 0xd8 ∷ 0xa8 ∷ []) token_lit_bool true
    ∷ entry (0x66 ∷ 0x61 ∷ 0x6c ∷ 0x73 ∷ 0x65 ∷ []) token_lit_bool false
    ∷ entry (0xd8 ∷ 0xae ∷ 0xd8 ∷ 0xb7 ∷ 0xd8 ∷ 0xa3 ∷ []) token_lit_bool false
    ∷ []
