-- ===== src/Frontend/Lexer/Escapes.antt =====
-- Escapes: bootstrap/src/frontend/lexer/lexer_escape.c. `grant` is the allocator of the text builder.
use sultanc.Prelude.{
  ℕ, zero, suc, ◌+◌, ◌*◌, bit_or, Bool, true, false, not, ◌&&◌, Option, none, some, length, ◌==◌,
  if◌then◌else◌, wrap32,
}
use sultanc.Core.Source.{SourcePosition}
use sultanc.Support.Utf8.{encode, is_scalar}
use sultanc.Support.Builder.{Builder, append, append_byte}
use sultanc.Frontend.Lexer.Characters.{hex_value}
use sultanc.Frontend.Lexer.Cursor.{
  Lexer, has, peek, advance_bytes, fail, syntax_error, WordingKey, word_unterminated_escape,
  word_bad_hex_escape, word_bad_unicode_escape, word_bad_escape,
}

-- `(value << 4) | digit` on uint32_t.
abbrev pub shift_digit : ℕ → ℕ → ℕ
shift_digit value digit = bit_or (wrap32 (value * 16)) digit

-- The loop of `__Lexer_Parse_Hex_Escape__`: `count` rounds from `index` on; `none` is its early return.
unfoldable pub hex_digits : Lexer → ℕ → ℕ → ℕ → Option ℕ
unfolding hex_value
hex_digits lexer zero index value = some value
hex_digits lexer (suc count) index value = elim (hex_value (peek lexer index)) [
  | none ↦ none
  | some digit ↦ hex_digits lexer count (index + 1) (shift_digit value digit)
]

-- The end of `__Lexer_Parse_Hex_Escape__`.
abbrev pub finish_hex_escape : Lexer → ℕ → Option ℕ → Lexer × Option ℕ
finish_hex_escape lexer digits none = (lexer, none)
finish_hex_escape lexer digits (some value) = (advance_bytes lexer digits, some value)

-- `__Lexer_Parse_Hex_Escape__`: the lexer, and the codepoint; `none` is the answer 0.
unfoldable pub parse_hex_escape : Lexer → ℕ → Lexer × Option ℕ
unfolding hex_digits
parse_hex_escape lexer digits =
    if not (has lexer digits)
    then (lexer, none)
    else finish_hex_escape lexer digits (hex_digits lexer digits 0 0)

-- What the string functions answer: the lexer, the builder, and whether they succeeded.
pub record Appended : Type 0 where
  pub lexer : Lexer
  pub builder : Builder
  pub success : Bool

abbrev pub appended : Lexer → Builder × Bool → Appended
appended lexer (builder, success) = record { lexer = lexer; builder = builder; success = success }

-- `__Lexer_Append_Codepoint__`
abbrev pub append_codepoint : (ℕ → Bool) → Builder → ℕ → Builder × Bool
append_codepoint grant builder codepoint =
    let encoded = encode codepoint in
    if length encoded == 0 then (builder, false) else append grant builder encoded

-- `return __Lexer_Fail__(…)`
abbrev pub fail_appended : Lexer → Builder → SourcePosition → WordingKey → Appended
fail_appended lexer builder start message_key =
    appended (fail lexer syntax_error start message_key).0 (builder, false)

-- The cases of the three numeric escapes; `any` is whether a value that is no scalar is let through.
abbrev pub append_escape :
    (ℕ → Bool) → Bool → Builder → SourcePosition → WordingKey → Lexer × Option ℕ → Appended
append_escape grant any builder start message_key (lexer, none) =
    fail_appended lexer builder start message_key
append_escape grant any builder start message_key (lexer, some codepoint) =
    if not any && not (is_scalar codepoint)
    then fail_appended lexer builder start message_key
    else appended lexer (append_codepoint grant builder codepoint)

-- The switch of `__Lexer_Scan_Escape__` behind the escape byte.
abbrev pub escape_byte : (ℕ → Bool) → Lexer → Builder → SourcePosition → ℕ → Appended
escape_byte grant lexer builder start escape =
    if escape == 0x6e
    then appended lexer (append_byte grant builder 0x0a)
    else if escape == 0x72
    then appended lexer (append_byte grant builder 0x0d)
    else if escape == 0x74
    then appended lexer (append_byte grant builder 0x09)
    else if escape == 0x5c
    then appended lexer (append_byte grant builder 0x5c)
    else if escape == 0x22
    then appended lexer (append_byte grant builder 0x22)
    else if escape == 0x78
    then append_escape grant true builder start word_bad_hex_escape (parse_hex_escape lexer 2)
    else if escape == 0x75
    then append_escape grant false builder start word_bad_unicode_escape (parse_hex_escape lexer 4)
    else if escape == 0x55
    then append_escape grant false builder start word_bad_unicode_escape (parse_hex_escape lexer 8)
    else fail_appended lexer builder start word_bad_escape

-- `__Lexer_Scan_Escape__`
unfoldable pub scan_escape : (ℕ → Bool) → Lexer → Builder → SourcePosition → Appended
unfolding parse_hex_escape
scan_escape grant lexer builder start =
    if not (has lexer 1)
    then fail_appended lexer builder start word_unterminated_escape
    else escape_byte grant (advance_bytes lexer 1) builder start (peek lexer 0)
