-- ===== src/Frontend/Lexer/Next.antt =====
-- The next token: bootstrap/src/frontend/lexer/lexer_next.c. Each loop reads at least one byte a round, so
-- as many rounds as there are bytes left are enough.
pub mod Answers
pub mod Literals
pub mod Appends
pub mod Texts
pub mod Words
pub mod Progress
pub mod Fuel
pub mod Trivia
pub mod Stream
use sultanc.Prelude.{
  ℕ, zero, suc, ◌+◌, ◌-◌, ◌*◌, ◌/◌, ◌%◌, ◌^◌, Bool, true, false, not, ◌&&◌, ◌||◌, Option, none,
  some, List, [], ◌∷◌, length, drop, leb, ltb, ◌==◌, if◌then◌else◌, int64_max, wrap64,
}
use sultanc.Core.Source.{SourcePosition, source_slice}
use sultanc.Support.Utf8.{DecodeResult, invalid, decode}
use sultanc.Frontend.Token.{
  Token, TokenKind, token_eof, token_lit_bool, token_identifier, token_underscore_operator,
  token_underscore_with_index,
}
use sultanc.Frontend.Identity.{has_content}
use sultanc.Frontend.Lexer.Characters.{is_decimal_digit, is_id_start, is_id_rest}
use sultanc.Frontend.Lexer.Cursor.{
  Lexer, has, peek, matches, advance_bytes, position, fail, syntax_error, invalid_utf8_byte,
  word_invalid_integer, word_invalid_initial_utf8, word_unexpected_character, set_token,
  set_token_index, set_token_boolean,
}
use sultanc.Frontend.Lexer.Runs.{run, remaining}
use sultanc.Frontend.Lexer.KeywordTable.{Entry}
use sultanc.Frontend.Lexer.Keywords.{keyword_lookup}
use sultanc.Frontend.Lexer.Operators.{scan_operator}
use sultanc.Frontend.Lexer.Numbers.{scan_number}
use sultanc.Frontend.Lexer.Strings.{left_guillemet, scan_string, scan_character}

-- `__Lexer_Decode_At__`
unfoldable pub decode_at : Lexer → ℕ → DecodeResult
decode_at lexer offset =
    if leb (length lexer.source.bytes) offset
    then invalid
    else decode (drop offset lexer.source.bytes)

abbrev pub is_blank : ℕ → Bool
is_blank byte = byte == 0x20 || byte == 0x09 || byte == 0x0d || byte == 0x0a

abbrev pub in_comment : ℕ → Bool
in_comment byte = not (byte == 0x0a)

-- The loop over blanks and comments.
unfoldable pub skip_trivia : ℕ → Lexer → Lexer
skip_trivia zero lexer = lexer
skip_trivia (suc fuel) lexer =
    let behind = run is_blank lexer in
    let rest = skip_trivia fuel (run in_comment behind) in
    if matches behind (0x2f ∷ 0x2f ∷ []) then rest else behind

-- The loop over the digits of an index.
unfoldable pub scan_index : ℕ → ℕ → Lexer → SourcePosition → ℕ → Lexer × Option Token
scan_index zero value lexer start start_offset =
    set_token_index lexer token_underscore_with_index start start_offset value
scan_index (suc fuel) value lexer start start_offset =
    let digit = peek lexer 0 - 0x30 in
    let rest =
      scan_index fuel (wrap64 (value * 10 + digit)) (advance_bytes lexer 1) start start_offset in
    if has lexer 1 && is_decimal_digit (peek lexer 0)
    then if ltb ((int64_max - digit) / 10) value
      then fail lexer syntax_error start word_invalid_integer
      else rest
    else set_token_index lexer token_underscore_with_index start start_offset value

-- The loop over the characters of an identifier; the flag is false at its early return.
unfoldable pub identifier_run : ℕ → Lexer → Lexer × Bool
unfolding decode_at
identifier_run zero lexer = (lexer, true)
identifier_run (suc fuel) lexer =
    let current = decode_at lexer lexer.offset in
    let rest = identifier_run fuel (advance_bytes lexer current.width) in
    if not (has lexer 1)
    then (lexer, true)
    else if not current.valid
    then (lexer, false)
    else if not (is_id_rest current.codepoint)
    then (lexer, true)
    else rest

abbrev pub is_lit_bool : TokenKind → Bool
is_lit_bool token_lit_bool = true
is_lit_bool _ = false

abbrev pub take_word : Lexer → SourcePosition → ℕ → Option Entry → Lexer × Option Token
take_word lexer start start_offset none = set_token lexer token_identifier start start_offset
take_word lexer start start_offset (some keyword) =
    if is_lit_bool keyword.kind
    then set_token_boolean lexer keyword.kind start start_offset keyword.boolean_value
    else set_token lexer keyword.kind start start_offset

-- The identifier or keyword behind its characters.
abbrev pub finish_word : Lexer × Bool → SourcePosition → ℕ → Lexer × Option Token
finish_word (lexer, false) start start_offset =
    fail lexer invalid_utf8_byte start word_invalid_initial_utf8
finish_word (lexer, true) start start_offset =
    let text = source_slice lexer.source start_offset lexer.offset in
    if not (has_content text)
    then fail lexer syntax_error start word_unexpected_character
    else take_word lexer start start_offset (keyword_lookup text)

-- The last part: an operator, or a failure.
abbrev pub scan_symbol : Lexer × Option Token → SourcePosition → Lexer × Option Token
scan_symbol (lexer, some token) start = (lexer, some token)
scan_symbol (lexer, none) start =
    if leb 0x80 (peek lexer 0) && not (decode (drop lexer.offset lexer.source.bytes)).valid
    then fail lexer invalid_utf8_byte start word_invalid_initial_utf8
    else fail (advance_bytes lexer 1) syntax_error start word_unexpected_character

-- From the test for a number on.
abbrev pub scan_plain : Lexer → SourcePosition → ℕ → Lexer × Option Token
scan_plain lexer start start_offset =
    let first = decode_at lexer start_offset in
    if is_decimal_digit (peek lexer 0)
    then scan_number lexer start start_offset
    else if first.valid && is_id_start first.codepoint
    then finish_word (identifier_run (remaining lexer) lexer) start start_offset
    else scan_symbol (scan_operator lexer start start_offset) start

-- From an underscore on.
abbrev pub scan_underscore : Lexer → SourcePosition → ℕ → Lexer × Option Token
scan_underscore lexer start start_offset =
    let next = decode_at lexer (start_offset + 1) in
    if has lexer 2 && is_decimal_digit (peek lexer 1)
    then scan_index (remaining lexer) 0 (advance_bytes lexer 1) start start_offset
    else if has lexer 2 && (next.valid && is_id_rest next.codepoint)
    then scan_plain lexer start start_offset
    else set_token (advance_bytes lexer 1) token_underscore_operator start start_offset

-- `__Lexer_Next__` behind blanks and comments.
unfoldable pub scan_token : (ℕ → Bool) → Lexer → Lexer × Option Token
scan_token grant lexer =
    let start = position lexer in
    let start_offset = lexer.offset in
    if not (has lexer 1)
    then set_token lexer token_eof start start_offset
    else if matches lexer left_guillemet
    then scan_string grant (advance_bytes lexer 2) start start_offset true
    else if peek lexer 0 == 0x22
    then scan_string grant (advance_bytes lexer 1) start start_offset false
    else if peek lexer 0 == 0x27
    then scan_character (advance_bytes lexer 1) start start_offset
    else if peek lexer 0 == 0x5f
    then scan_underscore lexer start start_offset
    else scan_plain lexer start start_offset

-- `__Lexer_Next__`
unfoldable pub next : (ℕ → Bool) → Lexer → Lexer × Option Token
next grant lexer =
    if lexer.failed
    then (lexer, none)
    else scan_token grant (skip_trivia (suc (remaining lexer)) lexer)
