-- ===== src/Frontend/Lexer/Strings.antt =====
-- String and character literals: bootstrap/src/frontend/lexer/lexer_string.c. `grant` is the allocator of
-- the text builder and of the arena. The builder of a string is released with it, so it is no part of
-- the answer. Each round of the two loops reads at least one byte, so as many rounds as there are bytes
-- left are enough; the clause without fuel answers what the loops answer at the end of the source.
use sultanc.Prelude.{
  ℕ, zero, suc, ◌+◌, ◌-◌, Bool, true, false, not, ◌||◌, Option, none, some, List, [], ◌∷◌, map,
  length, take, drop, leb, ◌==◌, if◌then◌else◌,
}
use sultanc.Core.Source.{SourcePosition}
use sultanc.Support.Utf8.{decode, is_scalar}
use sultanc.Support.Arena.{Arena, StoredText, copy_text}
use sultanc.Support.Builder
use sultanc.Frontend.Token.{Token, token_lit_str, token_lit_char}
use sultanc.Frontend.Lexer.Cursor.{
  Lexer, has, peek, matches, advance_bytes, fail, syntax_error, invalid_utf8_byte,
  internal_context_error, word_internal_oom, word_invalid_utf8_string, word_unterminated_string,
  word_unterminated_character, word_unterminated_character_escape, word_bad_character_escape,
  word_invalid_utf8_character, set_token_text, set_token_character,
}
use sultanc.Frontend.Lexer.Escapes.{Appended, appended, scan_escape, parse_hex_escape}
use sultanc.Frontend.Lexer.Runs.{remaining}

-- `«` and `»`
abbrev pub left_guillemet : List ℕ
left_guillemet = 0xc2 ∷ 0xab ∷ []

abbrev pub right_guillemet : List ℕ
right_guillemet = 0xc2 ∷ 0xbb ∷ []

-- The bytes that the builder holds, which the arena copies.
abbrev pub written : Option ℕ → ℕ
written none = 0
written (some byte) = byte

abbrev pub built_text : Builder.Builder → List ℕ
built_text builder = map written (take builder.len builder.slots)

abbrev pub finish_copy :
    Lexer → SourcePosition → ℕ → List ℕ → Arena × Option StoredText → Lexer × Option Token
finish_copy lexer start start_offset text (arena, none) =
    fail (record lexer { literal_arena = arena }) internal_context_error start word_internal_oom
finish_copy lexer start start_offset text (arena, some stored) =
    set_token_text (record lexer { literal_arena = arena }) token_lit_str start start_offset
      (take (length text) stored.bytes)

-- `__Lexer_Finish_String__`
unfoldable pub finish_string :
    (ℕ → Bool) → Lexer → SourcePosition → ℕ → Builder.Builder → Lexer × Option Token
finish_string grant lexer start start_offset builder =
    let text = built_text builder in
    finish_copy lexer start start_offset text (copy_text grant lexer.literal_arena text)

-- An append, and the move behind it or the failure.
abbrev pub append_and_advance : Lexer → SourcePosition → ℕ → Builder.Builder × Bool → Appended
append_and_advance lexer start count (builder, false) =
    appended (fail lexer internal_context_error start word_internal_oom).0 (builder, false)
append_and_advance lexer start count (builder, true) =
    appended (advance_bytes lexer count) (builder, true)

-- The bytes from the cursor on.
abbrev pub upcoming : Lexer → List ℕ
upcoming lexer = drop lexer.offset lexer.source.bytes

-- `__Lexer_Append_Raw_Character__`
unfoldable pub append_raw_character :
    (ℕ → Bool) → Lexer → Builder.Builder → SourcePosition → Appended
append_raw_character grant lexer builder start =
    let byte = peek lexer 0 in
    let decoded = decode (upcoming lexer) in
    if leb 0x80 byte
    then if not decoded.valid
      then appended (fail lexer invalid_utf8_byte start word_invalid_utf8_string).0 (builder, false)
      else append_and_advance lexer start decoded.width
          (Builder.append grant builder (take decoded.width (upcoming lexer)))
    else append_and_advance lexer start 1 (Builder.append_byte grant builder byte)

-- The rest of a loop behind one round of it.
abbrev pub resume :
    (Lexer → Builder.Builder → Lexer × Option Token) → Appended → Lexer × Option Token
resume continue a = if a.success then continue a.lexer a.builder else (a.lexer, none)

-- The loop of `__Lexer_Scan_String__` between guillemets.
unfoldable pub scan_raw :
    (ℕ → Bool) → SourcePosition → ℕ → ℕ → ℕ → Lexer → Builder.Builder → Lexer × Option Token
unfolding append_raw_character
scan_raw grant start start_offset zero depth lexer builder =
    fail lexer syntax_error start word_unterminated_string
scan_raw grant start start_offset (suc fuel) depth lexer builder =
    let deeper = resume (scan_raw grant start start_offset fuel (depth + 1)) in
    let shallower = resume (scan_raw grant start start_offset fuel (depth - 1)) in
    let level = resume (scan_raw grant start start_offset fuel depth) in
    if not (has lexer 1)
    then fail lexer syntax_error start word_unterminated_string
    else if matches lexer left_guillemet
    then if leb 256 depth
      then fail lexer syntax_error start word_unterminated_string
      else deeper (append_and_advance lexer start 2 (Builder.append grant builder left_guillemet))
    else if matches lexer right_guillemet
    then if depth - 1 == 0
      then finish_string grant (advance_bytes lexer 2) start start_offset builder
      else shallower
          (append_and_advance lexer start 2 (Builder.append grant builder right_guillemet))
    else level (append_raw_character grant lexer builder start)

-- The loop of `__Lexer_Scan_String__` between quotation marks.
unfoldable pub scan_quoted :
    (ℕ → Bool) → SourcePosition → ℕ → ℕ → Lexer → Builder.Builder → Lexer × Option Token
unfolding append_raw_character scan_escape
scan_quoted grant start start_offset zero lexer builder =
    fail lexer syntax_error start word_unterminated_string
scan_quoted grant start start_offset (suc fuel) lexer builder =
    let rest = resume (scan_quoted grant start start_offset fuel) in
    if not (has lexer 1)
    then fail lexer syntax_error start word_unterminated_string
    else if peek lexer 0 == 0x22
    then finish_string grant (advance_bytes lexer 1) start start_offset builder
    else if peek lexer 0 == 0x0a
    then fail lexer syntax_error start word_unterminated_string
    else if peek lexer 0 == 0x5c
    then rest (scan_escape grant (advance_bytes lexer 1) builder start)
    else rest (append_raw_character grant lexer builder start)

-- `__Lexer_Scan_String__`
unfoldable pub scan_string : (ℕ → Bool) → Lexer → SourcePosition → ℕ → Bool → Lexer × Option Token
unfolding scan_raw scan_quoted
scan_string grant lexer start start_offset guillemet =
    if guillemet
    then scan_raw grant start start_offset (suc (remaining lexer)) 1 lexer Builder.init
    else scan_quoted grant start start_offset (suc (remaining lexer)) lexer Builder.init

-- The end of `__Lexer_Scan_Character__`: the scalar test and the closing mark.
abbrev pub finish_character : Lexer → SourcePosition → ℕ → ℕ → Lexer × Option Token
finish_character lexer start start_offset codepoint =
    if not (is_scalar codepoint)
    then fail lexer syntax_error start word_bad_character_escape
    else if not (has lexer 1) || not (peek lexer 0 == 0x27)
    then fail lexer syntax_error start word_unterminated_character
    else set_token_character (advance_bytes lexer 1) token_lit_char start start_offset codepoint

abbrev pub finish_hex : Lexer × Option ℕ → SourcePosition → ℕ → Lexer × Option Token
finish_hex (lexer, none) start start_offset =
    fail lexer syntax_error start word_bad_character_escape
finish_hex (lexer, some codepoint) start start_offset =
    finish_character lexer start start_offset codepoint

-- The switch on the escape byte.
abbrev pub character_escape : Lexer → SourcePosition → ℕ → ℕ → Lexer × Option Token
character_escape lexer start start_offset escape =
    if escape == 0x6e
    then finish_character lexer start start_offset 0x0a
    else if escape == 0x72
    then finish_character lexer start start_offset 0x0d
    else if escape == 0x74
    then finish_character lexer start start_offset 0x09
    else if escape == 0x5c
    then finish_character lexer start start_offset 0x5c
    else if escape == 0x27
    then finish_character lexer start start_offset 0x27
    else if escape == 0x78
    then finish_hex (parse_hex_escape lexer 2) start start_offset
    else if escape == 0x75
    then finish_hex (parse_hex_escape lexer 4) start start_offset
    else if escape == 0x55
    then finish_hex (parse_hex_escape lexer 8) start start_offset
    else fail lexer syntax_error start word_bad_character_escape

-- `__Lexer_Scan_Character__`
unfoldable pub scan_character : Lexer → SourcePosition → ℕ → Lexer × Option Token
unfolding parse_hex_escape
scan_character lexer start start_offset =
    let behind = advance_bytes lexer 1 in
    let decoded = decode (upcoming lexer) in
    if not (has lexer 1)
    then fail lexer syntax_error start word_unterminated_character
    else if peek lexer 0 == 0x5c
    then if not (has behind 1)
      then fail behind syntax_error start word_unterminated_character_escape
      else character_escape (advance_bytes behind 1) start start_offset (peek behind 0)
    else if not decoded.valid
    then fail lexer invalid_utf8_byte start word_invalid_utf8_character
    else finish_character (advance_bytes lexer decoded.width) start start_offset decoded.codepoint
