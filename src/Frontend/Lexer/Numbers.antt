-- ===== src/Frontend/Lexer/Numbers.antt =====
-- Numeric literals: bootstrap/src/frontend/lexer/lexer_number.c.
pub mod Value
pub mod Literal
use sultanc.Prelude.{
  starts_with, ℕ, zero, suc, ◌+◌, ◌-◌, ◌*◌, ◌/◌, ◌%◌, ◌^◌, Bool, true, false, not, ◌&&◌, ◌||◌,
  Option, none, some, List, [], ◌∷◌, length, drop, ltb, leb, ◌==◌, if◌then◌else◌, size_max,
  int64_max, wrap64,
}
use sultanc.Core.Source.{SourcePosition, source_slice}
use sultanc.Frontend.Token.{Token, token_lit_int, token_lit_flo, IntegerLiteral}
use sultanc.Frontend.Lexer.Characters.{is_decimal_digit, is_hex_digit, within}
use sultanc.Frontend.Lexer.Cursor.{
  Lexer, has, peek, matches, advance_bytes, fail, syntax_error, word_invalid_integer, set_token,
  set_token_integer,
}
use sultanc.Frontend.Lexer.Runs.{run}

-- `0b` and `0x`
abbrev pub binary_prefix : List ℕ
binary_prefix = 0x30 ∷ 0x62 ∷ []

abbrev pub hexadecimal_prefix : List ℕ
hexadecimal_prefix = 0x30 ∷ 0x78 ∷ []

-- The base that the first two bytes of a spelling name.
abbrev pub base_of : List ℕ → ℕ
base_of spelling =
    if starts_with spelling binary_prefix
    then 2
    else if starts_with spelling hexadecimal_prefix
    then 16
    else 10

-- `__Lexer_Digit_For_Base__`
unfoldable pub digit_for_base : ℕ → ℕ → Bool
unfolding is_hex_digit is_decimal_digit
digit_for_base byte base =
    if base == 2
    then byte == 0x30 || byte == 0x31
    else if base == 16
    then is_hex_digit byte
    else is_decimal_digit byte

abbrev pub digit_at_end : ℕ → List ℕ → Bool
digit_at_end base [] = false
digit_at_end base (byte ∷ bytes) = digit_for_base byte base

-- The loop of `__Lexer_Number_Separators_Valid__`; `before` is the byte in front of the index, and
-- nothing at index 0.
unfoldable pub separators_from : ℕ → List ℕ → List ℕ → Bool
unfolding digit_for_base
separators_from base before [] = true
separators_from base before (byte ∷ bytes) =
    let later = separators_from base (byte ∷ []) bytes in
    if byte == 0x5f
    then if not (digit_at_end base before) || not (digit_at_end base bytes) then false else later
    else later

-- `__Lexer_Number_Separators_Valid__`
unfoldable pub separators_valid : List ℕ → Bool
unfolding separators_from
separators_valid spelling = separators_from (base_of spelling) [] spelling

-- The copy of the spelling without its separators.
abbrev pub without_separators : List ℕ → List ℕ
without_separators [] = []
without_separators (byte ∷ bytes) =
    let rest = without_separators bytes in if byte == 0x5f then rest else byte ∷ rest

-- The value of a digit of the largest base.
abbrev pub digit_value : ℕ → Option ℕ
digit_value byte =
    if within byte 0x30 0x39
    then some (byte - 0x30)
    else if within byte 0x61 0x66
    then some (byte - 0x61 + 10)
    else if within byte 0x41 0x46
    then some (byte - 0x41 + 10)
    else none

-- One round on the value so far; `none` is the early return.
abbrev pub add_digit : ℕ → ℕ → Option ℕ → Option ℕ
add_digit base value none = none
add_digit base value (some digit) =
    if leb base digit || ltb ((size_max - digit) / base) value
    then none
    else some (wrap64 (value * base + digit))

-- The loop over the digits.
unfoldable pub accumulate : ℕ → ℕ → List ℕ → Option ℕ
accumulate base value [] = some value
accumulate base value (byte ∷ bytes) = elim (add_digit base value (digit_value byte)) [
  | none ↦ none
  | some next ↦ accumulate base next bytes
]

-- The digits behind the prefix.
abbrev pub digits_of : List ℕ → List ℕ
digits_of buffer = if base_of buffer == 10 then buffer else drop 2 buffer

abbrev pub is_nil : List ℕ → Bool
is_nil [] = true
is_nil (byte ∷ bytes) = false

-- The value, and the flag on values above INT64_MAX.
abbrev pub mark_wide : Option ℕ → Option (ℕ × Bool)
mark_wide none = none
mark_wide (some value) = some (value, ltb int64_max value)

-- `__Lexer_Parse_Integer_Value__`: the 64-bit pattern, and whether it is above INT64_MAX.
unfoldable pub parse_integer_value : List ℕ → Option (ℕ × Bool)
unfolding accumulate
parse_integer_value spelling =
    let buffer = without_separators spelling in
    if leb 256 (length spelling)
    then none
    else if is_nil (digits_of buffer)
    then none
    else mark_wide (accumulate (base_of buffer) 0 (digits_of buffer))

-- `__Lexer_Scan_Decimal_Digits__`
abbrev pub is_decimal_part : ℕ → Bool
is_decimal_part byte = is_decimal_digit byte || byte == 0x5f

abbrev pub scan_decimal_digits : Lexer → Lexer
scan_decimal_digits lexer = run is_decimal_part lexer

abbrev pub is_binary_part : ℕ → Bool
is_binary_part byte = byte == 0x30 || byte == 0x31 || byte == 0x5f

abbrev pub is_hexadecimal_part : ℕ → Bool
is_hexadecimal_part byte = is_hex_digit byte || byte == 0x5f

-- The fraction, and whether there is one.
unfoldable pub scan_fraction : Lexer → Lexer × Bool
scan_fraction lexer =
    if has lexer 2 && peek lexer 0 == 0x2e && is_decimal_digit (peek lexer 1)
    then (scan_decimal_digits (advance_bytes lexer 1), true)
    else (lexer, false)

-- The sign of an exponent.
unfoldable pub scan_sign : Lexer → Lexer
scan_sign lexer =
    if has lexer 1 && (peek lexer 0 == 0x2b || peek lexer 0 == 0x2d)
    then advance_bytes lexer 1
    else lexer

-- The digits of an exponent behind its sign; without a digit the cursor goes back to where it was.
abbrev pub exponent_digits : Lexer → Bool → Lexer → Lexer × Bool
exponent_digits lexer decimal_float signed =
    if has signed 1 && is_decimal_digit (peek signed 0)
    then (scan_decimal_digits signed, true)
    else (
      record signed { offset = lexer.offset; line = lexer.line; column = lexer.column },
      decimal_float,
    )

-- The exponent.
unfoldable pub scan_exponent : Lexer × Bool → Lexer × Bool
unfolding scan_sign
scan_exponent (lexer, decimal_float) =
    if has lexer 1 && (peek lexer 0 == 0x65 || peek lexer 0 == 0x45)
    then exponent_digits lexer decimal_float (scan_sign (advance_bytes lexer 1))
    else (lexer, decimal_float)

-- The part of `__Lexer_Scan_Number__` that moves the cursor; the flag is `__Decimal_Float__`.
unfoldable pub scan_digits : Lexer → Lexer × Bool
unfolding scan_exponent scan_fraction
scan_digits lexer =
    if matches lexer binary_prefix
    then (run is_binary_part (advance_bytes lexer 2), false)
    else if matches lexer hexadecimal_prefix
    then (run is_hexadecimal_part (advance_bytes lexer 2), false)
    else scan_exponent (scan_fraction (scan_decimal_digits lexer))

abbrev pub take_integer :
    Lexer → SourcePosition → ℕ → List ℕ → Option (ℕ × Bool) → Lexer × Option Token
take_integer lexer start start_offset spelling none =
    fail lexer syntax_error start word_invalid_integer
take_integer lexer start start_offset spelling (some (value, unsigned_wide)) =
    set_token_integer lexer token_lit_int start start_offset
      (record { value = value; spelling = spelling; unsigned_wide = unsigned_wide })

-- The rest of `__Lexer_Scan_Number__`.
unfoldable pub finish_number : Lexer × Bool → SourcePosition → ℕ → Lexer × Option Token
unfolding separators_valid parse_integer_value
finish_number (lexer, decimal_float) start start_offset =
    let spelling = source_slice lexer.source start_offset lexer.offset in
    if not (separators_valid spelling)
    then fail lexer syntax_error start word_invalid_integer
    else if decimal_float
    then set_token lexer token_lit_flo start start_offset
    else take_integer lexer start start_offset spelling (parse_integer_value spelling)

-- `__Lexer_Scan_Number__`
unfoldable pub scan_number : Lexer → SourcePosition → ℕ → Lexer × Option Token
unfolding scan_digits finish_number
scan_number lexer start start_offset = finish_number (scan_digits lexer) start start_offset
