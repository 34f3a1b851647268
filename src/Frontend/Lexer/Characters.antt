-- ===== src/Frontend/Lexer/Characters.antt =====
-- Character classes: bootstrap/src/frontend/lexer/lexer_character_*.c.
use sultanc.Prelude.{ℕ, ◌+◌, ◌-◌, Bool, ◌&&◌, ◌||◌, Option, none, some, leb, ◌==◌, if◌then◌else◌}
use sultanc.Frontend.Identity.{ignores_scalar}

-- `x >= low && x <= high`
abbrev pub within : ℕ → ℕ → ℕ → Bool
within x low high = leb low x && leb x high

-- `__Lexer_Is_Decimal_Digit__`
unfoldable pub is_decimal_digit : ℕ → Bool
is_decimal_digit byte = within byte 0x30 0x39

-- `__Lexer_Is_Hex_Digit__`
unfoldable pub is_hex_digit : ℕ → Bool
unfolding is_decimal_digit
is_hex_digit byte = is_decimal_digit byte || within byte 0x61 0x66 || within byte 0x41 0x46

-- `__Lexer_Hex_Value__`; `none` is the answer -1.
unfoldable pub hex_value : ℕ → Option ℕ
hex_value byte =
    if within byte 0x30 0x39
    then some (byte - 0x30)
    else if within byte 0x61 0x66
    then some (10 + (byte - 0x61))
    else if within byte 0x41 0x46
    then some (10 + (byte - 0x41))
    else none

-- `__Lexer_Is_Id_Start__`
unfoldable pub is_id_start : ℕ → Bool
is_id_start scalar =
    within scalar 0x0041 0x005a
    || within scalar 0x0061 0x007a
    || within scalar 0x0621 0x063a
    || within scalar 0x0641 0x064a
    || within scalar 0x066e 0x066f
    || within scalar 0x0671 0x06d3
    || within scalar 0x06e5 0x06e6
    || within scalar 0x06ee 0x06ef
    || within scalar 0x06fa 0x06fc
    || within scalar 0x0750 0x077f
    || within scalar 0x08a0 0x08c9
    || scalar == 0x005f
    || scalar == 0x06d5
    || scalar == 0x06ff
    || ignores_scalar scalar

-- `__Lexer_Is_Id_Rest__`
unfoldable pub is_id_rest : ℕ → Bool
unfolding is_id_start
is_id_rest scalar =
    is_id_start scalar
    || within scalar 0x0030 0x0039
    || within scalar 0x064b 0x065f
    || within scalar 0x0660 0x0669
    || within scalar 0x06d6 0x06dc
    || within scalar 0x06df 0x06e4
    || within scalar 0x06e7 0x06e8
    || within scalar 0x06ea 0x06ed
    || within scalar 0x06f0 0x06f9
    || within scalar 0x08d3 0x08ff
    || scalar == 0x0670
