-- ===== src/Support/Utf8.antt =====
-- UTF-8 decoding and encoding: bootstrap/src/support/text/utf8_decode.c and utf8_encode.c.
-- The pointer and the length that the decoder takes are the list of the bytes that remain; a null
-- pointer is the empty list, on which the source answers the same.
mod Arithmetic
pub mod Shapes
pub mod RoundTrip
pub mod Shortest
use sultanc.Prelude.{
  ℕ, zero, suc, ◌-◌, ◌*◌, ◌/◌, ◌%◌, ◌^◌, bit_and, bit_or, Bool, true, false, not, ◌&&◌, ◌||◌,
  Option, none, some, List, [], ◌∷◌, length, get_or, ltb, leb, ◌==◌, if◌then◌else◌, wrap32,
}

-- `__Utf8_Decode_Result__`
pub record DecodeResult : Type 0 where
  pub codepoint : ℕ
  pub width : ℕ
  pub valid : Bool

-- The all-zero result that the source starts from and returns on every failure.
abbrev pub invalid : DecodeResult
invalid = record { codepoint = 0; width = 0; valid = false }

-- `__Utf8_Is_Continuation_Byte__`
unfoldable pub is_continuation_byte : ℕ → Bool
is_continuation_byte byte = bit_and byte 0xc0 == 0x80

-- `__Utf8_Is_Scalar__`
unfoldable pub is_scalar : ℕ → Bool
is_scalar codepoint = leb codepoint 0x10ffff && not (leb 0xd800 codepoint && leb codepoint 0xdfff)

-- The ladder on the first byte: the width, and the bits of the codepoint that the byte carries.
unfoldable pub lead : ℕ → Option (ℕ × ℕ)
lead first =
    if leb 0xc2 first && leb first 0xdf
    then some (2, bit_and first 0x1f)
    else if leb 0xe0 first && leb first 0xef
    then some (3, bit_and first 0x0f)
    else if leb 0xf0 first && leb first 0xf4
    then some (4, bit_and first 0x07)
    else none

-- `(codepoint << 6) | (byte & 0x3F)` on uint32_t.
unfoldable pub shift_in : ℕ → ℕ → ℕ
shift_in codepoint byte = bit_or (wrap32 (codepoint * 64)) (bit_and byte 0x3f)

-- The loop over the continuation bytes; `none` is its early return. `count` is the number of
-- rounds left, and the list holds the bytes from the current index on.
unfoldable pub continue_bytes : ℕ → ℕ → List ℕ → Option ℕ
continue_bytes zero codepoint bytes = some codepoint
continue_bytes (suc count) codepoint [] = none
continue_bytes (suc count) codepoint (byte ∷ bytes) =
    let rest = continue_bytes count (shift_in codepoint byte) bytes in
    if not (is_continuation_byte byte) then none else rest

-- The last test: overlong forms, surrogates and values past the last codepoint are refused.
unfoldable pub accept : ℕ → ℕ → DecodeResult
accept width codepoint =
    if (width == 2 && ltb codepoint 0x80)
      || (width == 3 && ltb codepoint 0x800)
      || (width == 4 && ltb codepoint 0x10000)
      || not (is_scalar codepoint)
    then invalid
    else record { codepoint = codepoint; width = width; valid = true }

abbrev pub finish_decode : ℕ → Option ℕ → DecodeResult
finish_decode width none = invalid
finish_decode width (some codepoint) = accept width codepoint

abbrev pub decode_wide : Option (ℕ × ℕ) → ℕ → List ℕ → DecodeResult
decode_wide none remaining rest = invalid
decode_wide (some (width, codepoint)) remaining rest =
    if ltb remaining width
    then invalid
    else finish_decode width (continue_bytes (width - 1) codepoint rest)

-- `__Utf8_Decode__`
unfoldable pub decode : List ℕ → DecodeResult
decode [] = invalid
decode (first ∷ rest) =
    if leb first 0x7f
    then record { codepoint = first; width = 1; valid = true }
    else decode_wide (lead first) (suc (length rest)) rest

-- `__Utf8_Encode__`: the bytes written to `Out`; their number is what the function returns.
unfoldable pub encode : ℕ → List ℕ
encode codepoint =
    if not (is_scalar codepoint)
    then []
    else if leb codepoint 0x7f
    then codepoint % 256 ∷ []
    else if leb codepoint 0x7ff
    then bit_or 0xc0 (codepoint / 2 ^ 6) % 256 ∷ bit_or 0x80 (bit_and codepoint 0x3f) % 256 ∷ []
    else if leb codepoint 0xffff
    then bit_or 0xe0 (codepoint / 2 ^ 12) % 256
      ∷ bit_or 0x80 (bit_and (codepoint / 2 ^ 6) 0x3f) % 256
      ∷ bit_or 0x80 (bit_and codepoint 0x3f) % 256
      ∷ []
    else bit_or 0xf0 (codepoint / 2 ^ 18) % 256
      ∷ bit_or 0x80 (bit_and (codepoint / 2 ^ 12) 0x3f) % 256
      ∷ bit_or 0x80 (bit_and (codepoint / 2 ^ 6) 0x3f) % 256
      ∷ bit_or 0x80 (bit_and codepoint 0x3f) % 256
      ∷ []
