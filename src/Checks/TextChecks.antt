-- ===== src/Checks/TextChecks.antt =====
-- The theorems on bootstrap/src/support/text at concrete inputs.
use sultanc.Prelude.{ℕ, ◌≡◌, refl, arith, Bool, true, some, List, [], ◌∷◌, ◌++◌, length, get_elem?}
use sultanc.Support.Growth.{double_until}
use sultanc.Support.Utf8.{
  decode, encode, is_scalar, lead, continue_bytes, is_continuation_byte, accept, shift_in,
}
use sultanc.Support.Utf8.Shapes.{accepted}
use sultanc.Support.Utf8.RoundTrip.{decode-encode}
use sultanc.Support.Utf8.Shortest.{IsEncoding, decode-IsEncoding}
use sultanc.Support.Builder.{init, append}
use sultanc.Support.Builder.Refinement.{Represents, init-Represents, append-Represents}

abbrev grants_all : ℕ → Bool
grants_all bytes = true

decode-encode_example :
    decode (encode 0x1f600 ++ 7 ∷ []) ≡ accepted 0x1f600 (length (encode 0x1f600))
unfolding is_scalar
decode-encode_example = decode-encode 0x1f600 (7 ∷ []) refl

-- The Arabic letter alef, and a Latin letter behind it.
decode-IsEncoding_example : IsEncoding (0xd8 ∷ 0xa7 ∷ 0x41 ∷ []) 0x627 2
unfolding decode lead continue_bytes is_continuation_byte accept shift_in is_scalar
decode-IsEncoding_example =
    decode-IsEncoding (0xd8 ∷ 0xa7 ∷ 0x41 ∷ []) 0x627 2
      (omega arith, (omega arith, (omega arith, tt))) refl

abbrev word : List ℕ
word = 0x61 ∷ 0x62 ∷ 0x63 ∷ []

append-Represents_example :
    Represents (append grants_all init word).0 word
    × (get_elem? (append grants_all init word).0.slots (append grants_all init word).0.len
        ≡ some (some 0))
unfolding append double_until
append-Represents_example =
    append-Represents grants_all init (append grants_all init word).0 [] word init-Represents
      (omega arith) refl
