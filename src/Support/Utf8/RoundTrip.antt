-- ===== src/Support/Utf8/RoundTrip.antt =====
-- The decoder reads back what the encoder wrote.
use sultanc.Prelude.{
  ℕ, ◌+◌, ◌*◌, ◌/◌, ◌%◌, ◌≤◌, ◌≡◌, arith, true, List, ◌++◌, length, leb, inl, inr, Bool-cases,
}
use sultanc.Support.Utf8.{is_scalar, accept, decode, encode}
use sultanc.Support.Utf8.Shapes.{
  accepted, decode_two, decode_three, decode_four, encode_one, encode_two, encode_three,
  encode_four,
}

decode-encode_one :
    (c : ℕ) (rest : List ℕ) → c ≤ 0x7f → decode (encode c ++ rest) ≡ accepted c (length (encode c))
unfolding decode
decode-encode_one c rest h = rw (encode_one c h) (ground arith)

decode-encode_two :
    (c : ℕ) (rest : List ℕ)
    → 0x80 ≤ c
    → c ≤ 0x7ff
    → decode (encode c ++ rest) ≡ accepted c (length (encode c))
unfolding accept is_scalar
decode-encode_two c rest h k =
    rw (encode_two c h k) (ground (arith, decode_two (c / 64) (c % 64) rest))

decode-encode_three :
    (c : ℕ) (rest : List ℕ)
    → 0x800 ≤ c
    → c ≤ 0xffff
    → is_scalar c ≡ true
    → decode (encode c ++ rest) ≡ accepted c (length (encode c))
unfolding accept
decode-encode_three c rest h k s =
    let whole : (c / 4096 * 64 + c / 64 % 64) * 64 + c % 64 ≡ c = omega arith in
    rw
      (
        encode_three c h k s,
        decode_three (c / 4096) (c / 64 % 64) (c % 64) rest (omega arith) (omega arith)
            (omega arith),
        whole,
      )
      (ground arith)

decode-encode_four :
    (c : ℕ) (rest : List ℕ)
    → 0x10000 ≤ c
    → c ≤ 0x10ffff
    → is_scalar c ≡ true
    → decode (encode c ++ rest) ≡ accepted c (length (encode c))
unfolding accept
decode-encode_four c rest h k s =
    let whole : ((c / 262144 * 64 + c / 4096 % 64) * 64 + c / 64 % 64) * 64 + c % 64 ≡ c =
      omega arith in
    rw
      (
        encode_four c h s,
        decode_four (c / 262144) (c / 4096 % 64) (c / 64 % 64) (c % 64) rest (omega arith)
            (omega arith) (omega arith) (omega arith),
        whole,
      )
      (ground arith)

scalar_bound : (c : ℕ) → is_scalar c ≡ true → c ≤ 0x10ffff
unfolding is_scalar
scalar_bound c h = ground arith

-- The decoder gives back every scalar value that the encoder wrote, with the number of bytes
-- written as the width, whatever bytes follow.
pub decode-encode :
    (c : ℕ) (rest : List ℕ)
    → is_scalar c ≡ true
    → decode (encode c ++ rest) ≡ accepted c (length (encode c))
decode-encode c rest s = elim (Bool-cases (leb c 0x7f)) [
  | inl one ↦ decode-encode_one c rest (ground arith)
  | inr wide ↦ elim (Bool-cases (leb c 0x7ff)) [
    | inl two ↦ decode-encode_two c rest (ground arith) (ground arith)
    | inr wider ↦ elim (Bool-cases (leb c 0xffff)) [
      | inl three ↦ decode-encode_three c rest (ground arith) (ground arith) s
      | inr four ↦ decode-encode_four c rest (ground arith) (scalar_bound c s) s
    ]
  ]
]
