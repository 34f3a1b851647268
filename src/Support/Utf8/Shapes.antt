-- ===== src/Support/Utf8/Shapes.antt =====
-- What the decoder reads and the encoder writes for each width, in plain arithmetic.
use sultanc.Prelude.{
  ℕ, suc, ◌+◌, ◌*◌, ◌/◌, ◌%◌, ◌≤◌, ◌<◌, ◌≡◌, refl, ◌∙◌, arith, true, some, List, [], ◌∷◌,
}
use sultanc.Support.Utf8.{DecodeResult, is_scalar, lead, continue_bytes, accept, decode, encode}
use sultanc.Support.Utf8.Arithmetic.{
  continuation_low, lead_two, lead_three, lead_four, mark_two, mark_three, mark_four,
  mark_continuation, shift_in_sum,
}

abbrev pub IsByte : ℕ → Type 0
IsByte b = b < 256

-- What the decoder answers when it accepts `codepoint` in `width` bytes.
abbrev pub accepted : ℕ → ℕ → DecodeResult
accepted codepoint width = record { codepoint = codepoint; width = width; valid = true }

-- One round of the loop on a continuation byte.
continue_step :
    (n c b : ℕ) (bytes : List ℕ)
    → b < 64
    → c < 2_000_000
    → continue_bytes (suc n) c ((0x80 + b) ∷ bytes) ≡ continue_bytes n (c * 64 + b) bytes
unfolding continue_bytes
continue_step n c b bytes hb hc =
    let e : (0x80 + b) % 64 ≡ b = omega arith in
    ground (arith, continuation_low (0x80 + b), shift_in_sum c (0x80 + b))

-- The same read backwards: a byte that the loop takes is a continuation byte.
pub continue_taken :
    (n c b : ℕ) (bytes : List ℕ) (r : ℕ)
    → b < 256
    → c < 2_000_000
    → continue_bytes (suc n) c (b ∷ bytes) ≡ some r
    → (b ≡ 0x80 + b % 64) × (continue_bytes n (c * 64 + b % 64) bytes ≡ some r)
unfolding continue_bytes
continue_taken n c b bytes r hb hc h = ground (arith, continuation_low b, shift_in_sum c b)

lead_by_two : (a : ℕ) → 2 ≤ a → a < 32 → lead (0xc0 + a) ≡ some (2, a)
unfolding lead
lead_by_two a h k = ground (arith, lead_two (0xc0 + a))

lead_by_three : (a : ℕ) → a < 16 → lead (0xe0 + a) ≡ some (3, a)
unfolding lead
lead_by_three a k = ground (arith, lead_three (0xe0 + a))

lead_by_four : (a : ℕ) → a < 5 → lead (0xf0 + a) ≡ some (4, a)
unfolding lead
lead_by_four a k = ground (arith, lead_four (0xf0 + a))

pub decode_two :
    (a b : ℕ) (rest : List ℕ)
    → 2 ≤ a
    → a < 32
    → b < 64
    → decode ((0xc0 + a) ∷ (0x80 + b) ∷ rest) ≡ accept 2 (a * 64 + b)
unfolding decode
decode_two a b rest h k hb =
    let loop : continue_bytes 1 a ((0x80 + b) ∷ rest) ≡ some (a * 64 + b) =
      continue_step 0 a b rest hb (omega arith) ∙ unfold continue_bytes in refl in
    ground (arith, lead_by_two a, loop)

pub decode_three :
    (a b c : ℕ) (rest : List ℕ)
    → a < 16
    → b < 64
    → c < 64
    → decode ((0xe0 + a) ∷ (0x80 + b) ∷ (0x80 + c) ∷ rest) ≡ accept 3 ((a * 64 + b) * 64 + c)
unfolding decode
decode_three a b c rest k hb hc =
    let loop : continue_bytes 2 a ((0x80 + b) ∷ (0x80 + c) ∷ rest) ≡ some ((a * 64 + b) * 64 + c) =
      continue_step 1 a b _ hb (omega arith)
      ∙ continue_step 0 (a * 64 + b) c rest hc (omega arith)
      ∙ unfold continue_bytes in refl in
    ground (arith, lead_by_three a, loop)

pub decode_four :
    (a b c d : ℕ) (rest : List ℕ)
    → a < 5
    → b < 64
    → c < 64
    → d < 64
    → decode ((0xf0 + a) ∷ (0x80 + b) ∷ (0x80 + c) ∷ (0x80 + d) ∷ rest)
      ≡ accept 4 (((a * 64 + b) * 64 + c) * 64 + d)
unfolding decode
decode_four a b c d rest k hb hc hd =
    let loop : continue_bytes 3 a ((0x80 + b) ∷ (0x80 + c) ∷ (0x80 + d) ∷ rest)
        ≡ some (((a * 64 + b) * 64 + c) * 64 + d) =
      continue_step 2 a b _ hb (omega arith)
      ∙ continue_step 1 (a * 64 + b) c _ hc (omega arith)
      ∙ continue_step 0 ((a * 64 + b) * 64 + c) d rest hd (omega arith)
      ∙ unfold continue_bytes in refl in
    ground (arith, lead_by_four a, loop)

-- The encoder in plain arithmetic.
pub encode_two : (c : ℕ) → 0x80 ≤ c → c ≤ 0x7ff → encode c ≡ (0xc0 + c / 64) ∷ (0x80 + c % 64) ∷ []
unfolding encode is_scalar
encode_two c h k = ground (arith, mark_two (c / 64), mark_continuation c)

pub encode_three :
    (c : ℕ)
    → 0x800 ≤ c
    → c ≤ 0xffff
    → is_scalar c ≡ true
    → encode c ≡ (0xe0 + c / 4096) ∷ (0x80 + c / 64 % 64) ∷ (0x80 + c % 64) ∷ []
unfolding encode
encode_three c h k s =
    ground (arith, mark_three (c / 4096), mark_continuation c, mark_continuation (c / 64))

pub encode_four :
    (c : ℕ)
    → 0x10000 ≤ c
    → is_scalar c ≡ true
    → encode c
      ≡ (0xf0 + c / 262144) ∷ (0x80 + c / 4096 % 64) ∷ (0x80 + c / 64 % 64) ∷ (0x80 + c % 64) ∷ []
unfolding encode is_scalar
encode_four c h s = ground (
  arith,
  mark_four (c / 262144),
  mark_continuation c,
  mark_continuation (c / 64),
  mark_continuation (c / 4096),
)

pub encode_one : (c : ℕ) → c ≤ 0x7f → encode c ≡ c ∷ []
unfolding encode is_scalar
encode_one c h = ground arith
