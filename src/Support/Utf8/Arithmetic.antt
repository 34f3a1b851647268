-- ===== src/Support/Utf8/Arithmetic.antt =====
-- The masks and shifts of the codec as sums and remainders.
use sultanc.Prelude.{ℕ, ◌+◌, ◌*◌, ◌/◌, ◌%◌, ◌<◌, ◌≡◌, refl, bit_and, bit_or, arith, leb, ◌&&◌}
use sultanc.Prelude.Bits.{agree_at, holds_below, bit_and_six, bit_or_six}
use sultanc.Support.Utf8.{is_continuation_byte, shift_in}

pub continuation_low : (b : ℕ) → b < 256 → is_continuation_byte b ≡ (leb 0x80 b && leb b 0xbf)
unfolding is_continuation_byte
continuation_low b h = ground (arith, top b h)
  where
    top : (x : ℕ) → x < 256 → bit_and x 0xc0 ≡ x / 64 * 64
    top x lt =
        agree_at 256 (λ y. bit_and y 0xc0) (λ y. y / 64 * 64) x lt (unfold holds_below in refl)

pub lead_two : (b : ℕ) → b < 256 → bit_and b 0x1f ≡ b % 32
lead_two b h = agree_at 256 (λ y. bit_and y 0x1f) (λ y. y % 32) b h (unfold holds_below in refl)

pub lead_three : (b : ℕ) → b < 256 → bit_and b 0x0f ≡ b % 16
lead_three b h = agree_at 256 (λ y. bit_and y 0x0f) (λ y. y % 16) b h (unfold holds_below in refl)

pub lead_four : (b : ℕ) → b < 256 → bit_and b 0x07 ≡ b % 8
lead_four b h = agree_at 256 (λ y. bit_and y 0x07) (λ y. y % 8) b h (unfold holds_below in refl)

pub mark_two : (x : ℕ) → x < 32 → bit_or 0xc0 x % 256 ≡ 0xc0 + x
mark_two x h =
    agree_at 32 (λ y. bit_or 0xc0 y % 256) (λ y. 0xc0 + y) x h (unfold holds_below in refl)

pub mark_three : (x : ℕ) → x < 16 → bit_or 0xe0 x % 256 ≡ 0xe0 + x
mark_three x h =
    agree_at 16 (λ y. bit_or 0xe0 y % 256) (λ y. 0xe0 + y) x h (unfold holds_below in refl)

pub mark_four : (x : ℕ) → x < 8 → bit_or 0xf0 x % 256 ≡ 0xf0 + x
mark_four x h =
    agree_at 8 (λ y. bit_or 0xf0 y % 256) (λ y. 0xf0 + y) x h (unfold holds_below in refl)

mark_low : (x : ℕ) → x < 64 → bit_or 0x80 x % 256 ≡ 0x80 + x
mark_low x h =
    agree_at 64 (λ y. bit_or 0x80 y % 256) (λ y. 0x80 + y) x h (unfold holds_below in refl)

pub mark_continuation : (x : ℕ) → bit_or 0x80 (bit_and x 0x3f) % 256 ≡ 0x80 + x % 64
mark_continuation x = ground (arith, bit_and_six x, mark_low (x % 64))

pub shift_in_sum : (c b : ℕ) → c < 2_000_000 → shift_in c b ≡ c * 64 + b % 64
unfolding shift_in
shift_in_sum c b h = ground (arith, bit_and_six b, bit_or_six c (b % 64))
