-- ===== src/Prelude/Bits.antt =====
-- Masks, shifts and disjoint `|` as arithmetic.
use Prim.Native.Nat.{
  ℕ, zero, suc, ◌+◌, ◌*◌, ◌/◌, ◌%◌, ◌≤◌, ◌<◌, min, max, bit_and, bit_or, digits, bit_and-bitwise,
  bit_or-bitwise,
}
use mathlib.Core.Path.{◌≡◌, refl, ap}
use mathlib.Core.Bool.{Bool, true, ◌&&◌}
use native.Mathlib.Omega.{arith}
use sultanc.Prelude.Tests.{◌==◌, ==_iff}

-- A property of all numbers below a bound, by evaluation.
unfoldable pub holds_below : ℕ → (ℕ → Bool) → Bool
holds_below zero p = true
holds_below (suc n) p = p n && holds_below n p

pub holds_below_at : (n : ℕ) (p : ℕ → Bool) (x : ℕ) → x < n → holds_below n p ≡ true → p x ≡ true
unfolding holds_below
holds_below_at zero p x lt h = elim lt [ ]
holds_below_at (suc n) p x lt h = ground (arith, holds_below_at n p x)

-- Two functions agree below a bound if a table says so.
pub agree_at :
    (n : ℕ) (f g : ℕ → ℕ) (x : ℕ) → x < n → holds_below n (λ y. f y == g y) ≡ true → f x ≡ g x
agree_at n f g x lt h = (==_iff (f x) (g x)).0 (holds_below_at n (λ y. f y == g y) x lt h)

-- The count of digits to go does not matter once it covers the first number.
digits_enough :
    (z : ℕ → ℕ) (f : ℕ → ℕ → ℕ) (n m a b : ℕ) → a ≤ n → a ≤ m → digits z f n a b ≡ digits z f m a b
digits_enough z f zero zero a b p q = refl
digits_enough z f (suc n) zero zero b p q = refl
digits_enough z f (suc n) zero (suc a) b p q = elim q [ ]
digits_enough z f zero (suc m) zero b p q = refl
digits_enough z f zero (suc m) (suc a) b p q = elim p [ ]
digits_enough z f (suc n) (suc m) zero b p q = refl
digits_enough z f (suc n) (suc m) (suc a) b p q =
    ap (λ (t : ℕ). t * 2 + f (suc a % 2) (b % 2))
      (digits_enough z f n m (suc a / 2) (b / 2) (omega arith) (omega arith))

-- One equation for the lowest digit.
pub bit_or_step : (a b : ℕ) → bit_or a b ≡ bit_or (a / 2) (b / 2) * 2 + max (a % 2) (b % 2)
bit_or_step zero b = omega (arith, bit_or-bitwise 0 b, bit_or-bitwise 0 (b / 2))
bit_or_step (suc a) b = omega (
  arith,
  bit_or-bitwise (suc a) b,
  bit_or-bitwise (suc a / 2) (b / 2),
  digits_enough (λ y. y) max a (suc a / 2) (suc a / 2) (b / 2) (omega arith) (omega arith),
)

pub bit_and_step : (a b : ℕ) → bit_and a b ≡ bit_and (a / 2) (b / 2) * 2 + min (a % 2) (b % 2)
bit_and_step zero b = omega (arith, bit_and-bitwise 0 b, bit_and-bitwise 0 (b / 2))
bit_and_step (suc a) b = omega (
  arith,
  bit_and-bitwise (suc a) b,
  bit_and-bitwise (suc a / 2) (b / 2),
  digits_enough (λ y. 0) min a (suc a / 2) (suc a / 2) (b / 2) (omega arith) (omega arith),
)

-- The digits of `a` run out after at most `a` halvings.
bit_or-zero_within : (n a : ℕ) → a ≤ n → bit_or a 0 ≡ a
bit_or-zero_within n zero h = refl
bit_or-zero_within zero (suc a) h = elim h [ ]
bit_or-zero_within (suc n) (suc a) h =
    omega (arith, bit_or_step (suc a) 0, bit_or-zero_within n (suc a / 2) (omega arith))

pub bit_or-zero : (a : ℕ) → bit_or a 0 ≡ a
bit_or-zero a = bit_or-zero_within a a (omega arith)

bit_and-zero_within : (n a : ℕ) → a ≤ n → bit_and a 0 ≡ 0
bit_and-zero_within n zero h = refl
bit_and-zero_within zero (suc a) h = elim h [ ]
bit_and-zero_within (suc n) (suc a) h =
    omega (arith, bit_and_step (suc a) 0, bit_and-zero_within n (suc a / 2) (omega arith))

pub bit_and-zero : (a : ℕ) → bit_and a 0 ≡ 0
bit_and-zero a = bit_and-zero_within a a (omega arith)

-- The lowest `n` digits of `a` are kept by a mask of `n` ones, written as half sums.
unfoldable pub ones : ℕ → ℕ
ones zero = 0
ones (suc n) = 2 * ones n + 1

unfoldable pub low : ℕ → ℕ → ℕ
low zero a = 0
low (suc n) a = 2 * low n (a / 2) + a % 2

pub bit_and-ones : (n a : ℕ) → bit_and a (ones n) ≡ low n a
unfolding ones low
bit_and-ones zero a = bit_and-zero a
bit_and-ones (suc n) a =
    let e : (2 * ones n + 1) / 2 ≡ ones n = omega arith in
    let m : (2 * ones n + 1) % 2 ≡ 1 = omega arith in
    let s = bit_and_step a (2 * ones n + 1) in
    let s' = rw (e, m) at s in omega (arith, s', bit_and-ones n (a / 2))

pub bit_and_six : (a : ℕ) → bit_and a 0x3f ≡ a % 64
unfolding ones low
bit_and_six a = omega (arith, bit_and-ones 6 a)

-- `(c << 6) | r` is a sum when `r` fits six digits.
pub bit_or_six : (c r : ℕ) → r < 64 → bit_or (c * 64) r ≡ c * 64 + r
bit_or_six c r h = omega (
  arith,
  bit_or_step (c * 64) r,
  bit_or_step (c * 64 / 2) (r / 2),
  bit_or_step (c * 64 / 2 / 2) (r / 2 / 2),
  bit_or_step (c * 64 / 2 / 2 / 2) (r / 2 / 2 / 2),
  bit_or_step (c * 64 / 2 / 2 / 2 / 2) (r / 2 / 2 / 2 / 2),
  bit_or_step (c * 64 / 2 / 2 / 2 / 2 / 2) (r / 2 / 2 / 2 / 2 / 2),
  last,
)
  where
    whole : c * 64 / 2 / 2 / 2 / 2 / 2 / 2 ≡ c
    whole = omega arith

    none_left : r / 2 / 2 / 2 / 2 / 2 / 2 ≡ 0
    none_left = omega arith

    last : bit_or (c * 64 / 2 / 2 / 2 / 2 / 2 / 2) (r / 2 / 2 / 2 / 2 / 2 / 2) ≡ c
    last = rw (whole, none_left) (bit_or-zero c)
