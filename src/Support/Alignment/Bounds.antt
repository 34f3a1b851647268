-- ===== src/Support/Alignment/Bounds.antt =====
-- Rounding up gives the least multiple of the alignment that is not below the value.
use native.Mathlib.Nat.{one-le-pow, div-mul-le_self, lt-div-mul-add, mul-mod_left}
use sultanc.Prelude.{ℕ, ◌+◌, ◌-◌, ◌*◌, ◌/◌, ◌%◌, ◌^◌, ◌≤◌, ◌<◌, ◌≡◌, arith, size_max, wrap64}
use sultanc.Support.Alignment.{mask_of, align_up}
use sultanc.Support.Alignment.Masks.{bit_and_clear}

-- Where the rounding does not wrap, it is division and multiplication.
pub align_up-div :
    (k v : ℕ) → k < 64 → v + 2 ^ k ≤ 2 ^ 64 → align_up v (2 ^ k) ≡ (v + (2 ^ k - 1)) / 2 ^ k * 2 ^ k
unfolding align_up
align_up-div k v hk hv =
    let pos = one-le-pow k 2 (omega arith) in
    let mask : mask_of (2 ^ k) ≡ 2 ^ k - 1 = omega arith in
    let sum : wrap64 (v + (2 ^ k - 1)) ≡ v + (2 ^ k - 1) = omega arith in
    let clear : size_max - (2 ^ k - 1) ≡ 2 ^ 64 - 2 ^ k = omega arith in
    rw (mask, sum, clear) (bit_and_clear k (v + (2 ^ k - 1)) (omega arith) (omega arith))

-- `align_up` gives a multiple of the alignment that is at least the value, and less than one
-- alignment above it.
pub align_up_bounds :
    (k v : ℕ)
    → k < 64
    → v + 2 ^ k ≤ 2 ^ 64
    → (v ≤ align_up v (2 ^ k)) × (align_up v (2 ^ k) < v + 2 ^ k) × (align_up v (2 ^ k) % 2 ^ k ≡ 0)
align_up_bounds k v hk hv =
    let pos = one-le-pow k 2 (omega arith) in
    let low = div-mul-le_self (v + (2 ^ k - 1)) (2 ^ k) in
    let high = lt-div-mul-add {a = v + (2 ^ k - 1)} {b = 2 ^ k} pos in
    rw (align_up-div k v hk hv) (omega arith, omega arith, mul-mod_left _ _)
