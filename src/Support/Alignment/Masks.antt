-- ===== src/Support/Alignment/Masks.antt =====
-- Masks of high digits, and the test for a power of two.
use native.Mathlib.Nat.{pow-suc, one-le-pow, div-div-eq-div-mul, div-lt_iff_lt-mul}
use sultanc.Prelude.{
  ℕ, zero, suc, ◌+◌, ◌-◌, ◌*◌, ◌/◌, ◌%◌, ◌^◌, ◌≤◌, ◌<◌, ◌≡◌, refl, ap, ◌∙◌, ◌↔◌, arith, bit_and,
  Bool-cases, ◌==◌, inl, inr,
}
use sultanc.Prelude.Bits.{bit_and_step, bit_and-ones, ones, low}

pub pow_split : (k m n : ℕ) → m + k ≡ n → 2 ^ m * 2 ^ k ≡ 2 ^ n
pow_split zero m n e = let e' : m ≡ n = omega arith in rw e' (omega arith)
pow_split (suc k) m zero e = absurd (omega arith)
pow_split (suc k) m (suc n) e =
    let ih = pow_split k m n (omega arith) in
    omega (arith, pow-suc 2 n, ap (λ (t : ℕ). 2 ^ m * t) (pow-suc 2 k), ih)

ones-pow : (m : ℕ) → ones m + 1 ≡ 2 ^ m
unfolding ones
ones-pow zero = refl
ones-pow (suc m) = omega (arith, pow-suc 2 m, ones-pow m)

low-of-lt : (m y : ℕ) → y < 2 ^ m → low m y ≡ y
unfolding low
low-of-lt zero y h = omega arith
low-of-lt (suc m) y h =
    let half = low-of-lt m (y / 2) (omega (arith, pow-suc 2 m)) in omega (arith, half)

-- A mask of `m` ones behind `k` zeros keeps the digits from `k` on.
bit_and_high : (k m x : ℕ) → bit_and x (ones m * 2 ^ k) ≡ low m (x / 2 ^ k) * 2 ^ k
bit_and_high zero m x =
    let e : ones m * 1 ≡ ones m = omega arith in
    let d : x / 1 ≡ x = omega arith in rw (e, d, bit_and-ones m x) (omega arith)
bit_and_high (suc k) m x =
    let p = pow-suc 2 k in
    let double : ones m * 2 ^ suc k ≡ 2 * (ones m * 2 ^ k) =
      omega (arith, ap (λ (t : ℕ). ones m * t) p) in
    let half : 2 * (ones m * 2 ^ k) / 2 ≡ ones m * 2 ^ k = omega arith in
    let even : 2 * (ones m * 2 ^ k) % 2 ≡ 0 = omega arith in
    let deep : x / 2 / 2 ^ k ≡ x / 2 ^ suc k =
      div-div-eq-div-mul x 2 (2 ^ k) ∙ ap (λ (t : ℕ). x / t) (omega (arith, p)) in
    let ih = bit_and_high k m (x / 2) in
    let step = bit_and_step x (2 * (ones m * 2 ^ k)) in
    let step' = rw (half, even, ih, deep) at step in
    rw double (omega (arith, step', ap (λ (t : ℕ). low m (x / 2 ^ suc k) * t) p))

-- Clearing the lowest `k` of 64 digits.
pub bit_and_clear : (k x : ℕ) → k ≤ 64 → x < 2 ^ 64 → bit_and x (2 ^ 64 - 2 ^ k) ≡ x / 2 ^ k * 2 ^ k
bit_and_clear k x hk hx =
    let m : ℕ = 64 - k in
    let split = pow_split k m 64 (omega arith) in
    let mask : 2 ^ 64 - 2 ^ k ≡ ones m * 2 ^ k =
      omega (arith, split, ap (λ (t : ℕ). t * 2 ^ k) (ones-pow m)) in
    let small : x / 2 ^ k < 2 ^ m =
      (div-lt_iff_lt-mul (one-le-pow k 2 (omega arith))).1 (omega (arith, split)) in
    rw (mask, bit_and_high k m x, low-of-lt m (x / 2 ^ k) small)

bit_and-self_within : (n a : ℕ) → a ≤ n → bit_and a a ≡ a
bit_and-self_within n zero h = refl
bit_and-self_within zero (suc a) h = elim h [ ]
bit_and-self_within (suc n) (suc a) h =
    omega (arith, bit_and_step (suc a) (suc a), bit_and-self_within n (suc a / 2) (omega arith))

-- `a & (a - 1)` is zero only at a power of two (and at zero).
pub power_of_two_within :
    (n a : ℕ) → a ≤ n → 0 < a → bit_and a (a - 1) ≡ 0 → (k : ℕ) × (k < n) × (a ≡ 2 ^ k)
power_of_two_within zero a h pos test = absurd (omega arith)
power_of_two_within (suc n) a h pos test = elim (Bool-cases (a % 2 == 0)) [
  | inl even ↦
      let e : (a - 1) / 2 ≡ a / 2 - 1 = ground arith in
      let step = bit_and_step a (a - 1) in
      let step' = rw e at step in
      let (k, below, power) =
        power_of_two_within n (a / 2) (omega arith) (ground arith) (omega (arith, step')) in
      (suc k, omega arith, ground (arith, pow-suc 2 k))
  | inr odd ↦
      let e : (a - 1) / 2 ≡ a / 2 = ground arith in
      let step = bit_and_step a (a - 1) in
      let step' = rw e at step in
      (0, omega arith, ground (arith, bit_and-self_within (a / 2) (a / 2)))
]

pub pow_of_two-test : (k : ℕ) → bit_and (2 ^ k) (2 ^ k - 1) ≡ 0
pow_of_two-test zero = refl
pow_of_two-test (suc k) =
    let p = pow-suc 2 k in
    let pos = one-le-pow k 2 (omega arith) in
    let half : 2 ^ suc k / 2 ≡ 2 ^ k = omega (arith, p) in
    let half' : (2 ^ suc k - 1) / 2 ≡ 2 ^ k - 1 = omega (arith, p) in
    let step = bit_and_step (2 ^ suc k) (2 ^ suc k - 1) in
    let step' = rw (half, half') at step in omega (arith, step', pow_of_two-test k, p)

-- The test `a != 0 && (a & (a - 1)) == 0` accepts the powers of two, and nothing else.
pub power_of_two_test : (a : ℕ) → 0 < a → (bit_and a (a - 1) ≡ 0) ↔ ((k : ℕ) × (a ≡ 2 ^ k))
power_of_two_test a pos = (
  λ test. let (k, _, e) = power_of_two_within a a (omega arith) pos test in (k, e),
  λ (k, e). rw e (pow_of_two-test k),
)
