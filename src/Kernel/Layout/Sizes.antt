-- ===== src/Kernel/Layout/Sizes.antt =====
-- Alignments are 1, 2, 4 or 8, and what the layout computes of sizes keeps to multiples of them.
use native.Mathlib.Nat.{one-le-pow, mul-mod_left, pow-le-pow_right}
use sultanc.Prelude.{
  ℕ, ◌+◌, ◌-◌, ◌/◌, ◌%◌, ◌^◌, ◌≤◌, ◌≡◌, refl, arith, ltb, if_both, wrap64, size_max,
}
use sultanc.Support.Alignment.{align_up, mask_of}
use sultanc.Support.Alignment.Masks.{bit_and_clear}
use sultanc.Frontend.Ast.{
  MachineType, machine_i8, machine_i16, machine_i32, machine_i64, machine_u8, machine_u16,
  machine_u32, machine_u64, machine_f32, machine_f64,
}
use sultanc.Kernel.Layout.{larger, machine_size, tagged_size}

abbrev pub IsAlignment : ℕ → Type 0
IsAlignment a = (k : ℕ) × (k ≤ 3) × (a ≡ 2 ^ k)

abbrev pub IsLaid : ℕ → ℕ → Type 0
IsLaid size alignment = IsAlignment alignment × (size % alignment ≡ 0)

-- The mask of the rounding keeps only multiples, also where the sum wraps.
pub align_up_multiple : (v a : ℕ) → IsAlignment a → align_up v a % a ≡ 0
unfolding align_up
align_up_multiple v a (k, low, e) =
    let p = one-le-pow k 2 (omega arith) in
    let q : 2 ^ k ≤ 2 ^ 3 = pow-le-pow_right {n = 2} (omega arith) low in
    let mask : mask_of (2 ^ k) ≡ 2 ^ k - 1 = omega arith in
    let clear : size_max - (2 ^ k - 1) ≡ 2 ^ 64 - 2 ^ k = omega arith in
    rw (e, mask, clear)
      (rw (bit_and_clear k (wrap64 (v + (2 ^ k - 1))) (omega arith) (omega arith))
        (mul-mod_left (wrap64 (v + (2 ^ k - 1)) / 2 ^ k) (2 ^ k)))

pub larger-IsAlignment : (a b : ℕ) → IsAlignment a → IsAlignment b → IsAlignment (larger a b)
larger-IsAlignment a b h k = if_both IsAlignment (ltb b a) h k

abbrev pub one : IsAlignment 1
one = (0, omega arith, refl)

abbrev pub eight : IsAlignment 8
eight = (3, omega arith, refl)

pub tagged_size-IsLaid : (m a : ℕ) → IsAlignment a → IsLaid (tagged_size m a) (larger a 8)
unfolding tagged_size
tagged_size-IsLaid m a h =
    let l = larger-IsAlignment a 8 h eight in
    (l, align_up_multiple (wrap64 (align_up 8 a + m)) (larger a 8) l)

pub machine_size-IsLaid : (m : MachineType) → IsLaid (machine_size m) (machine_size m)
machine_size-IsLaid machine_i8 = (one, refl)
machine_size-IsLaid machine_u8 = (one, refl)
machine_size-IsLaid machine_i16 = ((1, omega arith, refl), refl)
machine_size-IsLaid machine_u16 = ((1, omega arith, refl), refl)
machine_size-IsLaid machine_i32 = ((2, omega arith, refl), refl)
machine_size-IsLaid machine_u32 = ((2, omega arith, refl), refl)
machine_size-IsLaid machine_f32 = ((2, omega arith, refl), refl)
machine_size-IsLaid machine_i64 = (eight, refl)
machine_size-IsLaid machine_u64 = (eight, refl)
machine_size-IsLaid machine_f64 = (eight, refl)
