-- ===== src/Support/Alignment.antt =====
-- Rounding an offset up to an alignment: bootstrap/src/support/memory/alignment.c.
pub mod Masks
pub mod Bounds
use sultanc.Prelude.{ℕ, ◌+◌, ◌-◌, ◌%◌, ◌^◌, bit_and, size_max, wrap64}

-- `alignment - 1U`
abbrev pub mask_of : ℕ → ℕ
mask_of alignment = wrap64 (alignment + size_max)

-- `__Align_Up__`; `~mask` on size_t is `size_max - mask`.
unfoldable pub align_up : ℕ → ℕ → ℕ
align_up value alignment =
    let mask = mask_of alignment in bit_and (wrap64 (value + mask)) (size_max - mask)
