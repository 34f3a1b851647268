-- ===== src/Prelude/Words.antt =====
-- Machine words: the bounds of `size_t`, `uint64_t`, `int64_t` and `uint32_t`, and wrap-around.
use Prim.Native.Nat.{ℕ, ◌%◌, ◌^◌}

-- SIZE_MAX and UINT64_MAX on the 64-bit hosts.
abbrev pub size_max : ℕ
size_max = 0xffff_ffff_ffff_ffff

abbrev pub int64_max : ℕ
int64_max = 0x7fff_ffff_ffff_ffff

-- A value of `size_t` and of `uint32_t`: what the arithmetic of the source keeps.
abbrev pub wrap64 : ℕ → ℕ
wrap64 n = n % 2 ^ 64

abbrev pub wrap32 : ℕ → ℕ
wrap32 n = n % 2 ^ 32
