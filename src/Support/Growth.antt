-- ===== src/Support/Growth.antt =====
-- The doubling loop that the vector, the text builder and the vector policy of
-- bootstrap/src/kernel/memory/memory.c run to find a capacity.
pub mod Bounds
use sultanc.Prelude.{ℕ, zero, suc, ◌*◌, ◌/◌, Bool, true, false, ltb, if◌then◌else◌, size_max}

-- How the loop ends: with a capacity that is enough, or at the point where doubling would pass
-- SIZE_MAX. `out_of_fuel` is no outcome of the source.
pub data Growth : Type 0 where
  enough : ℕ → Growth
  overflow : Growth
  out_of_fuel : Growth

-- `while (capacity < needed) { if (capacity > SIZE_MAX / 2) …; capacity *= 2; }`
unfoldable pub double_until : ℕ → ℕ → ℕ → Growth
double_until zero capacity needed = out_of_fuel
double_until (suc fuel) capacity needed =
    let rest = double_until fuel (capacity * 2) needed in
    if ltb capacity needed
    then if ltb (size_max / 2) capacity then overflow else rest
    else enough capacity

-- Sixty-four rounds take any positive capacity past SIZE_MAX / 2.
abbrev pub growth_fuel : ℕ
growth_fuel = 64
