-- ===== src/Support/Builder.antt =====
-- The growable text buffer: bootstrap/src/support/text/builder.c.
-- The buffer is the list of its slots, `none` where nothing has been written. `grant` is the
-- allocator: whether `realloc` grants a request of that many bytes. Pointers are not null.
mod Slots
pub mod Refinement
use sultanc.Prelude.{
  ℕ, ◌+◌, ◌-◌, ◌%◌, ◌^◌, Bool, true, false, Option, none, some, List, [], ◌∷◌, ◌++◌, leb, ◌==◌,
  if◌then◌else◌, length, set, replicate, wrap64,
}
use sultanc.Support.Growth.{Growth, enough, overflow, out_of_fuel, double_until, growth_fuel}

-- `__Text_Builder__`
pub record Builder : Type 0 where
  pub slots : List (Option ℕ)
  pub len : ℕ
  pub capacity : ℕ

-- `__Text_Builder_Init__`
abbrev pub init : Builder
init = record { slots = []; len = 0; capacity = 0 }

-- The part of `__Text_Builder_Reserve__` behind the doubling loop.
unfoldable pub reallocate : (ℕ → Bool) → Builder → Growth → Builder × Bool
reallocate grant b overflow = (b, false)
reallocate grant b out_of_fuel = (b, false)
reallocate grant b (enough c) =
    if grant c
    then (record b { slots = b.slots ++ replicate (c - b.capacity) none; capacity = c }, true)
    else (b, false)

-- `__Text_Builder_Reserve__`
unfoldable pub reserve : (ℕ → Bool) → Builder → ℕ → Builder × Bool
unfolding reallocate
reserve grant b needed =
    if leb needed b.capacity
    then (b, true)
    else reallocate grant b
        (double_until growth_fuel (if b.capacity == 0 then 64 else b.capacity) needed)

-- `memcpy` to the slots from `start` on.
unfoldable pub copy_at : List (Option ℕ) → ℕ → List ℕ → List (Option ℕ)
copy_at slots start [] = slots
copy_at slots start (byte ∷ bytes) = copy_at (set slots start (some byte)) (start + 1) bytes

-- The part of `__Text_Builder_Append__` behind the reservation.
unfoldable pub store : Builder × Bool → List ℕ → Builder × Bool
store (b, false) bytes = (b, false)
store (b, true) bytes =
    let len = wrap64 (b.len + length bytes) in
    (record b { slots = set (copy_at b.slots b.len bytes) len (some 0); len = len }, true)

-- `__Text_Builder_Append__`
unfoldable pub append : (ℕ → Bool) → Builder → List ℕ → Builder × Bool
unfolding reserve store
append grant b bytes = store (reserve grant b (wrap64 (b.len + length bytes + 1))) bytes

-- `__Text_Builder_Append_Byte__`
unfoldable pub append_byte : (ℕ → Bool) → Builder → ℕ → Builder × Bool
append_byte grant b byte = append grant b (byte ∷ [])

-- `__Text_Builder_Destroy__`
unfoldable pub destroy : Builder → Builder
destroy b = init
