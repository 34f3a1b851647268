-- ===== src/Kernel/Memory.antt =====
-- The capacity policy of vectors: bootstrap/src/kernel/memory/memory.c, from
-- `__Memory_Element_Bytes__` on. Out-pointers are not null.
pub mod Policy
use sultanc.Prelude.{
  ℕ, ◌*◌, ◌/◌, ◌%◌, ◌^◌, not, ◌&&◌, Option, none, some, ltb, leb, ◌==◌, if◌then◌else◌, size_max,
  wrap64,
}
use sultanc.Support.Growth.{Growth, enough, overflow, out_of_fuel, double_until, growth_fuel}

-- `__Memory_Vector_Minimum_Capacity__`
abbrev pub minimum_capacity : ℕ
minimum_capacity = 4

-- `__Memory_Element_Bytes__`; `none` is the answer 0.
unfoldable pub element_bytes : ℕ → ℕ → Option ℕ
element_bytes element_size element_count =
    if not (element_size == 0) && ltb (size_max / element_size) element_count
    then none
    else some (wrap64 (element_size * element_count))

-- The loop of `__Memory_Vector_Initial_Capacity__`: the length itself where doubling would wrap.
abbrev pub or_length : ℕ → Growth → ℕ
or_length len (enough c) = c
or_length len overflow = len
or_length len out_of_fuel = len

-- `__Memory_Vector_Initial_Capacity__`
unfoldable pub initial_capacity : ℕ → ℕ
initial_capacity len =
    if len == 0 then 0 else or_length len (double_until growth_fuel minimum_capacity len)

-- What `__Memory_Vector_Grow_Capacity__` does behind its loop.
abbrev pub grown : ℕ → Growth → Option ℕ
grown required (enough c) = if ltb c required then none else some c
grown required overflow = if ltb required required then none else some required
grown required out_of_fuel = none

-- `__Memory_Vector_Grow_Capacity__`; `none` is the answer 0.
unfoldable pub grow_capacity : ℕ → ℕ → Option ℕ
grow_capacity current required =
    if leb required current
    then some current
    else grown required
        (double_until growth_fuel (if current == 0 then minimum_capacity else current) required)
