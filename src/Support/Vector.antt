-- ===== src/Support/Vector.antt =====
-- The dynamic vector: bootstrap/src/support/containers/vector.c.
-- The buffer is the list of its slots, `none` where nothing has been written. An element address is
-- the index of its slot. `grant` is the allocator: whether `realloc` grants a request of that many
-- bytes. Vector and element pointers are not null.
pub mod Refinement
pub mod Progress
use sultanc.Prelude.{
  ℕ, ◌+◌, ◌-◌, ◌*◌, ◌/◌, ◌%◌, ◌^◌, Bool, true, false, not, ◌&&◌, Option, none, some, List, [], ◌∷◌,
  ◌++◌, ltb, leb, ◌==◌, if◌then◌else◌, get_or, set, replicate, size_max, wrap64,
}
use sultanc.Support.Growth.{Growth, enough, overflow, out_of_fuel, double_until, growth_fuel}

pub record Vector {ℓ} (A : Type ℓ) : Type ℓ where
  pub slots : List (Option A)
  pub count : ℕ
  pub capacity : ℕ
  pub element_size : ℕ

module _ {ℓ} {A : Type ℓ} where
  -- `__Vector_Init__`
  unfoldable pub init : ℕ → Vector A
  init element_size = record { slots = []; count = 0; capacity = 0; element_size = element_size }

  -- The part of `__Vector_Reserve__` behind the doubling loop.
  unfoldable pub reallocate : (ℕ → Bool) → Vector A → Growth → Vector A × Bool
  reallocate grant v overflow = (v, false)
  reallocate grant v out_of_fuel = (v, false)
  reallocate grant v (enough c) =
      if not (v.element_size == 0) && ltb (size_max / v.element_size) c
      then (v, false)
      else if grant (c * v.element_size)
      then (record v { slots = v.slots ++ replicate (c - v.capacity) none; capacity = c }, true)
      else (v, false)

  -- `__Vector_Reserve__`
  unfoldable pub reserve : (ℕ → Bool) → Vector A → ℕ → Vector A × Bool
  unfolding reallocate
  reserve grant v needed =
      if leb needed v.capacity
      then (v, true)
      else reallocate grant v
          (double_until growth_fuel (if v.capacity == 0 then 8 else v.capacity) needed)

  -- The part of `__Vector_Push__` behind the reservation.
  unfoldable pub store : Vector A × Bool → A → Vector A × Option ℕ
  store (v, false) element = (v, none)
  store (v, true) element = (
    record v { slots = set v.slots v.count (some element); count = wrap64 (v.count + 1) },
    some v.count,
  )

  -- `__Vector_Push__`
  unfoldable pub push : (ℕ → Bool) → Vector A → A → Vector A × Option ℕ
  unfolding reserve store
  push grant v element =
      if v.element_size == 0
      then (v, none)
      else store (reserve grant v (wrap64 (v.count + 1))) element

  -- `__Vector_At_Const__`, and what the address holds; `__Vector_At__` is the same.
  unfoldable pub at_const : Vector A → ℕ → Option A
  at_const v index = if leb v.count index then none else get_or v.slots index none

  -- `__Vector_Destroy__`
  unfoldable pub destroy : Vector A → Vector A
  destroy v = record v { slots = []; count = 0; capacity = 0 }
