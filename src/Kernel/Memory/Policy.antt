-- ===== src/Kernel/Memory/Policy.antt =====
-- The capacity policy: growth never fails, and sizes in bytes never wrap.
use native.Mathlib.Nat.{le-div_iff_mul-le, mul_comm}
use sultanc.Prelude.{
  ℕ, ◌*◌, ◌/◌, ◌≤◌, ◌≡◌, ◌≢◌, refl, ◌⊎◌, inl, inr, ◌↔◌, arith, some, ltb, leb, ◌==◌, if◌then◌else◌,
  size_max, Bool-cases, ltb→lt,
}
use sultanc.Support.Growth.{Growth, enough, overflow, out_of_fuel, double_until, growth_fuel}
use sultanc.Support.Growth.Bounds.{double_until_bounds, double_until-ne-out_of_fuel}
use sultanc.Kernel.Memory.{element_bytes, initial_capacity, grow_capacity, minimum_capacity}

Growth-cases : (g : Growth) → g ≢ out_of_fuel → ((c : ℕ) × (g ≡ enough c)) ⊎ (g ≡ overflow)
Growth-cases (enough c) h = inl (c, refl)
Growth-cases overflow h = inr refl
Growth-cases out_of_fuel h = absurd (h refl)

grow_capacity_within :
    (current required : ℕ) → required ≤ current → grow_capacity current required ≡ some current
unfolding grow_capacity
grow_capacity_within current required h = ground arith

-- Growing always gives a capacity: at least what is required and at least the current one, no more
-- than the current one, twice what is required, or the minimum, and within `size_t`.
pub grow_capacity_total :
    (current required : ℕ)
    → current ≤ size_max
    → required ≤ size_max
    → (c : ℕ) × (grow_capacity current required ≡ some c)
      × (required ≤ c)
      × (current ≤ c)
      × (c ≤ size_max)
      × ((c ≤ current) ⊎ ((c ≤ 2 * required) ⊎ (c ≤ minimum_capacity)))
unfolding grow_capacity
grow_capacity_total current required hc hr = elim (Bool-cases (leb required current)) [
  | inl within ↦ (current, rw within, ground arith, ground arith, hc, inl (ground arith))
  | inr beyond ↦
      let start : ℕ = if current == 0 then minimum_capacity else current in
      let ends = double_until-ne-out_of_fuel start required (ground arith) in
      elim (Growth-cases (double_until growth_fuel start required) ends) [
        | inl (c, found) ↦
            let (covers, rises, top, size) =
              double_until_bounds growth_fuel start required c (ground arith) found in
            (c, rw (beyond, found) (ground arith), covers, ground arith, top, ground arith)
        | inr past ↦ (
          required,
          rw (beyond, past) (ground arith),
          ground arith,
          ground arith,
          hr,
          inr (inl (omega arith)),
        )
      ]
]

-- The capacity of a new vector is what growing from nothing gives.
initial_capacity-grow_capacity : (len : ℕ) → grow_capacity 0 len ≡ some (initial_capacity len)
unfolding grow_capacity initial_capacity
initial_capacity-grow_capacity len =
    elim (Growth-cases (double_until growth_fuel minimum_capacity len) ends) [
      | inl (c, found) ↦
          ground (arith, found, double_until_bounds growth_fuel 4 len c (omega arith) found)
      | inr past ↦ ground (arith, past)
    ]
  where
    ends : double_until growth_fuel minimum_capacity len ≢ out_of_fuel
    ends = double_until-ne-out_of_fuel minimum_capacity len (omega arith)

-- The size in bytes is given exactly when it fits, and is then the true product.
pub element_bytes_exact :
    (size count bytes : ℕ)
    → (element_bytes size count ≡ some bytes) ↔ ((size * count ≤ size_max) × (bytes ≡ size * count))
unfolding element_bytes
element_bytes_exact size count bytes = elim (Bool-cases (size == 0)) [
  | inl empty ↦
      let e : size ≡ 0 = ground arith in rw e (λ h. (omega arith, ground arith), λ h. ground arith)
  | inr sized ↦
      let iff = le-div_iff_mul-le {k = size} {x = count} {y = size_max} (ground arith) in
      let swap = mul_comm count size in
      elim (Bool-cases (ltb (size_max / size) count)) [
        | inl big ↦
            rw (sized, big)
              (
                λ h. cc,
                λ h. absurd (omega (arith, iff.1 (omega (arith, swap, h.0)), ltb→lt _ _ big)),
              )
        | inr fits ↦
            let bound = iff.0 (ground arith) in
            rw (sized, fits)
              (λ h. (omega (arith, swap), ground (arith, swap)), λ h. ground (arith, swap))
      ]
]
