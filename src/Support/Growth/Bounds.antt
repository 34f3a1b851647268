-- ===== src/Support/Growth/Bounds.antt =====
-- The doubling loop ends, and the capacity that it finds is the least one that will do.
use native.Mathlib.Nat.{pow-suc}
use sultanc.Prelude.{ℕ, zero, suc, ◌*◌, ◌/◌, ◌^◌, ◌≤◌, ◌<◌, ◌≡◌, ◌≢◌, ap, arith, size_max, ◌⊎◌}
use sultanc.Support.Growth.{enough, overflow, out_of_fuel, double_until, growth_fuel}

double_until-ne-out_of_fuel_from :
    (fuel capacity needed : ℕ)
    → size_max / 2 < capacity * 2 ^ fuel
    → double_until (suc fuel) capacity needed ≢ out_of_fuel
unfolding double_until
double_until-ne-out_of_fuel_from zero capacity needed h = ground arith
double_until-ne-out_of_fuel_from (suc fuel) capacity needed h =
    let power = pow-suc 2 fuel in
    let half : capacity * 2 ^ suc fuel ≡ capacity * 2 * 2 ^ fuel =
      omega (arith, ap (λ (t : ℕ). capacity * t) power) in
    ground (arith, half, double_until-ne-out_of_fuel_from fuel (capacity * 2) needed (omega arith))

-- From a positive capacity the loop ends.
pub double_until-ne-out_of_fuel :
    (capacity needed : ℕ) → 0 < capacity → double_until growth_fuel capacity needed ≢ out_of_fuel
double_until-ne-out_of_fuel capacity needed h =
    double_until-ne-out_of_fuel_from 63 capacity needed (omega arith)

-- The result covers what was asked for, and is the start or less than twice what was asked for;
-- it does not pass SIZE_MAX.
pub double_until_bounds :
    (fuel capacity needed c : ℕ)
    → capacity ≤ size_max
    → double_until fuel capacity needed ≡ enough c
    → (needed ≤ c) × (capacity ≤ c) × (c ≤ size_max) × ((c ≡ capacity) ⊎ (c < 2 * needed))
unfolding double_until
double_until_bounds zero capacity needed c b h = cc
double_until_bounds (suc fuel) capacity needed c b h =
    ground (arith, double_until_bounds fuel (capacity * 2) needed c)

-- The loop gives up only where less than twice what was asked for passes SIZE_MAX.
pub double_until_overflow :
    (fuel capacity needed : ℕ)
    → double_until fuel capacity needed ≡ overflow
    → size_max < 2 * needed
unfolding double_until
double_until_overflow zero capacity needed h = cc
double_until_overflow (suc fuel) capacity needed h =
    ground (arith, double_until_overflow fuel (capacity * 2) needed)
