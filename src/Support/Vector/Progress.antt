-- ===== src/Support/Vector/Progress.antt =====
-- When a push succeeds.
use native.Mathlib.Nat.{le-div_iff_mul-le, mul-le-mul_right, le_trans, le_of_lt}
use sultanc.Prelude.{
  ℕ, ◌+◌, ◌-◌, ◌*◌, ◌/◌, ◌≤◌, ◌<◌, ◌≡◌, ◌≢◌, refl, arith, Bool, true, false, none, some, List, ◌++◌,
  replicate, ltb, leb, ◌==◌, if◌then◌else◌, length, size_max, wrap64, Bool-cases, ◌⊎◌, inl, inr,
}
use sultanc.Support.Growth.{Growth, enough, overflow, out_of_fuel, double_until, growth_fuel}
use sultanc.Support.Growth.Bounds.{
  double_until_bounds, double_until_overflow, double_until-ne-out_of_fuel,
}
use sultanc.Support.Vector.{Vector, reallocate, reserve, store, push}
use sultanc.Support.Vector.Refinement.{Represents, push_sized}

module _ {ℓ} {A : Type ℓ} (grant : ℕ → Bool) (all : (bytes : ℕ) → grant bytes ≡ true) where
  reallocate_grants :
      (v : Vector A) (g : Growth)
      → g ≢ out_of_fuel
      → g ≢ overflow
      → ((c : ℕ) → g ≡ enough c → ltb (size_max / v.element_size) c ≡ false)
      → (w : Vector A) × (w.count ≡ v.count) × (reallocate grant v g ≡ (w, true))
  unfolding reallocate
  reallocate_grants v (enough c) f o b =
      let w : Vector A = record v {
        slots = v.slots ++ replicate (c - v.capacity) none;
        capacity = c;
      } in
      (w, refl, ground (arith, b c refl, all (c * v.element_size)))
  reallocate_grants v overflow f o b = absurd (o refl)
  reallocate_grants v out_of_fuel f o b = absurd (f refl)

  reserve_grants :
      (v : Vector A) (needed : ℕ)
      → 0 < v.element_size
      → v.capacity ≤ size_max
      → 2 * needed * v.element_size ≤ size_max
      → 8 * v.element_size ≤ size_max
      → v.capacity * v.element_size ≤ size_max
      → (w : Vector A) × (w.count ≡ v.count) × (reserve grant v needed ≡ (w, true))
  unfolding reserve
  reserve_grants v needed sized bounded room eight fits =
      elim (Bool-cases (leb needed v.capacity)) [
        | inl enough_room ↦ (v, refl, rw enough_room)
        | inr small ↦
            let (w, kept, done) = reallocate_grants v grown ends no_overflow in_bytes in
            (w, kept, rw small done)
      ]
    where
      start : ℕ
      start = if v.capacity == 0 then 8 else v.capacity

      start_pos : 0 < start
      start_pos = ground arith

      start_max : start ≤ size_max
      start_max = ground arith

      start_bytes : start * v.element_size ≤ size_max
      start_bytes = elim (Bool-cases (v.capacity == 0)) [ inl e ↦ rw e eight | inr e ↦ rw e fits ]

      grown : Growth
      grown = double_until growth_fuel start needed

      ends : grown ≢ out_of_fuel
      ends = double_until-ne-out_of_fuel start needed start_pos

      twice : 2 * needed ≤ size_max
      twice = grind arith

      no_overflow : grown ≢ overflow
      no_overflow e =
          absurd (omega (arith, twice, double_until_overflow growth_fuel start needed e))

      product : (c : ℕ) → (c ≡ start) ⊎ (c < 2 * needed) → c * v.element_size ≤ size_max
      product c (inl e) = rw e start_bytes
      product c (inr below) = le_trans (mul-le-mul_right v.element_size (le_of_lt below)) room

      in_bytes : (c : ℕ) → grown ≡ enough c → ltb (size_max / v.element_size) c ≡ false
      in_bytes c e =
          let (_, _, _, size) = double_until_bounds growth_fuel start needed c start_max e in
          let below = (le-div_iff_mul-le {x = c} {y = size_max} sized).1 (product c size) in
          ground (arith, below)

  -- With an allocator that grants every request a push returns the address of its element, as long
  -- as the buffer fits an object, and so do eight elements and twice the elements after the push.
  pub push_succeeds :
      (v : Vector A) (xs : List A) (x : A)
      → Represents v xs
      → 0 < v.element_size
      → 2 * (v.count + 1) * v.element_size ≤ size_max
      → 8 * v.element_size ≤ size_max
      → v.capacity * v.element_size ≤ size_max
      → (push grant v x).1 ≡ some (length xs)
  unfolding store
  push_succeeds v xs x r sized room eight fits =
      let next : wrap64 (v.count + 1) ≡ v.count + 1 = wrapped v.count v.element_size sized room in
      let (w, kept, done) = reserve_grants v (v.count + 1) sized r.bounded room eight fits in
      rw (push_sized grant v x (ground arith), next, done) (ground (arith, kept, r.counted))
    where
      wrapped : (n e : ℕ) → 0 < e → 2 * (n + 1) * e ≤ size_max → wrap64 (n + 1) ≡ n + 1
      wrapped n e he h = let small : 2 * (n + 1) ≤ size_max = grind arith in omega arith
