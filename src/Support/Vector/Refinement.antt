-- ===== src/Support/Vector/Refinement.antt =====
-- The vector implements a list: pushing appends, reading is indexing, a failed push changes nothing.
use sultanc.Prelude.{
  ℕ, zero, suc, ◌+◌, ◌-◌, ◌≤◌, ◌<◌, ◌≡◌, refl, sym, ap, ◌∙◌, arith, Bool, true, false, Option, none,
  some, List, [], ◌∷◌, ◌++◌, map, leb, ◌==◌, if◌then◌else◌, length, get_elem?, get_or, set,
  replicate, take, size_max, wrap64, length-append, length-set, length-replicate, take-append,
  take-set_end, Bool-cases, inl, inr,
}
use mathlib.Core.List.{map-append}
use mathlib.Core.Bool.{false≢true}
use sultanc.Support.Growth.{Growth, enough, overflow, out_of_fuel, growth_fuel}
use sultanc.Support.Growth.Bounds.{double_until_bounds}
use sultanc.Support.Vector.{Vector, init, reallocate, reserve, store, push, at_const}

module _ {ℓ} {A : Type ℓ} where
  -- The vector stands for the list `xs`.
  pub record Represents (v : Vector A) (xs : List A) : Type ℓ where
    pub counted : v.count ≡ length xs
    pub fits : v.count ≤ v.capacity
    pub sized : length v.slots ≡ v.capacity
    pub bounded : v.capacity ≤ size_max
    pub contents : take v.count v.slots ≡ map some xs

  -- An empty vector stands for the empty list.
  pub init-Represents : (element_size : ℕ) → Represents (init element_size) []
  unfolding init
  init-Represents element_size = record {
    counted = refl;
    fits = omega arith;
    sized = refl;
    bounded = omega arith;
    contents = refl;
  }

  abbrev grown : Vector A → ℕ → Vector A
  grown v c = record v { slots = v.slots ++ replicate (c - v.capacity) none; capacity = c }

  -- Growing keeps what the vector stands for.
  grown-Represents :
      (v : Vector A) (xs : List A) (c : ℕ)
      → Represents v xs
      → v.capacity ≤ c
      → c ≤ size_max
      → Represents (grown v c) xs
  grown-Represents v xs c r h k =
      let empty : Option A = none in
      let extra = length-replicate (c - v.capacity) empty in
      record {
        counted = r.counted;
        fits = omega (arith, r.fits);
        sized =
            omega (arith, length-append v.slots (replicate (c - v.capacity) none), extra, r.sized);
        bounded = k;
        contents = take-append v.count v.slots _ (omega (arith, r.fits, r.sized)) ∙ r.contents;
      }

  reallocate_taken :
      (grant : ℕ → Bool) (v w : Vector A) (g : Growth)
      → reallocate grant v g ≡ (w, true)
      → (c : ℕ) × (g ≡ enough c) × (grown v c ≡ w)
  unfolding reallocate
  reallocate_taken grant v w (enough c) h = (c, refl, ground arith)
  reallocate_taken grant v w overflow h = cc
  reallocate_taken grant v w out_of_fuel h = cc

  -- What a successful reservation gives: the same list, in a buffer with room for `needed`.
  pub record HasRoom (v w : Vector A) (xs : List A) (needed : ℕ) : Type ℓ where
    pub same : Represents w xs
    pub room : needed ≤ w.capacity
    pub count_kept : w.count ≡ v.count

  reserve-HasRoom :
      (grant : ℕ → Bool) (v w : Vector A) (xs : List A) (needed : ℕ)
      → Represents v xs
      → reserve grant v needed ≡ (w, true)
      → HasRoom v w xs needed
  unfolding reserve
  reserve-HasRoom grant v w xs needed r h = elim (Bool-cases (leb needed v.capacity)) [
    | inl fits ↦
        let e : v ≡ w = ap (λ (p : Vector A × Bool). p.0) (rw fits at h) in
        rw (← e) (record { same = r; room = ground arith; count_kept = refl })
    | inr small ↦
        let (c, found, e) = reallocate_taken grant v w _ (rw small at h) in
        let start : ℕ = if v.capacity == 0 then 8 else v.capacity in
        let (covers, rises, top, _) =
          double_until_bounds growth_fuel start needed c (ground (arith, r.bounded)) found in
        rw (← e) (record {
          same = grown-Represents v xs c r (ground arith) top;
          room = covers;
          count_kept = refl;
        })
  ]

  store_taken :
      (p : Vector A × Bool) (u : Vector A) (x : A) (i : ℕ)
      → store p x ≡ (u, some i)
      → (w : Vector A) × (p ≡ (w, true))
        × (i ≡ w.count)
        × (u ≡ record w { slots = set w.slots w.count (some x); count = wrap64 (w.count + 1) })
  unfolding store
  store_taken (w, true) u x i h = (w, refl, ground arith, ground arith)
  store_taken (w, false) u x i h = cc

  store_failed :
      (p : Vector A × Bool) (u : Vector A) (x : A) → store p x ≡ (u, none) → p ≡ (u, false)
  unfolding store
  store_failed (w, true) u x h = cc
  store_failed (w, false) u x h = ground arith

  reallocate_failed :
      (grant : ℕ → Bool) (v w : Vector A) (g : Growth) → reallocate grant v g ≡ (w, false) → w ≡ v
  unfolding reallocate
  reallocate_failed grant v w (enough c) h = ground arith
  reallocate_failed grant v w overflow h = ground arith
  reallocate_failed grant v w out_of_fuel h = ground arith

  reserve_failed :
      (grant : ℕ → Bool) (v w : Vector A) (needed : ℕ) → reserve grant v needed ≡ (w, false) → w ≡ v
  unfolding reserve
  reserve_failed grant v w needed h = elim (Bool-cases (leb needed v.capacity)) [
    | inl fits ↦ absurd (false≢true (sym (ap (λ (p : Vector A × Bool). p.1) (rw fits at h))))
    | inr small ↦ reallocate_failed grant v w _ (rw small at h)
  ]

  pushed-Represents :
      (v w : Vector A) (xs : List A) (x : A)
      → v.count < size_max
      → HasRoom v w xs (wrap64 (v.count + 1))
      → Represents
          (record w { slots = set w.slots w.count (some x); count = wrap64 (w.count + 1) })
          (xs ++ x ∷ [])
  pushed-Represents v w xs x small room =
      let r = room.same in
      let next : wrap64 (w.count + 1) ≡ suc w.count = omega (arith, room.count_kept) in
      let below : w.count < length w.slots = omega (arith, r.sized, room.room, room.count_kept) in
      record {
        counted = omega (arith, next, r.counted, length-append xs (x ∷ []));
        fits = omega (arith, next, r.sized, below);
        sized = length-set w.slots w.count (some x) ∙ r.sized;
        bounded = r.bounded;
        contents =
            ap (λ (k : ℕ). take k (set w.slots w.count (some x))) next
            ∙ take-set_end w.count w.slots (some x) below
            ∙ ap (λ (ys : List (Option A)). ys ++ some x ∷ []) r.contents
            ∙ sym (map-append some xs (x ∷ []));
      }

  push_unsized :
      (grant : ℕ → Bool) (v : Vector A) (x : A)
      → (v.element_size == 0) ≡ true
      → push grant v x ≡ (v, none)
  unfolding push
  push_unsized grant v x e = rw e

  pub push_sized :
      (grant : ℕ → Bool) (v : Vector A) (x : A)
      → (v.element_size == 0) ≡ false
      → push grant v x ≡ store (reserve grant v (wrap64 (v.count + 1))) x
  unfolding push
  push_sized grant v x e = rw e

  push_taken :
      (grant : ℕ → Bool) (v u : Vector A) (x : A) (i : ℕ)
      → push grant v x ≡ (u, some i)
      → (w : Vector A) × (reserve grant v (wrap64 (v.count + 1)) ≡ (w, true))
        × (i ≡ w.count)
        × (u ≡ record w { slots = set w.slots w.count (some x); count = wrap64 (w.count + 1) })
  push_taken grant v u x i h = elim (Bool-cases (v.element_size == 0)) [
    | inl empty ↦ cc (push_unsized grant v x empty)
    | inr sized ↦ store_taken _ u x i (sym (push_sized grant v x sized) ∙ h)
  ]

  -- A push that returns an address has appended its element: the address is that of the new last
  -- element, and the vector stands for the longer list.
  pub push-Represents :
      (grant : ℕ → Bool) (v u : Vector A) (xs : List A) (x : A) (i : ℕ)
      → Represents v xs
      → v.count < size_max
      → push grant v x ≡ (u, some i)
      → Represents u (xs ++ x ∷ []) × (i ≡ length xs)
  push-Represents grant v u xs x i r small h =
      let (w, reserved, at, result) = push_taken grant v u x i h in
      let room = reserve-HasRoom grant v w xs (wrap64 (v.count + 1)) r reserved in
      (
        rw result (pushed-Represents v w xs x small room),
        omega (arith, at, room.count_kept, r.counted),
      )

  -- A push that returns null leaves the vector as it was.
  pub push_failed : (grant : ℕ → Bool) (v u : Vector A) (x : A) → push grant v x ≡ (u, none) → u ≡ v
  push_failed grant v u x h = elim (Bool-cases (v.element_size == 0)) [
    | inl empty ↦ ap (λ (p : Vector A × Option ℕ). p.0) (sym h ∙ push_unsized grant v x empty)
    | inr sized ↦
        reserve_failed grant v u _ (store_failed _ u x (sym (push_sized grant v x sized) ∙ h))
  ]

  get_or-take :
      (n i : ℕ) (ys : List (Option A)) → i < n → get_or ys i none ≡ get_or (take n ys) i none
  get_or-take zero i ys h = elim h [ ]
  get_or-take (suc n) i [] h = refl
  get_or-take (suc n) zero (y ∷ ys) h = refl
  get_or-take (suc n) (suc i) (y ∷ ys) h = get_or-take n i ys (omega arith)

  get_or-map-some : (xs : List A) (i : ℕ) → get_or (map some xs) i none ≡ get_elem? xs i
  get_or-map-some [] i = refl
  get_or-map-some (x ∷ xs) zero = refl
  get_or-map-some (x ∷ xs) (suc i) = get_or-map-some xs i

  get_elem?-past : (xs : List A) (i : ℕ) → length xs ≤ i → get_elem? xs i ≡ none
  get_elem?-past [] i h = refl
  get_elem?-past (x ∷ xs) zero h = elim h [ ]
  get_elem?-past (x ∷ xs) (suc i) h = get_elem?-past xs i (omega arith)

  -- Reading a vector is reading the list that it stands for, out of range included.
  at_const-get_elem? :
      (v : Vector A) (xs : List A) (i : ℕ) → Represents v xs → at_const v i ≡ get_elem? xs i
  unfolding at_const
  at_const-get_elem? v xs i r = elim (Bool-cases (leb v.count i)) [
    | inl past ↦ rw past (sym (get_elem?-past xs i (ground (arith, r.counted))))
    | inr within ↦ rw within (
        get_or-take v.count i v.slots (ground arith)
        ∙ ap (λ (ys : List (Option A)). get_or ys i none) r.contents
        ∙ get_or-map-some xs i)
  ]
