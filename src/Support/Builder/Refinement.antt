-- ===== src/Support/Builder/Refinement.antt =====
-- The builder implements a text: appending concatenates and closes the text with a zero.
use mathlib.Core.Bool.{false≢true}
use sultanc.Prelude.{
  ℕ, ◌+◌, ◌-◌, ◌≤◌, ◌<◌, ◌≡◌, refl, sym, ap, ◌∙◌, arith, Bool, true, false, Option, none, some,
  List, [], ◌++◌, map, leb, ◌==◌, if◌then◌else◌, length, get_elem?, set, replicate, take, size_max,
  wrap64, length-append, length-set, length-replicate, take-append, Bool-cases, inl, inr,
}
use sultanc.Support.Growth.{Growth, enough, overflow, out_of_fuel, growth_fuel}
use sultanc.Support.Growth.Bounds.{double_until_bounds}
use sultanc.Support.Builder.Slots.{
  length-copy_at, take-copy_at, take-set_self, get_elem?-set_self, map-some-append,
}
use sultanc.Support.Builder.{Builder, init, reallocate, reserve, copy_at, store, append}

-- The builder holds `text`.
pub record Represents (b : Builder) (text : List ℕ) : Type 0 where
  pub counted : b.len ≡ length text
  pub fits : b.len ≤ b.capacity
  pub sized : length b.slots ≡ b.capacity
  pub bounded : b.capacity ≤ size_max
  pub contents : take b.len b.slots ≡ map some text

pub init-Represents : Represents init []
init-Represents = record {
  counted = refl;
  fits = omega arith;
  sized = refl;
  bounded = omega arith;
  contents = refl;
}

abbrev grown : Builder → ℕ → Builder
grown b c = record b { slots = b.slots ++ replicate (c - b.capacity) none; capacity = c }

grown-Represents :
    (b : Builder) (text : List ℕ) (c : ℕ)
    → Represents b text
    → b.capacity ≤ c
    → c ≤ size_max
    → Represents (grown b c) text
grown-Represents b text c r h k =
    let empty : Option ℕ = none in
    let extra = length-replicate (c - b.capacity) empty in
    record {
      counted = r.counted;
      fits = omega (arith, r.fits);
      sized =
          omega (arith, length-append b.slots (replicate (c - b.capacity) none), extra, r.sized);
      bounded = k;
      contents = take-append b.len b.slots _ (omega (arith, r.fits, r.sized)) ∙ r.contents;
    }

reallocate_taken :
    (grant : ℕ → Bool) (b w : Builder) (g : Growth)
    → reallocate grant b g ≡ (w, true)
    → (c : ℕ) × (g ≡ enough c) × (grown b c ≡ w)
unfolding reallocate
reallocate_taken grant b w (enough c) h = (c, refl, ground arith)
reallocate_taken grant b w overflow h = cc
reallocate_taken grant b w out_of_fuel h = cc

record HasRoom (b w : Builder) (text : List ℕ) (needed : ℕ) : Type 0 where
  same : Represents w text
  room : needed ≤ w.capacity
  len_kept : w.len ≡ b.len

reserve-HasRoom :
    (grant : ℕ → Bool) (b w : Builder) (text : List ℕ) (needed : ℕ)
    → Represents b text
    → reserve grant b needed ≡ (w, true)
    → HasRoom b w text needed
unfolding reserve
reserve-HasRoom grant b w text needed r h = elim (Bool-cases (leb needed b.capacity)) [
  | inl fits ↦
      let e : b ≡ w = ap (λ (p : Builder × Bool). p.0) (rw fits at h) in
      rw (← e) (record { same = r; room = ground arith; len_kept = refl })
  | inr small ↦
      let (c, found, e) = reallocate_taken grant b w _ (rw small at h) in
      let start : ℕ = if b.capacity == 0 then 64 else b.capacity in
      let (covers, rises, top, _) =
        double_until_bounds growth_fuel start needed c (ground (arith, r.bounded)) found in
      rw (← e) (record {
        same = grown-Represents b text c r (ground arith) top;
        room = covers;
        len_kept = refl;
      })
]

abbrev stored : Builder → List ℕ → Builder
stored w bytes = record w {
  slots = set (copy_at w.slots w.len bytes) (wrap64 (w.len + length bytes)) (some 0);
  len = wrap64 (w.len + length bytes);
}

store_taken :
    (p : Builder × Bool) (u : Builder) (bytes : List ℕ)
    → store p bytes ≡ (u, true)
    → (w : Builder) × (p ≡ (w, true)) × (u ≡ stored w bytes)
unfolding store
store_taken (w, true) u bytes h = (w, refl, ground arith)
store_taken (w, false) u bytes h = cc

stored-Represents :
    (w : Builder) (text bytes : List ℕ)
    → Represents w text
    → w.len + length bytes < w.capacity
    → Represents (stored w bytes) (text ++ bytes)
      × (get_elem? (stored w bytes).slots (stored w bytes).len ≡ some (some 0))
stored-Represents w text bytes r room =
    let end : wrap64 (w.len + length bytes) ≡ w.len + length bytes = omega (arith, r.bounded) in
    let written : List (Option ℕ) = copy_at w.slots w.len bytes in
    let size = length-copy_at bytes w.slots w.len in
    let closed = length-set written (w.len + length bytes) (some 0) in
    rw end (
      record {
        counted = omega (arith, r.counted, length-append text bytes);
        fits = omega arith;
        sized = closed ∙ size ∙ r.sized;
        bounded = r.bounded;
        contents =
            take-set_self (w.len + length bytes) written (some 0)
            ∙ take-copy_at bytes w.slots w.len (omega (arith, r.sized))
            ∙ ap (λ (ys : List (Option ℕ)). ys ++ map some bytes) r.contents
            ∙ map-some-append text bytes;
      },
      get_elem?-set_self (w.len + length bytes) written (some 0) (omega (arith, size, r.sized)),
    )

-- An append that succeeds leaves a builder that holds the old text followed by the new bytes, closed
-- by a zero byte.
pub append-Represents :
    (grant : ℕ → Bool) (b u : Builder) (text bytes : List ℕ)
    → Represents b text
    → length text + length bytes < size_max
    → append grant b bytes ≡ (u, true)
    → Represents u (text ++ bytes) × (get_elem? u.slots u.len ≡ some (some 0))
unfolding append
append-Represents grant b u text bytes r small h =
    let (w, reserved, result) = store_taken _ u bytes h in
    let room = reserve-HasRoom grant b w text _ r reserved in
    let fits : w.len + length bytes < w.capacity =
      omega (arith, room.room, room.len_kept, r.counted) in
    rw result (stored-Represents w text bytes room.same fits)

reallocate_failed :
    (grant : ℕ → Bool) (b w : Builder) (g : Growth) → reallocate grant b g ≡ (w, false) → w ≡ b
unfolding reallocate
reallocate_failed grant b w (enough c) h = ground arith
reallocate_failed grant b w overflow h = ground arith
reallocate_failed grant b w out_of_fuel h = ground arith

store_failed :
    (p : Builder × Bool) (u : Builder) (bytes : List ℕ)
    → store p bytes ≡ (u, false)
    → p ≡ (u, false)
unfolding store
store_failed (w, true) u bytes h = cc
store_failed (w, false) u bytes h = h

reserve_failed :
    (grant : ℕ → Bool) (b w : Builder) (needed : ℕ) → reserve grant b needed ≡ (w, false) → w ≡ b
unfolding reserve
reserve_failed grant b w needed h = elim (Bool-cases (leb needed b.capacity)) [
  | inl fits ↦ absurd (false≢true (sym (ap (λ (p : Builder × Bool). p.1) (rw fits at h))))
  | inr small ↦ reallocate_failed grant b w _ (rw small at h)
]

-- An append that fails leaves the builder as it was.
pub append_failed :
    (grant : ℕ → Bool) (b u : Builder) (bytes : List ℕ) → append grant b bytes ≡ (u, false) → u ≡ b
unfolding append
append_failed grant b u bytes h = reserve_failed grant b u _ (store_failed _ u bytes h)
