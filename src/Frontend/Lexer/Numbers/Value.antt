-- ===== src/Frontend/Lexer/Numbers/Value.antt =====
-- The loop over the digits of bootstrap/src/frontend/lexer/lexer_number.c gives their value by position.
use native.Mathlib.Nat.{le-div_iff_mul-le, one-le-pow, pow-suc, pow-zero}
use sultanc.Prelude.{
  ℕ, ◌+◌, ◌-◌, ◌*◌, ◌/◌, ◌^◌, ◌≤◌, ◌<◌, ◌≡◌, ◌↔◌, refl, sym, ap, ◌∙◌, arith, Option, none, some,
  List, [], ◌∷◌, length, ltb, leb, size_max, inl, inr, Bool-cases, Option-cases,
}
use sultanc.Frontend.Lexer.Numbers.{digit_value, add_digit, accumulate}

-- The digits `bytes` spell, all of them below the base.
pub data Spells (base : ℕ) : List ℕ → List ℕ → Type 0 where
  no_digits : Spells base [] []
  digit_then :
      (byte d : ℕ) (bytes ds : List ℕ)
      → digit_value byte ≡ some d
      → d < base
      → Spells base bytes ds
      → Spells base (byte ∷ bytes) (d ∷ ds)

-- The value of digits by their positions.
abbrev pub positional : ℕ → List ℕ → ℕ
positional base [] = 0
positional base (d ∷ ds) = d * base ^ length ds + positional base ds

-- One round adds the digit exactly when the result fits.
add_digit_fits :
    (base value d : ℕ)
    → 2 ≤ base
    → base ≤ 16
    → d < base
    → value * base + d ≤ size_max
    → add_digit base value (some d) ≡ some (value * base + d)
add_digit_fits base value d lo hi small fits =
    let iff = le-div_iff_mul-le {k = base} {x = value} {y = size_max - d} (omega arith) in
    let bound = iff.1 (omega arith) in ground (arith, bound)

add_digit_overflows :
    (base value d : ℕ)
    → 2 ≤ base
    → base ≤ 16
    → d < base
    → size_max < value * base + d
    → add_digit base value (some d) ≡ none
add_digit_overflows base value d lo hi small big =
    let iff = le-div_iff_mul-le {k = base} {x = value} {y = size_max - d} (omega arith) in
    elim (Bool-cases (ltb ((size_max - d) / base) value)) [
      | inl past ↦ ground (arith, past)
      | inr within ↦ absurd (omega (arith, iff.0 (ground (arith, within))))
    ]

add_digit_bad : (base value d : ℕ) → base ≤ d → add_digit base value (some d) ≡ none
add_digit_bad base value d h = ground arith

-- A leading digit moves the value one position up.
horner :
    (value base d p : ℕ) (ds : List ℕ)
    → value * base ^ length (d ∷ ds) + (d * base ^ length ds + p)
      ≡ (value * base + d) * base ^ length ds + p
horner value base d p ds = let power = pow-suc base (length ds) in rw power (grind arith)

first_fits :
    (value base d p n : ℕ)
    → 0 < base
    → (value * base + d) * base ^ n + p ≤ size_max
    → value * base + d ≤ size_max
first_fits value base d p n pos h = let one = one-le-pow n base pos in grind arith

-- The reading of a text of digits behind the value `value`.
abbrev pub Reading : ℕ → ℕ → List ℕ → ℕ → Type 0
Reading base value bytes v =
    (ds : List ℕ) × Spells base bytes ds
    × (v ≡ value * base ^ length ds + positional base ds)
    × (v ≤ size_max)

Spells-cons_inv :
    (base byte : ℕ) (bytes ds : List ℕ)
    → Spells base (byte ∷ bytes) ds
    → (d : ℕ) × (later : List ℕ) × (ds ≡ d ∷ later)
      × (digit_value byte ≡ some d)
      × (d < base)
      × Spells base bytes later
Spells-cons_inv base _ _ _ (digit_then byte d bytes ds e small spells) =
    (d, ds, refl, e, small, spells)

Spells-nil_inv : (base : ℕ) (ds : List ℕ) → Spells base [] ds → ds ≡ []
Spells-nil_inv base _ no_digits = refl

-- The loop behind one round.
abbrev after : ℕ → List ℕ → Option ℕ → Option ℕ
after base bytes none = none
after base bytes (some next) = accumulate base next bytes

accumulate-after :
    (base value byte : ℕ) (bytes : List ℕ)
    → accumulate base value (byte ∷ bytes)
      ≡ after base bytes (add_digit base value (digit_value byte))
unfolding accumulate
accumulate-after base value byte bytes = by (add_digit base value (digit_value byte))
  where
    by :
        (o : Option ℕ)
        → elim o [ none ↦ none | some next ↦ accumulate base next bytes ] ≡ after base bytes o
    by none = refl
    by (some next) = refl

module _ (base : ℕ) (lo : 2 ≤ base) (hi : base ≤ 16) where
  Reading-step :
      (value byte d v : ℕ) (bytes : List ℕ)
      → digit_value byte ≡ some d
      → Reading base value (byte ∷ bytes) v
      → (d < base) × (value * base + d ≤ size_max) × Reading base (value * base + d) bytes v
  Reading-step value byte d v bytes e (whole, spells, sum, fits) =
      let (d', ds, split, e', small, later) = Spells-cons_inv base byte bytes whole spells in
      let same : d ≡ d' = cc in
      let moved = rw split at sum ∙ horner value base d' (positional base ds) ds in
      rw same (
        small,
        first_fits value base d' (positional base ds) (length ds) (omega arith) (rw moved at fits),
        (ds, later, moved, fits),
      )

  Reading-back :
      (value byte d v : ℕ) (bytes : List ℕ)
      → digit_value byte ≡ some d
      → d < base
      → Reading base (value * base + d) bytes v
      → Reading base value (byte ∷ bytes) v
  Reading-back value byte d v bytes e small (ds, spells, sum, fits) = (
    d ∷ ds,
    digit_then byte d bytes ds e small spells,
    sum ∙ sym (horner value base d (positional base ds) ds),
    fits,
  )

  accumulate_next :
      (value byte d : ℕ) (bytes : List ℕ)
      → digit_value byte ≡ some d
      → d < base
      → value * base + d ≤ size_max
      → accumulate base value (byte ∷ bytes) ≡ accumulate base (value * base + d) bytes
  accumulate_next value byte d bytes e small fits =
      accumulate-after base value byte bytes
      ∙ ap (λ (o : Option ℕ). after base bytes (add_digit base value o)) e
      ∙ ap (after base bytes) (add_digit_fits base value d lo hi small fits)

  accumulate_stop :
      (value byte : ℕ) (bytes : List ℕ)
      → add_digit base value (digit_value byte) ≡ none
      → accumulate base value (byte ∷ bytes) ≡ none
  accumulate_stop value byte bytes h =
      accumulate-after base value byte bytes ∙ ap (after base bytes) h

  no_more : (value : ℕ) → value * base ^ 0 + 0 ≡ value
  no_more value = let one = pow-zero base in rw one (omega arith)

  -- The loop gives the value by position, where it fits.
  pub accumulate_iff :
      (value : ℕ) (bytes : List ℕ) (v : ℕ)
      → value ≤ size_max
      → (accumulate base value bytes ≡ some v) ↔ Reading base value bytes v
  unfolding accumulate
  accumulate_iff value [] v h = (
    λ e.
        let same : value ≡ v = cc in ([], no_digits, sym same ∙ sym (no_more value), rw (← same) h),
    λ (ds, spells, sum, fits).
        let empty = Spells-nil_inv base ds spells in
        ap (λ (n : ℕ). some n) (sym (rw empty at sum ∙ no_more value)),
  )
  accumulate_iff value (byte ∷ bytes) v h = elim (Option-cases (digit_value byte)) [
    | inl bad ↦ (
      λ e. let stop = accumulate_stop value byte bytes (rw bad refl) in cc,
      λ (ds, spells, sum, fits).
          let (d, later, split, e, small, rest) = Spells-cons_inv base byte bytes ds spells in cc,
    )
    | inr (d, digit) ↦ elim (Bool-cases (leb base d)) [
      | inl large ↦ (
        λ e.
            let stop =
              accumulate_stop value byte bytes
                (rw digit (add_digit_bad base value d (ground (arith, large)))) in
            cc,
        λ r. absurd (ground (arith, large, (Reading-step value byte d v bytes digit r).0)),
      )
      | inr small ↦
          let small' : d < base = ground (arith, small) in
          elim (Bool-cases (leb (value * base + d) size_max)) [
            | inl fits ↦
                let fits' : value * base + d ≤ size_max = ground (arith, fits) in
                let later = accumulate_iff (value * base + d) bytes v fits' in
                let next = accumulate_next value byte d bytes digit small' fits' in
                (
                  λ e. Reading-back value byte d v bytes digit small' (later.0 (sym next ∙ e)),
                  λ r. next ∙ later.1 (Reading-step value byte d v bytes digit r).2,
                )
            | inr big ↦ (
              λ e.
                  let over = add_digit_overflows base value d lo hi small' (ground (arith, big)) in
                  let stop = accumulate_stop value byte bytes (rw digit over) in cc,
              λ r. absurd (ground (arith, big, (Reading-step value byte d v bytes digit r).1)),
            )
          ]
    ]
  ]
