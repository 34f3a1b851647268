-- ===== src/Frontend/Lexer/Numbers/Literal.antt =====
-- Integer literals of bootstrap/src/frontend/lexer/lexer_number.c have the value that their digits have by position, and are refused exactly when it
-- does not fit 64 bits.
use mathlib.Core.Option.{none-ne-some}
use sultanc.Prelude.{
  ℕ, ◌≤◌, ◌<◌, ◌≡◌, ◌↔◌, refl, sym, ap, ◌∙◌, arith, Bool, false, Option, none, some, List, length,
  ltb, leb, size_max, int64_max, inl, inr, Bool-cases,
}
use sultanc.Frontend.Lexer.Numbers.Value.{Spells, no_digits, digit_then, positional, accumulate_iff}
use sultanc.Frontend.Lexer.Numbers.{
  mark_wide, accumulate, base_of, digits_of, is_nil, without_separators, parse_integer_value,
}

-- The number that a spelling means: without its separators it is digits of the base that its prefix
-- names, at least one, and their value by position fits 64 bits.
pub record IsIntegerOf (spelling : List ℕ) (v : ℕ) : Type 0 where
  pub short : length spelling < 256
  pub digits : List ℕ
  pub some_digit : 0 < length digits
  pub spelled :
      Spells
        (base_of (without_separators spelling))
        (digits_of (without_separators spelling))
        digits
  pub value_by_position : v ≡ positional (base_of (without_separators spelling)) digits
  pub fits : v ≤ size_max

base_of_bounds : (bytes : List ℕ) → (2 ≤ base_of bytes) × (base_of bytes ≤ 16)
base_of_bounds bytes = ground arith

some_digits :
    (base : ℕ) (bytes ds : List ℕ) → Spells base bytes ds → is_nil bytes ≡ false → 0 < length ds
some_digits base _ _ no_digits h = cc
some_digits base _ _ (digit_then byte d bytes ds e small spells) h = omega arith

no_nil :
    (base : ℕ) (bytes ds : List ℕ) → Spells base bytes ds → 0 < length ds → is_nil bytes ≡ false
no_nil base _ _ no_digits h = absurd (omega arith)
no_nil base _ _ (digit_then byte d bytes ds e small spells) h = refl

mark_wide_iff :
    (o : Option ℕ) (v : ℕ) (wide : Bool)
    → (mark_wide o ≡ some (v, wide)) ↔ ((o ≡ some v) × (wide ≡ ltb int64_max v))
mark_wide_iff none v wide = (λ e. cc, λ e. cc)
mark_wide_iff (some value) v wide = (
  λ e.
      let same : (value, ltb int64_max value) ≡ (v, wide) = cc in
      let first = ap (λ (p : ℕ × Bool). p.0) same in
      let second = ap (λ (p : ℕ × Bool). p.1) same in
      (ap (λ (n : ℕ). some n) first, sym second ∙ ap (ltb int64_max) first),
  λ (e, flag). let same : value ≡ v = cc in rw (same, flag) refl,
)

guarded :
    (spelling : List ℕ) (v : ℕ) (wide : Bool)
    → parse_integer_value spelling ≡ some (v, wide)
    → (leb 256 (length spelling) ≡ false)
      × (is_nil (digits_of (without_separators spelling)) ≡ false)
      × (mark_wide (
            accumulate
              (base_of (without_separators spelling))
              0
              (digits_of (without_separators spelling)))
          ≡ some (v, wide))
unfolding parse_integer_value
guarded spelling v wide h = elim (Bool-cases (leb 256 (length spelling))) [
  | inl long ↦ absurd (none-ne-some _ (rw long at h))
  | inr short ↦ elim (Bool-cases (is_nil (digits_of (without_separators spelling)))) [
    | inl empty ↦ absurd (none-ne-some _ (rw (short, empty) at h))
    | inr full ↦ (short, full, rw (short, full) at h)
  ]
]

parse_integer_value_guarded :
    (spelling : List ℕ)
    → leb 256 (length spelling) ≡ false
    → is_nil (digits_of (without_separators spelling)) ≡ false
    → parse_integer_value spelling
      ≡ mark_wide (
          accumulate
            (base_of (without_separators spelling))
            0
            (digits_of (without_separators spelling)))
unfolding parse_integer_value
parse_integer_value_guarded spelling short full = rw (short, full) refl

-- An integer literal is read exactly when it is shorter than 256 bytes, has a digit, has only digits of
-- its base beside its separators, and fits 64 bits; its value is then that of its digits by position,
-- and it is marked as wide exactly when it is above the largest signed value.
pub parse_integer_value_iff :
    (spelling : List ℕ) (v : ℕ) (wide : Bool)
    → (parse_integer_value spelling ≡ some (v, wide))
      ↔ (IsIntegerOf spelling v × (wide ≡ ltb int64_max v))
parse_integer_value_iff spelling v wide =
    let buffer = without_separators spelling in
    let base = base_of buffer in
    let bytes = digits_of buffer in
    let (lo, hi) = base_of_bounds buffer in
    let loop = accumulate_iff base lo hi 0 bytes v (omega arith) in
    let marked = mark_wide_iff (accumulate base 0 bytes) v wide in
    (
      λ h.
          let (short, full, run) = guarded spelling v wide h in
          let (found, flag) = marked.0 run in
          let (ds, spells, sum, fits) = loop.0 found in
          (
            record {
              short = ground (arith, short);
              digits = ds;
              some_digit = some_digits base bytes ds spells full;
              spelled = spells;
              value_by_position = omega (arith, sum);
              fits = fits;
            },
            flag,
          ),
      λ (is, flag).
          parse_integer_value_guarded spelling (ground (arith, is.short))
            (no_nil base bytes is.digits is.spelled is.some_digit)
          ∙ marked.1
              (loop.1 (is.digits, is.spelled, is.value_by_position ∙ omega arith, is.fits), flag),
    )
