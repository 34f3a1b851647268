-- ===== src/Kernel/Conversion/Ranges.antt =====
-- The range of an integer type, and the literals that fit it.
use native.Mathlib.Nat.{one-le-pow}
use sultanc.Prelude.{
  ℕ, ◌-◌, ◌^◌, ◌≤◌, ◌<◌, ◌≡◌, ◌↔◌, inl, inr, refl, sym, ap, arith, Bool, true, false, ◌||◌, ltb,
  ◌==◌, Bool-cases,
}
use mathlib.Core.Path.{subst}
use sultanc.Prelude.Int.{ℤ, pos, negsuc, ltb_ℤ}
use sultanc.Frontend.Ast.{AstType}
use sultanc.Kernel.Names.{Names}
use sultanc.Kernel.Types.{
  Kind, signed_integer_kind, unsigned_integer_kind, ResolvedType, Resolution, unresolved, resolved,
  resolve,
}
use sultanc.Kernel.Types.Widths.{IsSized, Sized, resolve-Sized}
use sultanc.Kernel.Compatibility.{agree, verdict}
use sultanc.Kernel.Conversion.{
  signed_integer_fits, unsigned_integer_fits, fits_resolved, literal_verdict, integer_literal_fits,
}

-- The values of a two's complement word, and of a word without sign.
abbrev pub IsSigned : ℕ → ℤ → Type 0
IsSigned bits (pos n) = n < 2 ^ (bits - 1)
IsSigned bits (negsuc n) = n < 2 ^ (bits - 1)

abbrev pub IsUnsigned : ℕ → ℤ → Type 0
IsUnsigned bits (pos n) = n < 2 ^ bits
IsUnsigned bits (negsuc n) = ⊥

signed_integer_fits_iff :
    (value : ℤ) (bits : ℕ)
    → 0 < bits
    → bits ≤ 64
    → IsSigned 64 value
    → (signed_integer_fits value bits ≡ true) ↔ IsSigned bits value
unfolding signed_integer_fits
signed_integer_fits_iff (pos n) bits low high range = elim (Bool-cases (bits == 64)) [
  | inl full ↦ let e : bits ≡ 64 = ground arith in rw e (λ h. range, λ h. refl)
  | inr short ↦
      let p = one-le-pow (bits - 1) 2 (omega arith) in
      let guard : (bits == 0 || ltb 64 bits) ≡ false = ground arith in
      rw (guard, short) (λ h. ground (arith, p), λ h. ground (arith, p))
]
signed_integer_fits_iff (negsuc n) bits low high range = elim (Bool-cases (bits == 64)) [
  | inl full ↦ let e : bits ≡ 64 = ground arith in rw e (λ h. range, λ h. refl)
  | inr short ↦
      let p = one-le-pow (bits - 1) 2 (omega arith) in
      let guard : (bits == 0 || ltb 64 bits) ≡ false = ground arith in
      rw (guard, short) (λ h. ground (arith, p), λ h. ground (arith, p))
]

unsigned_integer_fits_iff :
    (value : ℤ) (bits : ℕ)
    → 0 < bits
    → bits ≤ 64
    → IsSigned 64 value
    → (unsigned_integer_fits value bits ≡ true) ↔ IsUnsigned bits value
unfolding unsigned_integer_fits
unsigned_integer_fits_iff (pos n) bits low high range = elim (Bool-cases (bits == 64)) [
  | inl full ↦ let e : bits ≡ 64 = ground arith in rw e (λ h. omega arith, λ h. ground arith)
  | inr short ↦
      let p = one-le-pow bits 2 (omega arith) in
      let guard : (bits == 0 || (ltb 64 bits || ltb_ℤ (pos n) (pos 0))) ≡ false = ground arith in
      rw (guard, short) (λ h. ground (arith, p), λ h. ground (arith, p))
]
unsigned_integer_fits_iff (negsuc n) bits low high range = (λ h. ground arith, λ h. absurd h)

-- The values of a resolved integer type; other types have no integer values.
abbrev pub IsValue : Kind → ℕ → ℤ → Type 0
IsValue signed_integer_kind bits value = IsSigned bits value
IsValue unsigned_integer_kind bits value = IsUnsigned bits value
IsValue _ bits value = ⊥

fits_resolved_kind :
    (value : ℤ) (t : ResolvedType) (k : Kind)
    → t.kind ≡ k
    → IsSized k t.bits
    → IsSigned 64 value
    → (fits_resolved value t ≡ true) ↔ IsValue k t.bits value
unfolding fits_resolved
fits_resolved_kind value t signed_integer_kind e sized range =
    rw e (signed_integer_fits_iff value t.bits sized.0 sized.1 range)
fits_resolved_kind value t unsigned_integer_kind e sized range =
    rw e (unsigned_integer_fits_iff value t.bits sized.0 sized.1 range)
fits_resolved_kind value t _ e sized range = rw e (λ h. cc, λ h. absurd h)

verdict-agree : (b : Bool) → verdict b ≡ agree → b ≡ true
verdict-agree true h = refl
verdict-agree false h = cc

resolved-injective : {a b : ResolvedType} → resolved a ≡ resolved b → a ≡ b
resolved-injective e = cc

resolved-agree :
    (value : ℤ) (r : Resolution)
    → IsSigned 64 value
    → Sized r
    → (literal_verdict value r ≡ agree)
      ↔ ((t : ResolvedType) × (r ≡ resolved t) × IsValue t.kind t.bits value)
resolved-agree value unresolved range sized = (λ h. cc, λ (t, e, v). cc)
resolved-agree value Resolution.out_of_fuel range sized = (λ h. cc, λ (t, e, v). cc)
resolved-agree value (resolved a) range sized =
    let iff = fits_resolved_kind value a a.kind refl sized range in
    (
      λ h. (a, refl, iff.0 (verdict-agree _ h)),
      λ (t, e, v).
          let same = resolved-injective e in
          ap verdict
            (iff.1 (subst (λ (x : ResolvedType). IsValue x.kind x.bits value) (sym same) v)),
    )

-- An integer literal fits a type exactly when the type resolves to an integer type and the value of
-- the literal, a 64-bit signed integer, is one of its values.
pub integer_literal_fits_iff :
    (fuel : ℕ) (names : Names) (value : ℤ) (target : AstType)
    → IsSigned 64 value
    → (integer_literal_fits fuel names value target ≡ agree) ↔ (
        (t : ResolvedType) × (resolve fuel names target ≡ resolved t) × IsValue t.kind t.bits value)
unfolding integer_literal_fits
integer_literal_fits_iff fuel names value target range =
    resolved-agree value (resolve fuel names target) range (resolve-Sized fuel names target)
