-- ===== src/Kernel/Conversion/Implicit.antt =====
-- Which conversions between integer types are implicit.
use native.Mathlib.Nat.{pow-suc, one-le-pow, pow-le-pow_right}
use sultanc.Prelude.{
  ℕ, zero, suc, ◌-◌, ◌*◌, ◌^◌, ◌≤◌, ◌<◌, ◌≡◌, ◌↔◌, inl, inr, refl, arith, false, ltb, leb,
  Bool-cases,
}
use sultanc.Prelude.Int.{ℤ, pos, negsuc}
use mathlib.Core.Path.{subst}
use sultanc.Frontend.Ast.{AstType, missing, any}
use sultanc.Kernel.Names.{Names}
use sultanc.Kernel.Types.{
  Kind, signed_integer_kind, unsigned_integer_kind, ResolvedType, Resolution, resolved, resolve,
  unwrap_mutable, is_missing,
}
use sultanc.Kernel.Types.Widths.{IsSized, Sized, resolve-Sized, Similar, resolve-unwrap_mutable}
use sultanc.Kernel.Compatibility.{Verdict, compare_resolved, compare_resolutions, compatible}
use sultanc.Kernel.Conversion.{
  decide_by, implicit_safe, classify_numbers, classify_resolved, classify_resolutions, classify,
}
use sultanc.Kernel.Conversion.Ranges.{IsSigned, IsUnsigned, IsValue}

-- A wider word has at least twice the values.
pow-lt : (a b : ℕ) → a < b → 2 * 2 ^ a ≤ 2 ^ b
pow-lt a zero h = elim h [ ]
pow-lt a (suc b) h =
    omega (arith, pow-suc 2 b, pow-le-pow_right {n = 2} (omega arith) {i = a} {j = b} (omega arith))

pow-le : (a b : ℕ) → a ≤ b → 2 ^ a ≤ 2 ^ b
pow-le a b h = pow-le-pow_right {n = 2} (omega arith) h

-- Every value of the first integer type is one of the second.
abbrev pub Includes : Kind → ℕ → Kind → ℕ → Type 0
Includes j m k n = (value : ℤ) → IsValue j m value → IsValue k n value

IsSigned-wider : (m n : ℕ) → m ≤ n → (v : ℤ) → IsSigned m v → IsSigned n v
IsSigned-wider m n h (pos x) p = omega (arith, pow-le (m - 1) (n - 1) (omega arith))
IsSigned-wider m n h (negsuc x) p = omega (arith, pow-le (m - 1) (n - 1) (omega arith))

IsUnsigned-wider : (m n : ℕ) → m ≤ n → (v : ℤ) → IsUnsigned m v → IsUnsigned n v
IsUnsigned-wider m n h (pos x) p = omega (arith, pow-le m n h)
IsUnsigned-wider m n h (negsuc x) p = p

IsUnsigned-IsSigned : (m n : ℕ) → m < n → (v : ℤ) → IsUnsigned m v → IsSigned n v
IsUnsigned-IsSigned m n h (pos x) p = omega (arith, pow-le m (n - 1) (omega arith))
IsUnsigned-IsSigned m n h (negsuc x) p = absurd p

signed-Includes :
    (m n : ℕ) → 0 < m → 0 < n → (m ≤ n) ↔ Includes signed_integer_kind m signed_integer_kind n
signed-Includes m n low low' = (
  IsSigned-wider m n,
  λ all. elim (Bool-cases (leb m n)) [
    | inl le ↦ ground arith
    | inr gt ↦
        let p = one-le-pow (m - 1) 2 (omega arith) in
        let q = pow-lt (n - 1) (m - 1) (ground arith) in
        absurd (
          omega
            (arith, all (pos (2 ^ (m - 1) - 1)) (omega arith), one-le-pow (n - 1) 2 (omega arith)))
  ],
)

unsigned-Includes :
    (m n : ℕ) → 0 < m → 0 < n → (m ≤ n) ↔ Includes unsigned_integer_kind m unsigned_integer_kind n
unsigned-Includes m n low low' = (
  IsUnsigned-wider m n,
  λ all. elim (Bool-cases (leb m n)) [
    | inl le ↦ ground arith
    | inr gt ↦
        let p = one-le-pow m 2 (omega arith) in
        let q = pow-lt n m (ground arith) in
        absurd (omega (arith, all (pos (2 ^ m - 1)) (omega arith), one-le-pow n 2 (omega arith)))
  ],
)

unsigned_signed-Includes :
    (m n : ℕ) → 0 < m → 0 < n → (m < n) ↔ Includes unsigned_integer_kind m signed_integer_kind n
unsigned_signed-Includes m n low low' = (
  IsUnsigned-IsSigned m n,
  λ all. elim (Bool-cases (ltb m n)) [
    | inl lt ↦ ground arith
    | inr ge ↦
        let p = one-le-pow m 2 (omega arith) in
        let q = pow-lt (n - 1) m (ground arith) in
        absurd
          (omega (arith, all (pos (2 ^ m - 1)) (omega arith), one-le-pow (n - 1) 2 (omega arith)))
  ],
)

-- A signed type has negative values.
signed_unsigned-Includes : (m n : ℕ) → ¬ Includes signed_integer_kind m unsigned_integer_kind n
signed_unsigned-Includes m n all = all (negsuc 0) (one-le-pow (m - 1) 2 (omega arith))

abbrev pub IsInteger : Kind → Type 0
IsInteger signed_integer_kind = Unit {0}
IsInteger unsigned_integer_kind = Unit {0}
IsInteger _ = ⊥

module _ (a b : ResolvedType) where
  classify_numbers_iff :
      (j k : Kind)
      → a.kind ≡ j
      → b.kind ≡ k
      → IsInteger j
      → IsInteger k
      → IsSized j a.bits
      → IsSized k b.bits
      → (classify_numbers a b ≡ implicit_safe) ↔ Includes j a.bits k b.bits
  unfolding classify_numbers
  classify_numbers_iff signed_integer_kind signed_integer_kind e e' i i' s s' =
      let iff = signed-Includes a.bits b.bits s.0 s'.0 in
      rw (e, e') (λ h. iff.0 (ground arith), λ h. let le = iff.1 h in ground arith)
  classify_numbers_iff unsigned_integer_kind unsigned_integer_kind e e' i i' s s' =
      let iff = unsigned-Includes a.bits b.bits s.0 s'.0 in
      rw (e, e') (λ h. iff.0 (ground arith), λ h. let le = iff.1 h in ground arith)
  classify_numbers_iff unsigned_integer_kind signed_integer_kind e e' i i' s s' =
      let iff = unsigned_signed-Includes a.bits b.bits s.0 s'.0 in
      rw (e, e') (λ h. iff.0 (ground arith), λ h. let lt = iff.1 h in ground arith)
  classify_numbers_iff signed_integer_kind unsigned_integer_kind e e' i i' s s' =
      rw (e, e') (λ h. cc, λ h. absurd (signed_unsigned-Includes a.bits b.bits h))
  classify_numbers_iff _ _ e e' i i' s s' = absurd (search)

  -- Between integer types only the widths are looked at.
  classify_resolved-numbers :
      (fuel : ℕ) (names : Names) (j k : Kind)
      → a.kind ≡ j
      → b.kind ≡ k
      → IsInteger j
      → IsInteger k
      → classify_resolved fuel names a b ≡ classify_numbers a b
  unfolding classify_resolved
  classify_resolved-numbers fuel names signed_integer_kind signed_integer_kind e e' i i' =
      rw (e, e')
  classify_resolved-numbers fuel names unsigned_integer_kind unsigned_integer_kind e e' i i' =
      rw (e, e')
  classify_resolved-numbers fuel names unsigned_integer_kind signed_integer_kind e e' i i' =
      rw (e, e')
  classify_resolved-numbers fuel names signed_integer_kind unsigned_integer_kind e e' i i' =
      rw (e, e')
  classify_resolved-numbers fuel names _ _ e e' i i' = absurd (search)

  -- Types of the same kind and width are compatible, others differ; the first convert implicitly.
  compare_resolved-numbers :
      (again : AstType → AstType → Verdict) (l r : AstType) (a' b' : ResolvedType) (j k : Kind)
      → a.kind ≡ j
      → b.kind ≡ k
      → a.kind ≡ a'.kind
      → b.kind ≡ b'.kind
      → a.bits ≡ a'.bits
      → b.bits ≡ b'.bits
      → IsInteger j
      → IsInteger k
      → decide_by (compare_resolved again l r a' b') implicit_safe (classify_numbers a b)
        ≡ classify_numbers a b
  unfolding compare_resolved classify_numbers
  compare_resolved-numbers again l r a' b' signed_integer_kind signed_integer_kind e e' f f' g g' i
        i' =
      rw (← f, ← f', ← g, ← g', e, e') (ground arith)
  compare_resolved-numbers again l r a' b' unsigned_integer_kind unsigned_integer_kind e e' f f' g
        g' i i' =
      rw (← f, ← f', ← g, ← g', e, e') (ground arith)
  compare_resolved-numbers again l r a' b' unsigned_integer_kind signed_integer_kind e e' f f' g g'
        i i' =
      rw (← f, ← f', ← g, ← g', e, e')
  compare_resolved-numbers again l r a' b' signed_integer_kind unsigned_integer_kind e e' f f' g g'
        i i' =
      rw (← f, ← f', ← g, ← g', e, e')
  compare_resolved-numbers again l r a' b' _ _ e e' f f' g g' i i' = absurd (search)

there :
    (fuel : ℕ) (names : Names) (t : AstType) (a : ResolvedType)
    → resolve (suc fuel) names t ≡ resolved a
    → is_missing t ≡ false
unfolding resolve
there fuel names missing a h = cc
there fuel names any a h = refl
there fuel names _ a h = refl

-- A type that resolves has a node, and so has its base, which resolves alike.
base_resolved :
    (fuel : ℕ) (names : Names) (t : AstType) (a : ResolvedType)
    → resolve (suc fuel) names t ≡ resolved a
    → (a' : ResolvedType) × (resolve (suc fuel) names (unwrap_mutable t) ≡ resolved a')
      × (a.kind ≡ a'.kind)
      × (a.bits ≡ a'.bits)
base_resolved fuel names t a h =
    subst (λ (r : Resolution). Similar r (resolve (suc fuel) names (unwrap_mutable t))) h
      (resolve-unwrap_mutable (suc fuel) names t)

resolved-IsSized :
    (fuel : ℕ) (names : Names) (t : AstType) (a : ResolvedType)
    → resolve fuel names t ≡ resolved a
    → IsSized a.kind a.bits
resolved-IsSized fuel names t a h = subst Sized h (resolve-Sized fuel names t)

-- Where the source and the target of a conversion resolve to integer types, the conversion is
-- implicit exactly when every value of the source is a value of the target.
pub classify_implicit_iff :
    (fuel : ℕ) (names : Names) (source target : AstType) (a b : ResolvedType)
    → resolve (suc fuel) names source ≡ resolved a
    → resolve (suc fuel) names target ≡ resolved b
    → IsInteger a.kind
    → IsInteger b.kind
    → (classify (suc fuel) names source target ≡ implicit_safe)
      ↔ Includes a.kind a.bits b.kind b.bits
unfolding classify compatible compare_resolutions classify_resolutions
classify_implicit_iff fuel names source target a b h k i i' =
    let (a', h', same, wide) = base_resolved fuel names source a h in
    let (b', k', same', wide') = base_resolved fuel names target b k in
    let l = unwrap_mutable source in
    let r = unwrap_mutable target in
    rw
      (
        there fuel names source a h,
        there fuel names target b k,
        there fuel names l a' h',
        there fuel names r b' k',
        h',
        k',
        h,
        k,
        classify_resolved-numbers a b (suc fuel) names a.kind b.kind refl refl i i',
        compare_resolved-numbers a b (compatible fuel names) l r a' b' a.kind b.kind refl refl same
            same' wide wide' i i',
      )
      (classify_numbers_iff a b a.kind b.kind refl refl i i'
        (resolved-IsSized (suc fuel) names source a h)
        (resolved-IsSized (suc fuel) names target b k))
