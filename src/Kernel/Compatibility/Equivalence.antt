-- ===== src/Kernel/Compatibility/Equivalence.antt =====
-- Compatibility is symmetric and transitive.
use sultanc.Prelude.{
  ℕ, zero, suc, false, ◌≡◌, refl, sym, ◌∙◌, arith, inl, inr, Bool-cases, ◌↔◌, ◌||◌,
}
use sultanc.Frontend.Ast.{AstType}
use sultanc.Kernel.Names.{Names}
use sultanc.Kernel.Types.{
  ResolvedType, unwrap_mutable, is_missing, Resolution, unresolved, resolved, resolve,
}
use sultanc.Kernel.Compatibility.{Verdict, agree, compare_resolved, compare_resolutions, compatible}
use sultanc.Kernel.Compatibility.Steps.{compare_resolved_symm, compare_resolved_trans}

-- What `compatible` saw where it answers 1.
abbrev pub Compared : ℕ → Names → AstType → AstType → Type 0
Compared fuel names left right =
    (a : ResolvedType) × (b : ResolvedType) × (is_missing (unwrap_mutable left) ≡ false)
    × (is_missing (unwrap_mutable right) ≡ false)
    × (resolve (suc fuel) names (unwrap_mutable left) ≡ resolved a)
    × (resolve (suc fuel) names (unwrap_mutable right) ≡ resolved b)
    × (compare_resolved (compatible fuel names) (unwrap_mutable left) (unwrap_mutable right) a b
        ≡ agree)

Resolutions-agree :
    (again : AstType → AstType → Verdict) (l r : AstType) (x y : Resolution)
    → compare_resolutions again l r x y ≡ agree
    → (a : ResolvedType) × (b : ResolvedType) × (x ≡ resolved a)
      × (y ≡ resolved b)
      × (compare_resolved again l r a b ≡ agree)
unfolding compare_resolutions
Resolutions-agree again l r unresolved y h = cc
Resolutions-agree again l r Resolution.out_of_fuel y h = cc
Resolutions-agree again l r (resolved a) unresolved h = cc
Resolutions-agree again l r (resolved a) Resolution.out_of_fuel h = cc
Resolutions-agree again l r (resolved a) (resolved b) h = (a, b, refl, refl, h)

pub compatible-Compared :
    (fuel : ℕ) (names : Names) (left right : AstType)
    → (compatible (suc fuel) names left right ≡ agree) ↔ Compared fuel names left right
unfolding compatible compare_resolutions
compatible-Compared fuel names left right =
    elim (Bool-cases (is_missing (unwrap_mutable left) || is_missing (unwrap_mutable right))) [
      | inl null ↦ (λ h. absurd (ground arith), λ (a, b, l, r, x, y, e). absurd (ground arith))
      | inr there ↦ (
        λ h.
            let (a, b, x, y, e) =
              Resolutions-agree (compatible fuel names) (unwrap_mutable left) (unwrap_mutable right)
                (resolve (suc fuel) names (unwrap_mutable left))
                (resolve (suc fuel) names (unwrap_mutable right)) (rw there at h) in
            (a, b, ground arith, ground arith, x, y, e),
        λ (a, b, l, r, x, y, e). rw (there, x, y) e,
      )
    ]

compatible_symm :
    (fuel : ℕ) (names : Names) (left right : AstType)
    → compatible fuel names left right ≡ agree
    → compatible fuel names right left ≡ agree
unfolding compatible
compatible_symm zero names left right h = cc
compatible_symm (suc fuel) names left right h =
    let (a, b, l, r, x, y, e) = (compatible-Compared fuel names left right).0 h in
    (compatible-Compared fuel names right left).1 (
      b,
      a,
      r,
      l,
      y,
      x,
      compare_resolved_symm (compatible fuel names) (compatible_symm fuel names)
          (unwrap_mutable left) (unwrap_mutable right) a b e,
    )

resolved-injective : {a b : ResolvedType} → resolved a ≡ resolved b → a ≡ b
resolved-injective e = cc

compatible_trans :
    (fuel : ℕ) (names : Names) (left middle right : AstType)
    → compatible fuel names left middle ≡ agree
    → compatible fuel names middle right ≡ agree
    → compatible fuel names left right ≡ agree
unfolding compatible
compatible_trans zero names left middle right h k = cc
compatible_trans (suc fuel) names left middle right h k =
    let (a, b, l, m, x, y, e) = (compatible-Compared fuel names left middle).0 h in
    let (b', c, m', r, y', z, e') = (compatible-Compared fuel names middle right).0 k in
    let same = resolved-injective (sym y' ∙ y) in
    (compatible-Compared fuel names left right).1 (
      a,
      c,
      l,
      r,
      x,
      z,
      compare_resolved_trans (compatible fuel names) (compatible_trans fuel names)
          (unwrap_mutable left) (unwrap_mutable middle) (unwrap_mutable right) a b c e
          (rw same at e'),
    )

-- Compatibility is symmetric and transitive: where two types are compatible they are so in either
-- order, and a type compatible with the second is compatible with the first.
pub compatible_equivalence :
    (fuel : ℕ) (names : Names) (left middle right : AstType)
    → compatible fuel names left middle ≡ agree
    → (compatible fuel names middle left ≡ agree)
      × ((compatible fuel names middle right ≡ agree) ↔ (compatible fuel names left right ≡ agree))
compatible_equivalence fuel names left middle right h =
    let back = compatible_symm fuel names left middle h in
    (
      back,
      (
        compatible_trans fuel names left middle right h,
        compatible_trans fuel names middle left right back,
      ),
    )
