-- ===== src/Kernel/Compatibility/Termination.antt =====
-- Compatibility comes to an answer where aliases do not go in circles.
use sultanc.Prelude.{
  ℕ, zero, suc, ◌≤◌, ◌<◌, ◌≢◌, arith, true, false, ◌||◌, ◌==◌, not, Bool, if_both,
}
use sultanc.Frontend.Ast.{AstType, result, AstTypes, type_then}
use sultanc.Kernel.Names.{Names}
use sultanc.Kernel.Types.{
  Kind, signed_integer_kind, unsigned_integer_kind, float_kind, pointer_kind, reference_kind,
  vector_kind, box_kind, option_kind, result_kind, function_kind, struct_kind, enum_kind,
  kind_value, ResolvedType, unwrap_mutable, is_missing, Resolution, unresolved, resolved, resolve,
}
use sultanc.Kernel.Types.Ranks.{
  weight, weight_all, IsRanked, unwrap_mutable-weight, IsLighter, Ends, resolve-Ends,
}
use sultanc.Kernel.Compatibility.{
  Verdict, agree, differ, confused, out_of_fuel, and_then, verdict, same_flag, count_types,
  compare_parameters, compare_results, compare_kind, compare_resolved, compare_resolutions,
  compatible,
}

and_then-ends : (v w : Verdict) → v ≢ out_of_fuel → w ≢ out_of_fuel → and_then v w ≢ out_of_fuel
and_then-ends agree w h k = k
and_then-ends differ w h k = λ e. cc
and_then-ends confused w h k = λ e. cc
and_then-ends out_of_fuel w h k = h

verdict-ends : (b : Bool) → verdict b ≢ out_of_fuel
verdict-ends true = λ e. cc
verdict-ends false = λ e. cc

differ-ends : differ ≢ out_of_fuel
differ-ends = λ e. cc

module _ (rank : ℕ → ℕ) (names : Names) (fuel : ℕ) (again : AstType → AstType → Verdict)
    (ends : (t u : AstType)
      → weight rank names t < fuel
      → weight rank names u < fuel
      → again t u ≢ out_of_fuel) where
  compare_parameters-ends :
      (ts us : AstTypes)
      → weight_all rank names ts < fuel
      → weight_all rank names us < fuel
      → compare_parameters again ts us ≢ out_of_fuel
  unfolding compare_parameters weight
  compare_parameters-ends (type_then t ts) (type_then u us) h k =
      and_then-ends (again t u) (compare_parameters again ts us)
        (ends t u (omega arith) (omega arith))
        (compare_parameters-ends ts us (omega arith) (omega arith))
  compare_parameters-ends _ _ h k = λ e. cc

  compare_results-ends :
      (l r : AstType)
      → weight rank names l ≤ fuel
      → weight rank names r ≤ fuel
      → compare_results again l r ≢ out_of_fuel
  unfolding compare_results weight
  compare_results-ends (result ok error) (result ok' error') h k =
      and_then-ends (again ok ok') (again error error') (ends ok ok' (omega arith) (omega arith))
        (ends error error' (omega arith) (omega arith))
  compare_results-ends _ _ h k = λ e. cc

  module _ (l r : AstType) (a b : ResolvedType) (left : weight rank names l ≤ fuel)
      (right : weight rank names r ≤ fuel) (lighter : IsLighter rank names fuel a)
      (lighter' : IsLighter rank names fuel b) where
    compare_kind-ends : (k : Kind) → compare_kind again l r a b k ≢ out_of_fuel
    unfolding compare_kind
    compare_kind-ends signed_integer_kind = verdict-ends _
    compare_kind-ends unsigned_integer_kind = verdict-ends _
    compare_kind-ends float_kind = verdict-ends _
    compare_kind-ends pointer_kind = ends a.inner b.inner lighter.0 lighter'.0
    compare_kind-ends reference_kind =
        if_both (λ v. v ≢ out_of_fuel)
          (not (same_flag a.is_reference_mutable b.is_reference_mutable)) differ-ends
          (ends a.inner b.inner lighter.0 lighter'.0)
    compare_kind-ends box_kind = ends a.inner b.inner lighter.0 lighter'.0
    compare_kind-ends option_kind = ends a.inner b.inner lighter.0 lighter'.0
    compare_kind-ends vector_kind = ends a.inner b.inner lighter.0 lighter'.0
    compare_kind-ends result_kind = compare_results-ends l r left right
    compare_kind-ends function_kind =
        if_both (λ v. v ≢ out_of_fuel) (not (count_types a.parameters == count_types b.parameters))
          differ-ends
          (and_then-ends _ _
            (compare_parameters-ends a.parameters b.parameters lighter.1 lighter'.1)
            (ends a.output b.output lighter.2 lighter'.2))
    compare_kind-ends struct_kind = verdict-ends _
    compare_kind-ends enum_kind = verdict-ends _
    compare_kind-ends _ = λ e. cc

    compare_resolved-ends : compare_resolved again l r a b ≢ out_of_fuel
    unfolding compare_resolved
    compare_resolved-ends =
        if_both (λ v. v ≢ out_of_fuel) (not (kind_value a.kind == kind_value b.kind)) differ-ends
          (compare_kind-ends a.kind)

  compare_resolutions-Ends :
      (l r : AstType) (x y : Resolution)
      → weight rank names l ≤ fuel
      → weight rank names r ≤ fuel
      → Ends rank names (weight rank names l) x
      → Ends rank names (weight rank names r) y
      → compare_resolutions again l r x y ≢ out_of_fuel
  unfolding compare_resolutions
  compare_resolutions-Ends l r unresolved y h k p q = differ-ends
  compare_resolutions-Ends l r Resolution.out_of_fuel y h k p q = absurd p
  compare_resolutions-Ends l r (resolved a) unresolved h k p q = differ-ends
  compare_resolutions-Ends l r (resolved a) Resolution.out_of_fuel h k p q = absurd q
  compare_resolutions-Ends l r (resolved a) (resolved b) h k p q =
      compare_resolved-ends l r a b h k (omega arith) (omega arith)

-- Where no alias leads back to itself, fuel above the weights of the two types is enough for
-- `compatible`: it comes to an answer.
pub compatible_ends :
    (rank : ℕ → ℕ) (names : Names)
    → IsRanked rank names
    → (fuel : ℕ) (left right : AstType) → weight rank names left < fuel
    → weight rank names right < fuel
    → compatible fuel names left right ≢ out_of_fuel
unfolding compatible
compatible_ends rank names ranked zero left right h k = elim h [ ]
compatible_ends rank names ranked (suc fuel) left right h k =
    let l = unwrap_mutable left in
    let r = unwrap_mutable right in
    let light : weight rank names l ≤ fuel = omega (arith, unwrap_mutable-weight rank names left) in
    let light' : weight rank names r ≤ fuel =
      omega (arith, unwrap_mutable-weight rank names right) in
    if_both (λ v. v ≢ out_of_fuel) (is_missing l || is_missing r) differ-ends
      (compare_resolutions-Ends rank names fuel (compatible fuel names)
        (compatible_ends rank names ranked fuel) l r (resolve (suc fuel) names l)
        (resolve (suc fuel) names r) light light'
        (resolve-Ends rank names ranked (suc fuel) l (omega arith))
        (resolve-Ends rank names ranked (suc fuel) r (omega arith)))
