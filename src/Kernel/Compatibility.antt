-- ===== src/Kernel/Compatibility.antt =====
-- Compatibility of types: bootstrap/src/kernel/type/type_compatibility.c. The source recurs through
-- inner types and aliases with no bound; the fuel bounds the depth.
pub mod Steps
pub mod Equivalence
pub mod Termination
pub mod Aliases
use sultanc.Prelude.{
  ℕ, zero, suc, Bool, true, false, not, ◌&&◌, ◌||◌, Option, none, some, ◌==◌, if◌then◌else◌,
}
use sultanc.Frontend.Ast.{AstType, result, AstTypes, no_types, type_then}
use sultanc.Kernel.Names.{Names}
use sultanc.Kernel.Types.{
  Kind, unknown_kind, boolean_kind, signed_integer_kind, unsigned_integer_kind, float_kind,
  character_kind, string_kind, pointer_kind, reference_kind, vector_kind, box_kind, option_kind,
  result_kind, function_kind, struct_kind, enum_kind, void_kind, kind_value, ResolvedType,
  unwrap_mutable, is_missing, Resolution, unresolved, resolved, resolve,
}

-- What a call answers: 1, 0, nothing within the fuel, or that it read the payloads of a result out of
-- a node that is no result, which C leaves undefined.
pub data Verdict : Type 0 where
  agree differ confused out_of_fuel : Verdict

-- `&&` on two answers; the second is asked for where the first is 1.
abbrev pub and_then : Verdict → Verdict → Verdict
and_then agree later = later
and_then differ later = differ
and_then confused later = confused
and_then out_of_fuel later = out_of_fuel

abbrev pub verdict : Bool → Verdict
verdict true = agree
verdict false = differ

-- `==` on two entries, each an address or null.
abbrev pub same_entry : Option ℕ → Option ℕ → Bool
same_entry none none = true
same_entry none (some b) = false
same_entry (some a) none = false
same_entry (some a) (some b) = a == b

abbrev pub same_flag : Bool → Bool → Bool
same_flag true b = b
same_flag false b = not b

abbrev pub count_types : AstTypes → ℕ
count_types no_types = 0
count_types (type_then t ts) = suc (count_types ts)

-- The loop over the parameters, whose counts are equal.
unfoldable pub compare_parameters : (AstType → AstType → Verdict) → AstTypes → AstTypes → Verdict
compare_parameters again (type_then t ts) (type_then u us) =
    and_then (again t u) (compare_parameters again ts us)
compare_parameters again _ _ = agree

-- `__Left_Base__->__As__.__Result__` and `__Right_Base__->__As__.__Result__`: the nodes themselves are
-- read, also where they are names of an alias.
unfoldable pub compare_results : (AstType → AstType → Verdict) → AstType → AstType → Verdict
compare_results again (result ok error) (result ok' error') =
    and_then (again ok ok') (again error error')
compare_results again _ _ = confused

-- What is compared where the kinds are equal.
unfoldable pub compare_kind :
    (AstType → AstType → Verdict) → AstType → AstType → ResolvedType → ResolvedType → Kind → Verdict
unfolding compare_parameters compare_results
compare_kind again l r a b signed_integer_kind = verdict (a.bits == b.bits)
compare_kind again l r a b unsigned_integer_kind = verdict (a.bits == b.bits)
compare_kind again l r a b float_kind = verdict (a.bits == b.bits)
compare_kind again l r a b pointer_kind = again a.inner b.inner
compare_kind again l r a b reference_kind =
    if not (same_flag a.is_reference_mutable b.is_reference_mutable)
    then differ
    else again a.inner b.inner
compare_kind again l r a b box_kind = again a.inner b.inner
compare_kind again l r a b option_kind = again a.inner b.inner
compare_kind again l r a b vector_kind = again a.inner b.inner
compare_kind again l r a b result_kind = compare_results again l r
compare_kind again l r a b function_kind =
    if not (count_types a.parameters == count_types b.parameters)
    then differ
    else and_then (compare_parameters again a.parameters b.parameters) (again a.output b.output)
compare_kind again l r a b struct_kind = verdict (same_entry a.named_entry b.named_entry)
compare_kind again l r a b enum_kind = verdict (same_entry a.named_entry b.named_entry)
compare_kind again l r a b _ = agree

unfoldable pub compare_resolved :
    (AstType → AstType → Verdict) → AstType → AstType → ResolvedType → ResolvedType → Verdict
unfolding compare_kind
compare_resolved again l r a b =
    if not (kind_value a.kind == kind_value b.kind)
    then differ
    else compare_kind again l r a b a.kind

-- Both bases are resolved, the left one first.
unfoldable pub compare_resolutions :
    (AstType → AstType → Verdict) → AstType → AstType → Resolution → Resolution → Verdict
unfolding compare_resolved
compare_resolutions again l r unresolved y = differ
compare_resolutions again l r Resolution.out_of_fuel y = out_of_fuel
compare_resolutions again l r (resolved a) unresolved = differ
compare_resolutions again l r (resolved a) Resolution.out_of_fuel = out_of_fuel
compare_resolutions again l r (resolved a) (resolved b) = compare_resolved again l r a b

-- `__Type_Compatible__`
unfoldable pub compatible : ℕ → Names → AstType → AstType → Verdict
unfolding unwrap_mutable resolve compare_resolutions
compatible zero names left right = out_of_fuel
compatible (suc fuel) names left right =
    let l = unwrap_mutable left in
    let r = unwrap_mutable right in
    if is_missing l || is_missing r
    then differ
    else compare_resolutions (compatible fuel names) l r (resolve (suc fuel) names l)
        (resolve (suc fuel) names r)
