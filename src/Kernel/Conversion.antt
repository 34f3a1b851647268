-- ===== src/Kernel/Conversion.antt =====
-- Conversions between types and the range of integer literals:
-- bootstrap/src/kernel/type/conversion_literal.c. The fuel is that of `resolve` and `compatible`.
pub mod Ranges
pub mod Implicit
use sultanc.Prelude.{
  ℕ, zero, suc, ◌-◌, ◌^◌, Bool, true, false, not, ◌&&◌, ◌||◌, ltb, leb, ◌==◌, if◌then◌else◌,
}
use sultanc.Prelude.Int.{ℤ, pos, negsuc, pos_part, neg_part, leb_ℤ, ltb_ℤ}
use sultanc.Frontend.Ast.{AstType}
use sultanc.Kernel.Names.{Names}
use sultanc.Kernel.Types.{
  Kind, signed_integer_kind, unsigned_integer_kind, character_kind, string_kind, pointer_kind,
  reference_kind, vector_kind, kind_value, ResolvedType, is_missing, is_mutable_node, Resolution,
  unresolved, resolved, resolve,
}
use sultanc.Kernel.Compatibility.{
  Verdict, agree, differ, confused, out_of_fuel, verdict, compatible,
}

abbrev pub is_kind : Kind → ResolvedType → Bool
is_kind k a = kind_value a.kind == kind_value k

-- `__Signed_Integer_Fits__`; `value` is an int64_t.
unfoldable pub signed_integer_fits : ℤ → ℕ → Bool
signed_integer_fits value bits =
    if bits == 0 || ltb 64 bits
    then false
    else if bits == 64
    then true
    else let maximum = pos (2 ^ (bits - 1) - 1) in
      let minimum = negsuc (2 ^ (bits - 1) - 1) in leb_ℤ minimum value && leb_ℤ value maximum

-- `__Unsigned_Integer_Fits__`
unfoldable pub unsigned_integer_fits : ℤ → ℕ → Bool
unsigned_integer_fits value bits =
    if bits == 0 || (ltb 64 bits || ltb_ℤ value (pos 0))
    then false
    else if bits == 64
    then true
    else leb (pos_part value) (2 ^ bits - 1)

unfoldable pub fits_resolved : ℤ → ResolvedType → Bool
unfolding signed_integer_fits unsigned_integer_fits
fits_resolved value t =
    if is_kind signed_integer_kind t
    then signed_integer_fits value t.bits
    else if is_kind unsigned_integer_kind t
    then unsigned_integer_fits value t.bits
    else false

abbrev pub literal_verdict : ℤ → Resolution → Verdict
literal_verdict value unresolved = differ
literal_verdict value Resolution.out_of_fuel = out_of_fuel
literal_verdict value (resolved t) = verdict (fits_resolved value t)

-- `__Type_Integer_Literal_Fits__`
unfoldable pub integer_literal_fits : ℕ → Names → ℤ → AstType → Verdict
unfolding fits_resolved
integer_literal_fits fuel names value target = literal_verdict value (resolve fuel names target)

-- `__Type_Unsigned_Wide_Literal_Fits__`
unfoldable pub unsigned_wide_literal_fits : ℕ → Names → AstType → Verdict
unsigned_wide_literal_fits fuel names target = elim (resolve fuel names target) [
  | unresolved ↦ differ
  | Resolution.out_of_fuel ↦ out_of_fuel
  | resolved t ↦ verdict (is_kind unsigned_integer_kind t && t.bits == 64)
]

abbrev pub is_byte : Resolution → Verdict
is_byte unresolved = differ
is_byte Resolution.out_of_fuel = out_of_fuel
is_byte (resolved t) = verdict (is_kind unsigned_integer_kind t && t.bits == 8)

-- `__Type_Is_Byte_Vector_To_Text_Move__` behind the resolution of its two types.
unfoldable pub moves_bytes_to_text : ℕ → Names → ResolvedType → ResolvedType → Verdict
moves_bytes_to_text fuel names a b =
    if not (is_kind vector_kind a) || (not (is_kind string_kind b) || is_missing a.inner)
    then differ
    else is_byte (resolve fuel names a.inner)

-- `__Type_Conversion_Class__`, and the two ways in which a call has no answer.
pub data Conversion : Type 0 where
  conversion_invalid implicit_safe explicit_safe : Conversion
  conversion_confused conversion_out_of_fuel : Conversion

-- `if` on the answer of a call.
abbrev pub decide_by : Verdict → Conversion → Conversion → Conversion
decide_by agree c d = c
decide_by differ c d = d
decide_by confused c d = conversion_confused
decide_by out_of_fuel c d = conversion_out_of_fuel

-- The tests on the widths of numbers and characters.
unfoldable pub classify_numbers : ResolvedType → ResolvedType → Conversion
classify_numbers a b =
    if is_kind signed_integer_kind a && is_kind signed_integer_kind b
    then if leb a.bits b.bits then implicit_safe else explicit_safe
    else if is_kind unsigned_integer_kind a && is_kind unsigned_integer_kind b
    then if leb a.bits b.bits then implicit_safe else explicit_safe
    else if is_kind unsigned_integer_kind a && is_kind signed_integer_kind b
    then if ltb a.bits b.bits then implicit_safe else explicit_safe
    else if is_kind signed_integer_kind a && is_kind unsigned_integer_kind b
    then explicit_safe
    else if is_kind character_kind a && is_kind unsigned_integer_kind b
    then if leb 32 b.bits then implicit_safe else explicit_safe
    else conversion_invalid

-- A reference where a pointer is wanted.
unfoldable pub classify_pointer : ℕ → Names → ResolvedType → ResolvedType → Conversion
classify_pointer fuel names a b =
    decide_by (compatible fuel names a.inner b.inner)
      (if is_mutable_node b.inner && not a.is_reference_mutable
        then conversion_invalid
        else implicit_safe)
      conversion_invalid

-- A reference where a reference is wanted; with the same mutability the tests behind it follow.
unfoldable pub classify_reference : ℕ → Names → ResolvedType → ResolvedType → Conversion
unfolding classify_numbers
classify_reference fuel names a b =
    decide_by (compatible fuel names a.inner b.inner)
      (if a.is_reference_mutable && not b.is_reference_mutable
        then implicit_safe
        else if not a.is_reference_mutable && b.is_reference_mutable
        then conversion_invalid
        else classify_numbers a b)
      conversion_invalid

unfoldable pub classify_resolved : ℕ → Names → ResolvedType → ResolvedType → Conversion
unfolding moves_bytes_to_text classify_pointer classify_reference classify_numbers
classify_resolved fuel names a b = decide_by (moves_bytes_to_text fuel names a b) explicit_safe (
    if is_kind reference_kind a && is_kind pointer_kind b
    then classify_pointer fuel names a b
    else if is_kind reference_kind a && is_kind reference_kind b
    then classify_reference fuel names a b
    else classify_numbers a b)

unfoldable pub classify_resolutions : ℕ → Names → Resolution → Resolution → Conversion
unfolding classify_resolved
classify_resolutions fuel names unresolved y = conversion_invalid
classify_resolutions fuel names Resolution.out_of_fuel y = conversion_out_of_fuel
classify_resolutions fuel names (resolved a) unresolved = conversion_invalid
classify_resolutions fuel names (resolved a) Resolution.out_of_fuel = conversion_out_of_fuel
classify_resolutions fuel names (resolved a) (resolved b) = classify_resolved fuel names a b

-- `__Type_Conversion_Classify__`
unfoldable pub classify : ℕ → Names → AstType → AstType → Conversion
unfolding classify_resolutions
classify fuel names source target =
    if is_missing source || is_missing target
    then conversion_invalid
    else decide_by (compatible fuel names source target) implicit_safe
        (classify_resolutions fuel names (resolve fuel names source) (resolve fuel names target))

-- `__Type_Conversion_Is_Safe__`
unfoldable pub conversion_is_safe : ℕ → Names → AstType → AstType → Bool
unfolding classify
conversion_is_safe fuel names source target = elim (classify fuel names source target) [
  | implicit_safe ↦ true
  | _ ↦ false
]
