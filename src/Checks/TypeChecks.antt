-- ===== src/Checks/TypeChecks.antt =====
-- The theorems on bootstrap/src/kernel/type, layout and memory at concrete inputs.
use sultanc.Prelude.{
  ℕ, zero, suc, ◌≡◌, ◌≢◌, ◌↔◌, refl, sym, ap, ◌∙◌, arith, Bool, ◌⊎◌, inl, true, false, Option, none,
  some, [], ◌∷◌,
}
use sultanc.Prelude.Int.{negsuc}
use sultanc.Frontend.Ast.{
  machine_i8, machine_u8, machine_i16, machine_i64, AstType, no_types, integer, machine, string,
  option, result, named, pointer, mutable_of, DeclarationBody, struct_of, alias_of, TypeDeclaration,
}
use sultanc.Kernel.Builtins.{builtin_u8, builtin_i16}
use sultanc.Kernel.Names.{Names}
use sultanc.Kernel.Types.{
  signed_integer_kind, unsigned_integer_kind, ResolvedType, Resolution, resolved, resolve,
  resolve_base, fill_builtin, unwrap_mutable, is_mutable_node,
}
use sultanc.Kernel.Types.Ranks.{weight, IsRanked}
use sultanc.Kernel.Compatibility.{agree, differ, confused, out_of_fuel, compatible}
use sultanc.Kernel.Compatibility.Equivalence.{compatible_equivalence}
use sultanc.Kernel.Compatibility.Termination.{compatible_ends}
use sultanc.Kernel.Compatibility.Aliases.{compatible-alias_of_result}
use sultanc.Kernel.Conversion.{implicit_safe, integer_literal_fits, classify}
use sultanc.Kernel.Conversion.Ranges.{IsValue, integer_literal_fits_iff}
use sultanc.Kernel.Conversion.Implicit.{Includes, classify_implicit_iff}
use sultanc.Kernel.Ownership.{type_is_owned, depth_limit}
use sultanc.Kernel.Ownership.Parts.{first, Settled}
use sultanc.Kernel.Ownership.Owning.{
  Owns, itself, through_part, text_owner, option_part, alias_part, field_part, NestedIn,
  IsLookedInto, HidesNothing,
}
use sultanc.Kernel.Ownership.Meaning.{type_is_owned_iff}
use sultanc.Kernel.Ownership.Aliases.{type_is_owned-alias_of_option}

-- Three declarations: a struct, an alias of an option and an alias of a result.
abbrev pair : TypeDeclaration
pair = record {
  name = b'P' ∷ [];
  type_parameters = [];
  body = struct_of (
      record { name = b'a' ∷ []; slot = machine machine_i8 }
      ∷ record { name = b'b' ∷ []; slot = machine machine_i64 }
      ∷ []);
}

abbrev maybe_text : TypeDeclaration
maybe_text = record { name = b'M' ∷ []; type_parameters = []; body = alias_of (option string) }

abbrev outcome : TypeDeclaration
outcome = record { name = b'O' ∷ []; type_parameters = []; body = alias_of (result integer string) }

-- The address of a named node is that of its entry.
abbrev entry_of : AstType → Option ℕ
entry_of (named address name arguments) = some address
entry_of _ = none

abbrev declared : ℕ → Option TypeDeclaration
declared zero = some pair
declared (suc zero) = some maybe_text
declared (suc (suc zero)) = some outcome
declared _ = none

abbrev sample : Names
sample = record { resolve_named_entry = entry_of; declaration = declared }

compatible_equivalence_example :
    (compatible 3 sample (mutable_of (pointer integer)) (pointer (machine machine_i64)) ≡ agree)
    × ((compatible 3 sample (pointer (machine machine_i64)) (pointer integer) ≡ agree)
        ↔ (compatible 3 sample (mutable_of (pointer integer)) (pointer integer) ≡ agree))
unfolding compatible
compatible_equivalence_example =
    compatible_equivalence 3 sample (pointer (machine machine_i64)) (mutable_of (pointer integer))
      (pointer integer) refl

abbrev body_of : Option TypeDeclaration → DeclarationBody
body_of none = alias_of integer
body_of (some x) = x.body

abbrev alias_target : DeclarationBody → AstType
alias_target (alias_of t) = t
alias_target _ = integer

target_of :
    (e : ℕ) (d : TypeDeclaration) (target : AstType)
    → declared e ≡ some d
    → d.body ≡ alias_of target
    → target ≡ alias_target (body_of (declared e))
target_of e d target p q =
    sym (ap alias_target q) ∙ sym (ap (λ (x : Option TypeDeclaration). alias_target (body_of x)) p)

sample-IsRanked : IsRanked (λ e. 9) sample
unfolding weight
sample-IsRanked zero d target p q = rw (target_of 0 d target p q) (omega arith)
sample-IsRanked (suc zero) d target p q = rw (target_of 1 d target p q) (omega arith)
sample-IsRanked (suc (suc zero)) d target p q = rw (target_of 2 d target p q) (omega arith)
sample-IsRanked (suc (suc (suc n))) d target p q =
    rw (target_of (suc (suc (suc n))) d target p q) (omega arith)

abbrev text_alias : AstType
text_alias = named 1 (b'M' ∷ []) no_types

abbrev outcome_alias : AstType
outcome_alias = named 2 (b'O' ∷ []) no_types

compatible_ends_example : compatible 20 sample text_alias (option string) ≢ out_of_fuel
unfolding weight
compatible_ends_example =
    compatible_ends (λ e. 9) sample sample-IsRanked 20 text_alias (option string) (omega arith)
      (omega arith)

compatible-alias_of_result_example :
    compatible 3 sample outcome_alias (result integer string) ≡ confused
compatible-alias_of_result_example =
    compatible-alias_of_result 1 sample 2 (b'O' ∷ []) no_types 2 outcome integer string integer
      string refl refl refl

integer_literal_fits_iff_example :
    (integer_literal_fits 2 sample (negsuc 127) (machine machine_i8) ≡ agree) ↔ (
      (t : ResolvedType) × (resolve 2 sample (machine machine_i8) ≡ resolved t)
      × IsValue t.kind t.bits (negsuc 127))
integer_literal_fits_iff_example =
    integer_literal_fits_iff 2 sample (negsuc 127) (machine machine_i8) (omega arith)

classify_implicit_iff_example :
    (classify 2 sample (machine machine_u8) (mutable_of (machine machine_i16)) ≡ implicit_safe)
    ↔ Includes unsigned_integer_kind 8 signed_integer_kind 16
unfolding resolve
classify_implicit_iff_example =
    classify_implicit_iff 1 sample (machine machine_u8) (mutable_of (machine machine_i16))
      (fill_builtin (machine machine_u8) false builtin_u8)
      (fill_builtin (machine machine_i16) true builtin_i16) refl refl tt tt

-- A struct with a text, and an alias of it.
abbrev page : TypeDeclaration
page = record {
  name = b'T' ∷ [];
  type_parameters = [];
  body = struct_of (record { name = b'a' ∷ []; slot = string } ∷ []);
}

abbrev page_type : AstType
page_type = named 0 (b'T' ∷ []) no_types

abbrev sheet : TypeDeclaration
sheet = record { name = b'S' ∷ []; type_parameters = []; body = alias_of page_type }

abbrev sheet_type : AstType
sheet_type = named 1 (b'S' ∷ []) no_types

abbrev written : ℕ → Option TypeDeclaration
written zero = some page
written (suc zero) = some sheet
written _ = none

abbrev library : Names
library = record { resolve_named_entry = entry_of; declaration = written }

library_total : (t : AstType) → resolve 3 library t ≢ Resolution.out_of_fuel
unfolding resolve
library_total t = base_total (unwrap_mutable t) (is_mutable_node t)
  where
    base_total :
        (b : AstType) (m : Bool)
        → resolve_base (resolve 2 library) library b m ≢ Resolution.out_of_fuel
    base_total (named zero name arguments) m = λ e. cc
    base_total (named (suc zero) name arguments) m = λ e. cc
    base_total (named (suc (suc address)) name arguments) m = λ e. cc
    base_total _ m = λ e. cc

library-HidesNothing : HidesNothing library
unfolding unwrap_mutable
library-HidesNothing t target (e, d, found, known, is) = by e known
  where
    by : (i : ℕ) → written i ≡ some d → IsLookedInto (unwrap_mutable target)
    by zero k = let bad : body_of (some page) ≡ alias_of target = ap body_of k ∙ is in cc
    by (suc zero) k =
        let same : page_type ≡ target =
          ap (λ (o : Option TypeDeclaration). alias_target (body_of o)) k ∙ ap alias_target is in
        rw (← same) tt
    by (suc (suc i)) k = cc

type_is_owned_iff_example :
    ((type_is_owned 3 library (option sheet_type) ≡ agree)
      ↔ (Owns library (option sheet_type) ⊎ NestedIn library depth_limit (option sheet_type)))
    × Settled (type_is_owned 3 library (option sheet_type))
type_is_owned_iff_example =
    type_is_owned_iff 3 library library_total library-HidesNothing (option sheet_type)

-- The alias in an option owns through the field of the struct, and is found.
sheet-Owns : Owns library (option sheet_type)
sheet-Owns = through_part (option sheet_type) sheet_type option_part (
    through_part sheet_type string
      (alias_part 1 (b'S' ∷ []) no_types page_type (1, sheet, refl, refl, refl)
        (field_part 0 (b'T' ∷ []) no_types (record { name = b'a' ∷ []; slot = string } ∷ [])
          (0, page, refl, refl, refl) (first [])))
      (itself string text_owner))

sheet_found : type_is_owned 3 library (option sheet_type) ≡ agree
sheet_found =
    (type_is_owned_iff 3 library library_total library-HidesNothing (option sheet_type)).0.1
      (inl sheet-Owns)

type_is_owned-alias_of_option_example : type_is_owned 2 sample text_alias ≡ differ
type_is_owned-alias_of_option_example =
    type_is_owned-alias_of_option 0 sample 1 (b'M' ∷ []) no_types 1 maybe_text string refl refl refl
