-- ===== src/Kernel/Types/Widths.antt =====
-- The widths of the integer types that `resolve` gives, and its disregard of mutability.
use sultanc.Prelude.{ℕ, zero, suc, ◌≤◌, ◌<◌, ◌≡◌, refl, arith, Bool, Option, none, some}
use sultanc.Frontend.Ast.{
  MachineType, machine_f32, machine_f64, AstType, missing, machine, integer, unsigned_integer,
  named, mutable_of, DeclarationBody, struct_of, enum_of, alias_of, TypeDeclaration,
}
use sultanc.Kernel.Builtins.{get_descriptor}
use sultanc.Kernel.Names.{Names}
use sultanc.Kernel.Types.{
  Kind, signed_integer_kind, unsigned_integer_kind, kind_from_builtin_class, ResolvedType,
  unwrap_mutable, is_mutable_node, Resolution, unresolved, out_of_fuel, resolved, resolve_declared,
  resolve_known, resolve_entry, resolve_name, resolve_base, resolve,
}

-- An integer type has 1 to 64 bits.
abbrev pub IsSized : Kind → ℕ → Type 0
IsSized signed_integer_kind bits = (0 < bits) × (bits ≤ 64)
IsSized unsigned_integer_kind bits = (0 < bits) × (bits ≤ 64)
IsSized _ bits = Unit {0}

abbrev pub Sized : Resolution → Type 0
Sized unresolved = Unit {0}
Sized out_of_fuel = Unit {0}
Sized (resolved a) = IsSized a.kind a.bits

-- Two resolutions that differ at most in the mutability of the node.
abbrev pub Similar : Resolution → Resolution → Type 0
Similar unresolved y = y ≡ unresolved
Similar out_of_fuel y = y ≡ out_of_fuel
Similar (resolved a) y =
    (b : ResolvedType) × (y ≡ resolved b) × (a.kind ≡ b.kind) × (a.bits ≡ b.bits)

Similar-self : (r : Resolution) → Similar r r
Similar-self unresolved = refl
Similar-self out_of_fuel = refl
Similar-self (resolved a) = (a, refl, refl, refl)

module _ (again : AstType → Resolution) (names : Names)
    (sized : (t : AstType) → Sized (again t)) where
  resolve_known-Sized :
      (base : AstType) (m : Bool) (entry : ℕ) (known : Option TypeDeclaration)
      → Sized (resolve_known again base m entry known)
  unfolding resolve_known
  resolve_known-Sized base m entry none = tt
  resolve_known-Sized base m entry (some d) = declared d.body
    where
      declared : (body : DeclarationBody) → Sized (resolve_declared again base m entry body)
      declared (alias_of target) = sized target
      declared (struct_of fields) = tt
      declared (enum_of constructors) = tt

  resolve_entry-Sized :
      (base : AstType) (m : Bool) (found : Option ℕ)
      → Sized (resolve_entry again names base m found)
  unfolding resolve_entry
  resolve_entry-Sized base m none = tt
  resolve_entry-Sized base m (some entry) =
      resolve_known-Sized base m entry (names.declaration entry)

  resolve_machine-Sized :
      (k : MachineType) (m : Bool) → Sized (resolve_base again names (machine k) m)
  unfolding resolve_base get_descriptor kind_from_builtin_class
  resolve_machine-Sized machine_f32 m = tt
  resolve_machine-Sized machine_f64 m = tt
  resolve_machine-Sized _ m = omega arith

  resolve_base-Sized : (base : AstType) (m : Bool) → Sized (resolve_base again names base m)
  unfolding resolve_base resolve_name get_descriptor kind_from_builtin_class
  resolve_base-Sized (machine k) m = resolve_machine-Sized k m
  resolve_base-Sized integer m = omega arith
  resolve_base-Sized unsigned_integer m = omega arith
  resolve_base-Sized (named address name arguments) m =
      resolve_entry-Sized (named address name arguments) m
        (names.resolve_named_entry (named address name arguments))
  resolve_base-Sized _ m = tt

pub resolve-Sized : (fuel : ℕ) (names : Names) (t : AstType) → Sized (resolve fuel names t)
unfolding resolve
resolve-Sized zero names t = tt
resolve-Sized (suc fuel) names t =
    resolve_base-Sized (resolve fuel names) names (resolve-Sized fuel names) (unwrap_mutable t)
      (is_mutable_node t)

module _ (again : AstType → Resolution) (names : Names) (m m' : Bool) where
  resolve_known-Similar :
      (base : AstType) (entry : ℕ) (known : Option TypeDeclaration)
      → Similar (resolve_known again base m entry known) (resolve_known again base m' entry known)
  unfolding resolve_known
  resolve_known-Similar base entry none = refl
  resolve_known-Similar base entry (some d) = declared d.body
    where
      declared :
          (body : DeclarationBody)
          → Similar
              (resolve_declared again base m entry body)
              (resolve_declared again base m' entry body)
      declared (alias_of target) = Similar-self (again target)
      declared (struct_of fields) = (_, refl, refl, refl)
      declared (enum_of constructors) = (_, refl, refl, refl)

  resolve_entry-Similar :
      (base : AstType) (found : Option ℕ)
      → Similar (resolve_entry again names base m found) (resolve_entry again names base m' found)
  unfolding resolve_entry
  resolve_entry-Similar base none = refl
  resolve_entry-Similar base (some entry) =
      resolve_known-Similar base entry (names.declaration entry)

  resolve_base-Similar :
      (base : AstType)
      → Similar (resolve_base again names base m) (resolve_base again names base m')
  unfolding resolve_base resolve_name
  resolve_base-Similar missing = refl
  resolve_base-Similar (mutable_of t) = refl
  resolve_base-Similar (named address name arguments) =
      resolve_entry-Similar (named address name arguments)
        (names.resolve_named_entry (named address name arguments))
  resolve_base-Similar _ = (_, refl, refl, refl)

unwrap_mutable_twice : (t : AstType) → unwrap_mutable (unwrap_mutable t) ≡ unwrap_mutable t
unfolding unwrap_mutable
unwrap_mutable_twice (mutable_of t) = unwrap_mutable_twice t
unwrap_mutable_twice _ = refl

-- Removing the mutability of a node changes neither the kind nor the width.
pub resolve-unwrap_mutable :
    (fuel : ℕ) (names : Names) (t : AstType)
    → Similar (resolve fuel names t) (resolve fuel names (unwrap_mutable t))
unfolding resolve
resolve-unwrap_mutable zero names t = refl
resolve-unwrap_mutable (suc fuel) names t = rw (unwrap_mutable_twice t) (
    resolve_base-Similar (resolve fuel names) names (is_mutable_node t)
      (is_mutable_node (unwrap_mutable t)) (unwrap_mutable t))
