-- ===== src/Kernel/Types.antt =====
-- Resolution and compatibility of types: bootstrap/src/kernel/type/type_unwrap.c, type_resolve.c and
-- type_compatibility.c, with the records of bootstrap/include/private/kernel/type/model.h. The source
-- recurs through aliases and inner types with no bound, so both functions take fuel.
pub mod Ranks
pub mod Widths
use sultanc.Prelude.{
  ℕ, zero, suc, ◌+◌, Bool, true, false, not, ◌&&◌, Option, none, some, ◌==◌, if◌then◌else◌,
}
use sultanc.Frontend.Ast.{
  AstType, missing, any, boolean, machine, integer, unsigned_integer, character, string, box,
  option, result, function, named, pointer, reference, vector, mutable_of, void, AstTypes, no_types,
  type_then, DeclarationBody, struct_of, enum_of, alias_of, TypeDeclaration,
}
use sultanc.Kernel.Builtins.{
  BuiltinId, BuiltinClass, class_unknown, class_boolean, class_signed_integer,
  class_unsigned_integer, class_float, class_character, class_string, class_void, get_descriptor,
  builtin_id_from_ast,
}
use sultanc.Kernel.Names.{Names}

-- `__Resolved_Type_Kind__`
pub data Kind : Type 0 where
  unknown_kind boolean_kind signed_integer_kind unsigned_integer_kind float_kind : Kind
  character_kind string_kind pointer_kind reference_kind vector_kind box_kind : Kind
  option_kind result_kind function_kind struct_kind enum_kind void_kind : Kind

-- The value of the enumerator.
abbrev pub kind_value : Kind → ℕ
kind_value unknown_kind = 0
kind_value boolean_kind = 1
kind_value signed_integer_kind = 2
kind_value unsigned_integer_kind = 3
kind_value float_kind = 4
kind_value character_kind = 5
kind_value string_kind = 6
kind_value pointer_kind = 7
kind_value reference_kind = 8
kind_value vector_kind = 9
kind_value box_kind = 10
kind_value option_kind = 11
kind_value result_kind = 12
kind_value function_kind = 13
kind_value struct_kind = 14
kind_value enum_kind = 15
kind_value void_kind = 16

-- `__Resolved_Type__`
pub record ResolvedType : Type 0 where
  pub kind : Kind
  pub builtin : Option BuiltinId
  pub bits : ℕ
  pub ast : AstType
  pub named_entry : Option ℕ
  pub inner : AstType
  pub parameters : AstTypes
  pub output : AstType
  pub is_mutable : Bool
  pub is_reference_mutable : Bool

-- `__Type_Unwrap_Mutable__`
unfoldable pub unwrap_mutable : AstType → AstType
unwrap_mutable (mutable_of t) = unwrap_mutable t
unwrap_mutable t = t

-- `kind == __Ast_Type_Mutable__` on a node that may be null.
abbrev pub is_mutable_node : AstType → Bool
is_mutable_node (mutable_of t) = true
is_mutable_node _ = false

abbrev pub is_missing : AstType → Bool
is_missing missing = true
is_missing _ = false

-- `__Type_Resolved_Kind_From_Builtin_Class__`
unfoldable pub kind_from_builtin_class : BuiltinClass → Kind
kind_from_builtin_class class_unknown = unknown_kind
kind_from_builtin_class class_boolean = boolean_kind
kind_from_builtin_class class_signed_integer = signed_integer_kind
kind_from_builtin_class class_unsigned_integer = unsigned_integer_kind
kind_from_builtin_class class_float = float_kind
kind_from_builtin_class class_character = character_kind
kind_from_builtin_class class_string = string_kind
kind_from_builtin_class class_void = void_kind

-- The record behind its `memset`, with the base and the mutability stored.
abbrev pub blank : AstType → Bool → ResolvedType
blank base is_mutable = record {
  kind = unknown_kind;
  builtin = none;
  bits = 0;
  ast = base;
  named_entry = none;
  inner = missing;
  parameters = no_types;
  output = missing;
  is_mutable = is_mutable;
  is_reference_mutable = false;
}

-- What `__Type_Resolve__` answers: 0, or 1 with the record that it fills.
pub data Resolution : Type 0 where
  unresolved out_of_fuel : Resolution
  resolved : ResolvedType → Resolution

abbrev pub fill_builtin : AstType → Bool → BuiltinId → ResolvedType
fill_builtin base m id =
    let found = get_descriptor id in
    record (blank base m) {
      builtin = some found.id;
      kind = kind_from_builtin_class found.builtin_class;
      bits = found.bits;
    }

-- The end of the named case: an alias is resolved in place of its name.
resolve_declared : (AstType → Resolution) → AstType → Bool → ℕ → DeclarationBody → Resolution
resolve_declared again base m entry (alias_of target) = again target
resolve_declared again base m entry (struct_of fields) =
    resolved (record (blank base m) { named_entry = some entry; kind = struct_kind })
resolve_declared again base m entry (enum_of constructors) =
    resolved (record (blank base m) { named_entry = some entry; kind = enum_kind })

resolve_known : (AstType → Resolution) → AstType → Bool → ℕ → Option TypeDeclaration → Resolution
unfolding resolve_declared
resolve_known again base m entry none = unresolved
resolve_known again base m entry (some declaration) =
    resolve_declared again base m entry declaration.body

resolve_entry : (AstType → Resolution) → Names → AstType → Bool → Option ℕ → Resolution
unfolding resolve_known
resolve_entry again names base m none = unresolved
resolve_entry again names base m (some entry) =
    resolve_known again base m entry (names.declaration entry)

-- The case of a named node.
unfoldable pub resolve_name : (AstType → Resolution) → Names → AstType → Bool → Resolution
unfolding resolve_entry
resolve_name again names base m = resolve_entry again names base m (names.resolve_named_entry base)

-- The `switch` of `__Type_Resolve__` on a base that is no built-in type.
unfoldable pub resolve_shape : (AstType → Resolution) → Names → AstType → Bool → Resolution
unfolding unwrap_mutable resolve_name
resolve_shape again names (pointer t) m =
    resolved (record (blank (pointer t) m) { kind = pointer_kind; inner = t })
resolve_shape again names (reference t) m = resolved (record (blank (reference t) m) {
  kind = reference_kind;
  is_reference_mutable = is_mutable_node t;
  inner = unwrap_mutable t;
})
resolve_shape again names (vector t) m =
    resolved (record (blank (vector t) m) { kind = vector_kind; inner = t })
resolve_shape again names (box t) m =
    resolved (record (blank (box t) m) { kind = box_kind; inner = t })
resolve_shape again names (option t) m =
    resolved (record (blank (option t) m) { kind = option_kind; inner = t })
resolve_shape again names (result ok error) m =
    resolved (record (blank (result ok error) m) { kind = result_kind })
resolve_shape again names (function parameters output) m =
    resolved (record (blank (function parameters output) m) {
      kind = function_kind;
      parameters = parameters;
      output = output;
    })
resolve_shape again names (named address name arguments) m =
    resolve_name again names (named address name arguments) m
resolve_shape again names _ m = unresolved

unfoldable pub resolve_base : (AstType → Resolution) → Names → AstType → Bool → Resolution
unfolding resolve_shape builtin_id_from_ast get_descriptor kind_from_builtin_class
resolve_base again names base m = elim (builtin_id_from_ast base) [
  | some id ↦ resolved (fill_builtin base m id)
  | none ↦ resolve_shape again names base m
]

-- `__Type_Resolve__`; the fuel bounds the aliases that are followed.
unfoldable pub resolve : ℕ → Names → AstType → Resolution
unfolding unwrap_mutable resolve_base
resolve zero names t = out_of_fuel
resolve (suc fuel) names t =
    resolve_base (resolve fuel names) names (unwrap_mutable t) (is_mutable_node t)
