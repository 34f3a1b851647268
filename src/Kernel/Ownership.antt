-- ===== src/Kernel/Ownership.antt =====
-- Owned types, views and move-only types: bootstrap/src/kernel/memory/memory.c up to
-- `__Memory_Type_Contains_View__`, and the two predicates at the end of
-- bootstrap/src/kernel/safety/flow.c. The source stops at a depth of 64; `depth` counts the levels that
-- are left, and `rounds` is the fuel of `resolve`.
pub mod Parts
pub mod Exact
pub mod Owning
pub mod Resolving
pub mod Meaning
pub mod Aliases
use sultanc.Prelude.{
  ℕ, zero, suc, Bool, true, false, not, ◌&&◌, ◌||◌, Option, none, some, List, [], ◌∷◌, ◌++◌, ◌==◌,
  if◌then◌else◌,
}
use sultanc.Frontend.Ast.{
  AstType, missing, string, box, option, result, named, reference, vector, EnumConstructor,
  DeclarationBody, struct_of, enum_of, alias_of, TypeDeclaration,
}
use sultanc.Kernel.Names.{Names}
use sultanc.Kernel.Types.{
  Kind, string_kind, box_kind, vector_kind, reference_kind, struct_kind, enum_kind, kind_value,
  ResolvedType, unwrap_mutable, is_mutable_node, Resolution, unresolved, resolved, resolve,
}
use sultanc.Kernel.Compatibility.{Verdict, agree, differ, confused, out_of_fuel, verdict}
use sultanc.Kernel.Layout.{slot_types}

-- `||` on two answers; the second is asked for where the first is 0.
abbrev pub or_else : Verdict → Verdict → Verdict
or_else agree later = agree
or_else differ later = later
or_else confused later = confused
or_else out_of_fuel later = out_of_fuel

-- A loop that returns 1 at the first element for which a call does.
unfoldable pub any_part : (AstType → Verdict) → List AstType → Verdict
any_part again [] = differ
any_part again (t ∷ ts) = or_else (again t) (any_part again ts)

-- The payloads of all constructors, in the order of the two loops.
abbrev pub payload_types : List EnumConstructor → List AstType
payload_types [] = []
payload_types (k ∷ ks) = k.payload_slots ++ payload_types ks

abbrev pub body_parts : DeclarationBody → List AstType
body_parts (struct_of fields) = slot_types fields
body_parts (enum_of constructors) = payload_types constructors
body_parts (alias_of target) = []

abbrev pub declared_parts : Option TypeDeclaration → List AstType
declared_parts none = []
declared_parts (some declaration) = body_parts declaration.body

abbrev pub entry_parts : Names → Option ℕ → List AstType
entry_parts names none = []
entry_parts names (some e) = declared_parts (names.declaration e)

abbrev pub is_resolved_kind : Kind → ResolvedType → Bool
is_resolved_kind k a = kind_value a.kind == kind_value k

-- The types that the loops over a resolved struct or enum visit.
abbrev pub resolved_parts : Names → ResolvedType → List AstType
resolved_parts names a =
    if is_resolved_kind struct_kind a || is_resolved_kind enum_kind a
    then entry_parts names a.named_entry
    else []

-- The two recursive functions differ in what they look for: `node` tests a node and `kind` a resolved
-- type.
module _ (node : AstType → Bool) (kind : ResolvedType → Bool) (rounds : ℕ) (names : Names) where
  unfoldable pub search_resolved : (AstType → Verdict) → Resolution → Verdict
  unfolding any_part
  search_resolved again unresolved = differ
  search_resolved again Resolution.out_of_fuel = out_of_fuel
  search_resolved again (resolved a) =
      if kind a then agree else any_part again (resolved_parts names a)

  unfoldable pub search_base : (AstType → Verdict) → AstType → Verdict
  unfolding search_resolved
  search_base again (option t) = again t
  search_base again (result ok error) = or_else (again ok) (again error)
  search_base again (named address name arguments) =
      search_resolved again (resolve rounds names (named address name arguments))
  search_base again _ = differ

  -- Below the depth of 64 the answer is 1.
  unfoldable pub search_type : ℕ → AstType → Verdict
  unfolding unwrap_mutable search_base
  search_type zero t = agree
  search_type (suc depth) t =
      if node (unwrap_mutable t) then agree else search_base (search_type depth) (unwrap_mutable t)

abbrev pub is_owner_node : AstType → Bool
is_owner_node (box t) = true
is_owner_node (vector t) = true
is_owner_node string = true
is_owner_node _ = false

abbrev pub is_owner_kind : ResolvedType → Bool
is_owner_kind a =
    is_resolved_kind string_kind a
    || (is_resolved_kind box_kind a || is_resolved_kind vector_kind a)

abbrev pub is_reference_node : AstType → Bool
is_reference_node (reference t) = true
is_reference_node _ = false

-- The levels from the depth 0 up to the depth 64.
abbrev pub depth_limit : ℕ
depth_limit = 65

-- `__Memory_Type_Is_Owned_Recursive__`
unfoldable pub owned_recursive : ℕ → Names → ℕ → AstType → Verdict
unfolding search_type
owned_recursive rounds names = search_type is_owner_node is_owner_kind rounds names

-- `__Memory_Type_Is_Owned__`
unfoldable pub type_is_owned : ℕ → Names → AstType → Verdict
unfolding owned_recursive
type_is_owned rounds names t = owned_recursive rounds names depth_limit t

-- `__Memory_Type_Is_View__`
unfoldable pub type_is_view : AstType → Bool
unfolding unwrap_mutable
type_is_view t = is_reference_node (unwrap_mutable t)

-- `__Memory_Type_Contains_View_Recursive__`
unfoldable pub contains_view_recursive : ℕ → Names → ℕ → AstType → Verdict
unfolding search_type
contains_view_recursive rounds names =
    search_type is_reference_node (is_resolved_kind reference_kind) rounds names

-- `__Memory_Type_Contains_View__`
unfoldable pub type_contains_view : ℕ → Names → AstType → Verdict
unfolding contains_view_recursive
type_contains_view rounds names t = contains_view_recursive rounds names depth_limit t

-- A reference node with the mutability of what it refers to.
abbrev pub reference_mutability : AstType → Option Bool
reference_mutability (reference t) = some (is_mutable_node t)
reference_mutability _ = none

-- `__Safety_Type_Is_Reference__`; `none` is the answer 0.
unfoldable pub type_is_reference : AstType → Option Bool
unfolding unwrap_mutable
type_is_reference t = reference_mutability (unwrap_mutable t)

abbrev pub is_mutable_reference : Option Bool → Bool
is_mutable_reference none = false
is_mutable_reference (some m) = m

-- `__Safety_Type_Is_Move_Only__`
unfoldable pub type_is_move_only : ℕ → Names → AstType → Verdict
unfolding type_is_owned type_is_reference type_is_view type_contains_view
type_is_move_only rounds names t = or_else (type_is_owned rounds names t) (
    if is_mutable_reference (type_is_reference t)
    then agree
    else if type_is_view t
    then differ
    else type_contains_view rounds names t)
