-- ===== src/Kernel/Units.antt =====
-- The units of a program and the names that they declare: the aliases, the imports and the ranges of
-- bootstrap/src/kernel/name/name_lookup.c, with the fields of bootstrap/include/private/core/program.h
-- and bootstrap/include/private/semantic/context.h that name lookup reads. A unit is known by its
-- position in the program and an entry by its position in its vector; `none` is the null pointer. The
-- three kinds of entries have the same fields here.
pub mod Aliases
use sultanc.Prelude.{
  ℕ, zero, suc, ◌-◌, Bool, true, false, not, ◌&&◌, ◌||◌, Option, none, some, List, [], ◌∷◌, length,
  get_elem?, get_or, ltb, ◌==◌, if◌then◌else◌,
}
use sultanc.Frontend.Identity.{equals}
use sultanc.Kernel.Compatibility.{same_entry}

-- `__Ast_Module_Alias__`
pub record ModuleAlias : Type 0 where
  pub destination_parent : List ℕ
  pub destination_name : List ℕ
  pub target_parent : List ℕ
  pub target_name : List ℕ

-- `__Ast_Module_Item_Kind__`, with the alias of an item of that kind.
pub data ModuleItem : Type 0 where
  function_item type_item inline_item global_item : ModuleItem
  alias_item : ModuleAlias → ModuleItem

-- `__Program_Unit__`
pub record ProgramUnit : Type 0 where
  pub index : ℕ
  pub items : List ModuleItem
  pub imported_unit_indexes : List ℕ

abbrev pub empty_unit : ProgramUnit
empty_unit = record { index = 0; items = []; imported_unit_indexes = [] }

-- `__Semantic_Type_Entry__`, `__Semantic_Function_Entry__` and `__Semantic_Global_Entry__`
pub record DeclaredEntry : Type 0 where
  pub name : List ℕ
  pub unit : Option ℕ
  pub is_public : Bool

-- `__Semantic_Unit_Name_Range__`
pub record UnitNameRange : Type 0 where
  pub unit : ℕ
  pub type_begin : ℕ
  pub type_end : ℕ
  pub function_begin : ℕ
  pub function_end : ℕ
  pub global_begin : ℕ
  pub global_end : ℕ

-- `__Semantic_Context__`
pub record NameContext : Type 0 where
  pub units : List ProgramUnit
  pub types : List DeclaredEntry
  pub functions : List DeclaredEntry
  pub globals : List DeclaredEntry
  pub unit_name_ranges : List UnitNameRange
  pub active_unit : Option ℕ

abbrev pub unit_at : NameContext → ℕ → ProgramUnit
unit_at c u = get_or c.units u empty_unit

-- `__Program_Unit_At_Const__`
abbrev pub unit_address : NameContext → ℕ → Option ℕ
unit_address c index = if ltb index (length c.units) then some index else none

-- What an item makes of a name that is looked for.
abbrev pub alias_target : ModuleItem → List ℕ → Option (List ℕ)
alias_target (alias_item a) name =
    if not (length a.destination_parent == 0)
    then none
    else if not (equals a.destination_name name)
    then none
    else some a.target_name
alias_target _ name = none

-- The inner loop of `__Name_Resolve_Module_Alias_Name__`: the first alias of a name.
unfoldable pub find_alias : List ModuleItem → List ℕ → Option (List ℕ)
find_alias [] name = none
find_alias (item ∷ items) name = elim (alias_target item name) [
  | some target ↦ some target
  | none ↦ find_alias items name
]

-- Its outer loop, on the rounds that are left.
unfoldable pub follow_aliases : ℕ → List ModuleItem → List ℕ → Option (List ℕ)
follow_aliases zero items name = none
follow_aliases (suc rounds) items name = elim (find_alias items name) [
  | none ↦ some name
  | some target ↦ follow_aliases rounds items target
]

-- `__Name_Resolve_Module_Alias_Name__`; `none` is the answer 0.
unfoldable pub resolve_module_alias_name : NameContext → Option ℕ → List ℕ → Option (List ℕ)
unfolding find_alias follow_aliases
resolve_module_alias_name c none name = some name
resolve_module_alias_name c (some u) name =
    follow_aliases (suc (length (unit_at c u).items)) (unit_at c u).items name

abbrev pub imports_one : NameContext → List ℕ → Option ℕ → Bool
imports_one c [] target = false
imports_one c (index ∷ rest) target =
    same_entry (unit_address c index) target || imports_one c rest target

-- `__Name_Unit_Imports__`
unfoldable pub unit_imports : NameContext → Option ℕ → Option ℕ → Bool
unit_imports c none target = false
unit_imports c (some from) none = false
unit_imports c (some from) (some target) =
    imports_one c (unit_at c from).imported_unit_indexes (some target)

-- `__Name_Unit_Range__`
unfoldable pub unit_range : NameContext → Option ℕ → Option UnitNameRange
unit_range c none = none
unit_range c (some u) = elim (get_elem? c.unit_name_ranges (unit_at c u).index) [
  | none ↦ none
  | some range ↦ if range.unit == u then some range else none
]
