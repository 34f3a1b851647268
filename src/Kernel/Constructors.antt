-- ===== src/Kernel/Constructors.antt =====
-- Constructors of enums by name: bootstrap/src/kernel/name/enum_constructor.c. A type entry is its
-- name and unit, with its declaration beside it; a constructor is its position in the enum.
use sultanc.Prelude.{
  ℕ, zero, suc, Bool, false, not, ◌||◌, Option, none, some, List, [], ◌∷◌, length, ◌==◌,
  if◌then◌else◌,
}
use sultanc.Frontend.Ast.{EnumConstructor, struct_of, enum_of, alias_of, TypeDeclaration}
use sultanc.Frontend.Identity.{equals}
use sultanc.Kernel.Units.{
  ModuleItem, alias_item, DeclaredEntry, NameContext, unit_at, resolve_module_alias_name,
}

-- The loop of `__Name_Find_Direct_Enum_Constructor__`, from a position on.
unfoldable pub scan_constructors : List EnumConstructor → List ℕ → ℕ → Option ℕ
scan_constructors [] name index = none
scan_constructors (k ∷ ks) name index =
    if equals k.name name then some index else scan_constructors ks name (suc index)

-- `__Name_Find_Direct_Enum_Constructor__`
unfoldable pub find_direct_constructor : Option TypeDeclaration → List ℕ → Option ℕ
unfolding scan_constructors
find_direct_constructor none name = none
find_direct_constructor (some declaration) name = elim declaration.body [
  | enum_of constructors ↦ scan_constructors constructors name 0
  | struct_of fields ↦ none
  | alias_of target ↦ none
]

-- What an alias says of a constructor: nothing, that the search fails, or another name.
pub data ConstructorAlias : Type 0 where
  no_constructor_alias foreign_alias : ConstructorAlias
  renamed : List ℕ → ConstructorAlias

-- Whether the parent of an alias path is the type.
abbrev pub is_type_parent : NameContext → ℕ → List ℕ → List ℕ → Bool
is_type_parent c u type_name parent = elim (resolve_module_alias_name c (some u) parent) [
  | none ↦ false
  | some resolved ↦ equals resolved type_name
]

abbrev pub constructor_alias : NameContext → ℕ → List ℕ → ModuleItem → List ℕ → ConstructorAlias
constructor_alias c u type_name (alias_item a) name =
    if length a.destination_parent == 0 || not (equals a.destination_name name)
    then no_constructor_alias
    else if not (is_type_parent c u type_name a.destination_parent)
    then no_constructor_alias
    else if not (is_type_parent c u type_name a.target_parent)
    then foreign_alias
    else renamed a.target_name
constructor_alias c u type_name _ name = no_constructor_alias

-- The inner loop of `__Name_Find_Enum_Constructor__`.
unfoldable pub find_constructor_alias :
    NameContext → ℕ → List ℕ → List ModuleItem → List ℕ → ConstructorAlias
unfolding resolve_module_alias_name
find_constructor_alias c u type_name [] name = no_constructor_alias
find_constructor_alias c u type_name (item ∷ items) name =
    elim (constructor_alias c u type_name item name) [
      | no_constructor_alias ↦ find_constructor_alias c u type_name items name
      | foreign_alias ↦ foreign_alias
      | renamed target ↦ renamed target
    ]

-- Its outer loop, on the rounds that are left.
unfoldable pub follow_constructor :
    ℕ → NameContext → ℕ → List ℕ → Option TypeDeclaration → List ℕ → Option ℕ
unfolding find_direct_constructor find_constructor_alias
follow_constructor zero c u type_name declaration name = none
follow_constructor (suc rounds) c u type_name declaration name =
    elim (find_direct_constructor declaration name) [
      | some index ↦ some index
      | none ↦ elim (find_constructor_alias c u type_name (unit_at c u).items name) [
        | no_constructor_alias ↦ none
        | foreign_alias ↦ none
        | renamed target ↦ follow_constructor rounds c u type_name declaration target
      ]
    ]

-- `__Name_Find_Enum_Constructor__`
unfoldable pub find_enum_constructor :
    NameContext → DeclaredEntry → Option TypeDeclaration → List ℕ → Option ℕ
unfolding find_direct_constructor follow_constructor
find_enum_constructor c entry declaration name = elim entry.unit [
  | none ↦ find_direct_constructor declaration name
  | some u ↦ follow_constructor (suc (length (unit_at c u).items)) c u entry.name declaration name
]
