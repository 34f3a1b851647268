-- ===== src/Checks/LookupChecks.antt =====
-- The theorems on the lookup of names at concrete inputs.
use sultanc.Prelude.{ℕ, ◌≡◌, refl, ◌↔◌, inl, inr, Bool, true, false, some, List, [], ◌∷◌}
use sultanc.Prelude.{zero, suc, ap, sym, ◌∙◌, ◌⊎◌, get_elem?, arith}
use sultanc.Frontend.Ast.{named, no_types, enum_of, TypeDeclaration}
use sultanc.Kernel.Constructors.{find_enum_constructor}
use sultanc.Kernel.Owners.{TypeOwnerFact, scan_owners, lookup_named}
use sultanc.Kernel.Owners.Search.{HasOneOwner, lookup_named_iff}
use sultanc.Kernel.Units.{
  ModuleItem, type_item, alias_item, ProgramUnit, DeclaredEntry, UnitNameRange, NameContext,
  unit_at, unit_range, resolve_module_alias_name,
}
use sultanc.Kernel.Units.Aliases.{StandsFor, resolve_module_alias_name_iff}
use sultanc.Kernel.Lookup.{
  lookup_found, find_type_in_unit, find_function_in_unit, find_global_in_unit, resolve_type,
  resolve_function, resolve_global,
}
use sultanc.Kernel.Lookup.Scopes.{Resolves, resolve_iff}

abbrev alias_of_name : List ℕ → List ℕ → ModuleItem
alias_of_name from to = alias_item (record {
  destination_parent = [];
  destination_name = from;
  target_parent = [];
  target_name = to;
})

-- The second unit declares the type P and calls it Q; the first one imports it.
abbrev importer : ProgramUnit
importer = record { index = 0; items = []; imported_unit_indexes = 1 ∷ [] }

abbrev imported : ProgramUnit
imported = record {
  index = 1;
  items = type_item ∷ alias_of_name (b'Q' ∷ []) (b'P' ∷ []) ∷ [];
  imported_unit_indexes = [];
}

abbrev types_of : ℕ → ℕ → ℕ → UnitNameRange
types_of unit begin end = record {
  unit = unit;
  type_begin = begin;
  type_end = end;
  function_begin = 0;
  function_end = 0;
  global_begin = 0;
  global_end = 0;
}

abbrev type_entry : List ℕ → ℕ → Bool → DeclaredEntry
type_entry name unit is_public = record { name = name; unit = some unit; is_public = is_public }

abbrev program : NameContext
program = record {
  units = importer ∷ imported ∷ [];
  types = type_entry (b'A' ∷ []) 0 false ∷ type_entry (b'P' ∷ []) 1 true ∷ [];
  functions = [];
  globals = [];
  unit_name_ranges = types_of 0 0 1 ∷ types_of 1 1 2 ∷ [];
  active_unit = some 0;
}

resolves_by_import : resolve_type program (some 0) (b'Q' ∷ []) ≡ lookup_found 1
unfolding resolve_type sultanc.Frontend.Identity.equals sultanc.Support.Utf8.decode
resolves_by_import = refl

resolve_module_alias_name_iff_example :
    (resolve_module_alias_name program (some 1) (b'Q' ∷ []) ≡ some (b'P' ∷ []))
    ↔ StandsFor (unit_at program 1).items (b'P' ∷ []) (b'Q' ∷ [])
resolve_module_alias_name_iff_example =
    resolve_module_alias_name_iff program 1 (b'Q' ∷ []) (b'P' ∷ [])

resolve_iff_example :
    ((resolve_type program (some 0) (b'Q' ∷ []) ≡ lookup_found 1)
      ↔ Resolves program.types find_type_in_unit program 0 (b'Q' ∷ []) (lookup_found 1))
    × ((resolve_function program (some 0) (b'Q' ∷ []) ≡ lookup_found 1)
        ↔ Resolves program.functions find_function_in_unit program 0 (b'Q' ∷ []) (lookup_found 1))
    × ((resolve_global program (some 0) (b'Q' ∷ []) ≡ lookup_found 1)
        ↔ Resolves program.globals find_global_in_unit program 0 (b'Q' ∷ []) (lookup_found 1))
unfolding unit_range
resolve_iff_example = resolve_iff program 0 (b'Q' ∷ []) (lookup_found 1) refl

-- The constructor K of the enum P, which the unit 1 calls L as well.
abbrev colours : TypeDeclaration
colours = record {
  name = b'P' ∷ [];
  type_parameters = [];
  body = enum_of (
      record { name = b'J' ∷ []; payload_slots = [] }
      ∷ record { name = b'K' ∷ []; payload_slots = [] }
      ∷ []);
}

abbrev constructor_path : ModuleItem
constructor_path = alias_item (record {
  destination_parent = b'P' ∷ [];
  destination_name = b'L' ∷ [];
  target_parent = b'P' ∷ [];
  target_name = b'K' ∷ [];
})

abbrev colour_program : NameContext
colour_program = record program {
  units = importer ∷ record imported { items = type_item ∷ constructor_path ∷ [] } ∷ [];
}

finds_by_alias :
    find_enum_constructor colour_program (type_entry (b'P' ∷ []) 1 true) (some colours) (b'L' ∷ [])
    ≡ some 1
unfolding find_enum_constructor sultanc.Frontend.Identity.equals sultanc.Support.Utf8.decode
finds_by_alias = refl

-- The unit 1 wrote the node 7, the unit 0 the node 9.
abbrev early : TypeOwnerFact
early = record { type_address = 7; unit = 1 }

abbrev late : TypeOwnerFact
late = record { type_address = 9; unit = 0 }

addresses_differ : (early.type_address ≡ late.type_address) → ⊥
addresses_differ e = omega arith

among_facts :
    (i : ℕ) (a : TypeOwnerFact)
    → get_elem? (early ∷ late ∷ []) i ≡ some a
    → (early ≡ a) ⊎ (late ≡ a)
among_facts zero a h = inl cc
among_facts (suc zero) a h = inr cc
among_facts (suc (suc i)) a h = cc

facts-HasOneOwner : HasOneOwner (early ∷ late ∷ [])
facts-HasOneOwner i j a b h k same = elim (among_facts i a h) [
  | inl first ↦ elim (among_facts j b k) [
    | inl again ↦ ap (λ (x : TypeOwnerFact). x.unit) (sym first ∙ again)
    | inr second ↦ absurd (
        addresses_differ (
          ap (λ (x : TypeOwnerFact). x.type_address) first
          ∙ same
          ∙ sym (ap (λ (x : TypeOwnerFact). x.type_address) second)))
  ]
  | inr second ↦ elim (among_facts j b k) [
    | inl first ↦ absurd (
        addresses_differ (
          sym (
            ap (λ (x : TypeOwnerFact). x.type_address) second
            ∙ same
            ∙ sym (ap (λ (x : TypeOwnerFact). x.type_address) first))))
    | inr again ↦ ap (λ (x : TypeOwnerFact). x.unit) (sym second ∙ again)
  ]
]

lookup_named_iff_example :
    (lookup_named program (early ∷ late ∷ []) (named 9 (b'Q' ∷ []) no_types) ≡ lookup_found 1)
    ↔ Resolves program.types find_type_in_unit program 0 (b'Q' ∷ []) (lookup_found 1)
unfolding unit_range scan_owners
lookup_named_iff_example =
    lookup_named_iff program (early ∷ late ∷ []) 9 0 (b'Q' ∷ []) no_types (lookup_found 1)
      facts-HasOneOwner refl refl
