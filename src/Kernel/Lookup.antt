-- ===== src/Kernel/Lookup.antt =====
-- Lookup of declared names: bootstrap/src/kernel/name/name_lookup.c. The loops that the source writes
-- for each kind of entry are written once.
pub mod Choice
pub mod Imports
pub mod Scopes
use sultanc.Prelude.{
  ℕ, zero, suc, ◌-◌, Bool, true, false, not, ◌&&◌, ◌||◌, Option, none, some, List, [], ◌∷◌, length,
  get_elem?, get_or, ltb, ◌==◌, if◌then◌else◌,
}
use sultanc.Frontend.Identity.{equals}
use sultanc.Kernel.Compatibility.{same_entry}
use sultanc.Kernel.Units.{
  ModuleAlias, ModuleItem, ProgramUnit, empty_unit, DeclaredEntry, UnitNameRange, NameContext,
  unit_at, unit_address, alias_target, find_alias, follow_aliases, resolve_module_alias_name,
  imports_one, unit_imports, unit_range,
}

-- `__Name_Lookup_Status__`, with the entry of a lookup that succeeds.
pub data Lookup : Type 0 where
  lookup_missing lookup_private lookup_ambiguous : Lookup
  lookup_found : ℕ → Lookup

-- `__Name_Function_Entry_Matches__`, and the same test on the other entries.
abbrev pub entry_matches : List DeclaredEntry → ℕ → List ℕ → Bool
entry_matches entries e name = elim (get_elem? entries e) [
  | none ↦ false
  | some entry ↦ equals entry.name name
]

-- The loop over the entries of a unit, with the number of entries that are left.
unfoldable pub scan_range : List DeclaredEntry → List ℕ → ℕ → ℕ → Option ℕ
scan_range entries name zero e = none
scan_range entries name (suc n) e =
    if entry_matches entries e name then some e else scan_range entries name n (suc e)

unfoldable pub find_in_unit :
    (UnitNameRange → ℕ)
    → (UnitNameRange → ℕ)
    → List DeclaredEntry
    → NameContext
    → Option ℕ
    → List ℕ
    → Option ℕ
unfolding resolve_module_alias_name unit_range scan_range
find_in_unit begin end entries c unit name = elim (unit_range c unit) [
  | none ↦ none
  | some range ↦ elim (resolve_module_alias_name c unit name) [
    | none ↦ none
    | some resolved ↦ scan_range entries resolved (end range - begin range) (begin range)
  ]
]

-- `__Name_Find_Type_In_Unit__`
unfoldable pub find_type_in_unit : NameContext → Option ℕ → List ℕ → Option ℕ
unfolding find_in_unit
find_type_in_unit c unit name =
    find_in_unit (λ range. range.type_begin) (λ range. range.type_end) c.types c unit name

-- `__Name_Find_Function_In_Unit__`
unfoldable pub find_function_in_unit : NameContext → Option ℕ → List ℕ → Option ℕ
unfolding find_in_unit
find_function_in_unit c unit name =
    find_in_unit (λ range. range.function_begin) (λ range. range.function_end) c.functions c unit
      name

-- `__Name_Find_Global_In_Unit__`
unfoldable pub find_global_in_unit : NameContext → Option ℕ → List ℕ → Option ℕ
unfolding find_in_unit
find_global_in_unit c unit name =
    find_in_unit (λ range. range.global_begin) (λ range. range.global_end) c.globals c unit name

abbrev pub is_public_entry : List DeclaredEntry → ℕ → Bool
is_public_entry entries e = elim (get_elem? entries e) [
  | none ↦ false
  | some entry ↦ entry.is_public
]

-- What a loop answers at its end.
abbrev pub finish_lookup : Option ℕ → Bool → Lookup
finish_lookup (some e) is_private = lookup_found e
finish_lookup none true = lookup_private
finish_lookup none false = lookup_missing

-- `__Imported_Match__ != NULL && __Imported_Match__ != __Entry__`
abbrev pub is_other_match : Option ℕ → ℕ → Bool
is_other_match none e = false
is_other_match (some match) e = not (match == e)

-- The loop over the imports; `find` looks into the unit with an index.
unfoldable pub scan_imports :
    List DeclaredEntry → (ℕ → Option ℕ) → List ℕ → Option ℕ → Bool → Lookup
scan_imports entries find [] match is_private = finish_lookup match is_private
scan_imports entries find (index ∷ rest) match is_private = elim (find index) [
  | none ↦ scan_imports entries find rest match is_private
  | some e ↦
      if not (is_public_entry entries e)
      then scan_imports entries find rest match true
      else if is_other_match match e
      then lookup_ambiguous
      else scan_imports entries find rest (some e) is_private
]

-- The lookup from a unit that has a range: its own entry first, then those of its imports.
unfoldable pub resolve_scoped :
    List DeclaredEntry
    → (NameContext → Option ℕ → List ℕ → Option ℕ)
    → NameContext
    → ℕ
    → List ℕ
    → Lookup
unfolding scan_imports
resolve_scoped entries find_in c from name = elim (find_in c (some from) name) [
  | some e ↦ lookup_found e
  | none ↦
      scan_imports entries (λ index. find_in c (unit_address c index) name)
        (unit_at c from).imported_unit_indexes none false
]

-- The tests of the loop over all entries on the name of one.
abbrev pub entry_has_name : NameContext → DeclaredEntry → List ℕ → Bool
entry_has_name c entry name = elim (resolve_module_alias_name c entry.unit name) [
  | none ↦ false
  | some resolved ↦ equals entry.name resolved
]

-- `__From_Unit__ == NULL || __Entry__->__Unit__ == __From_Unit__`
abbrev pub is_own_entry : Option ℕ → DeclaredEntry → Bool
is_own_entry none entry = true
is_own_entry (some from) entry = same_entry entry.unit (some from)

-- The loop over all entries, from the one with a position on.
unfoldable pub scan_entries :
    NameContext → Option ℕ → List ℕ → List DeclaredEntry → ℕ → Option ℕ → Bool → Lookup
unfolding resolve_module_alias_name unit_imports
scan_entries c from name [] e match is_private = finish_lookup match is_private
scan_entries c from name (entry ∷ entries) e match is_private =
    if not (entry_has_name c entry name)
    then scan_entries c from name entries (suc e) match is_private
    else if is_own_entry from entry
    then lookup_found e
    else if not (unit_imports c from entry.unit)
    then scan_entries c from name entries (suc e) match is_private
    else if not entry.is_public
    then scan_entries c from name entries (suc e) match true
    else if is_other_match match e
    then lookup_ambiguous
    else scan_entries c from name entries (suc e) (some e) is_private

abbrev pub has_range : NameContext → Option ℕ → Bool
has_range c unit = elim (unit_range c unit) [ none ↦ false | some range ↦ true ]

unfoldable pub resolve_in :
    List DeclaredEntry
    → (NameContext → Option ℕ → List ℕ → Option ℕ)
    → NameContext
    → Option ℕ
    → List ℕ
    → Lookup
unfolding unit_range resolve_scoped scan_entries
resolve_in entries find_in c none name = scan_entries c none name entries 0 none false
resolve_in entries find_in c (some from) name =
    if has_range c (some from)
    then resolve_scoped entries find_in c from name
    else scan_entries c (some from) name entries 0 none false

-- `__Name_Resolve_Type__`
unfoldable pub resolve_type : NameContext → Option ℕ → List ℕ → Lookup
unfolding resolve_in find_type_in_unit
resolve_type c from name = resolve_in c.types find_type_in_unit c from name

-- `__Name_Resolve_Function__`
unfoldable pub resolve_function : NameContext → Option ℕ → List ℕ → Lookup
unfolding resolve_in find_function_in_unit
resolve_function c from name = resolve_in c.functions find_function_in_unit c from name

-- `__Name_Resolve_Global__`: without a range nothing is found.
unfoldable pub resolve_global : NameContext → Option ℕ → List ℕ → Lookup
unfolding unit_range resolve_scoped find_global_in_unit
resolve_global c none name = lookup_missing
resolve_global c (some from) name =
    if not (has_range c (some from))
    then lookup_missing
    else resolve_scoped c.globals find_global_in_unit c from name

abbrev pub found_entry : Lookup → Option ℕ
found_entry (lookup_found e) = some e
found_entry _ = none

-- `__Name_Find_Type__`
unfoldable pub find_type : NameContext → List ℕ → Option ℕ
unfolding resolve_type
find_type c name = found_entry (resolve_type c c.active_unit name)

-- `__Name_Find_Function__`
unfoldable pub find_function : NameContext → List ℕ → Option ℕ
unfolding resolve_function
find_function c name = found_entry (resolve_function c c.active_unit name)

-- The three errors of `__Name_Lookup_Error_Id__`.
pub data LookupError : Type 0 where
  unknown_name private_declaration ambiguous_import : LookupError

-- `__Name_Lookup_Error_Id__`
unfoldable pub lookup_error_id : Lookup → LookupError
lookup_error_id lookup_private = private_declaration
lookup_error_id lookup_ambiguous = ambiguous_import
lookup_error_id lookup_missing = unknown_name
lookup_error_id (lookup_found e) = unknown_name
