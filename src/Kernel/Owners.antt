-- ===== src/Kernel/Owners.antt =====
-- Named types in the unit that wrote them: bootstrap/src/semantic/type_named.c, with the owner facts of
-- bootstrap/include/private/semantic/context.h. Instances of generic types are the parameter
-- `instantiate`, the function `__Semantic_Generic_Resolve_Type_Instance__`.
pub mod Search
use sultanc.Prelude.{
  ℕ, zero, suc, ◌+◌, ◌-◌, ◌/◌, Bool, true, false, Option, none, some, List, [], ◌∷◌, length,
  get_elem?, ltb, ◌==◌, if◌then◌else◌,
}
use sultanc.Frontend.Ast.{AstType, named, TypeDeclaration}
use sultanc.Kernel.Names.{Names}
use sultanc.Kernel.Units.{NameContext}
use sultanc.Kernel.Lookup.{Lookup, lookup_missing, found_entry, resolve_type}

-- `__Semantic_Type_Owner_Fact__`: the address of a node and the unit that wrote it.
pub record TypeOwnerFact : Type 0 where
  pub type_address : ℕ
  pub unit : ℕ

-- What the search answers, or that the fuel was not enough.
pub data OwnerAnswer : Type 0 where
  owner_out_of_fuel : OwnerAnswer
  owner_unit : Option ℕ → OwnerAnswer

-- `__Middle_Key__`, 0 out of range.
abbrev pub key_at : List TypeOwnerFact → ℕ → ℕ
key_at facts i = elim (get_elem? facts i) [ none ↦ 0 | some fact ↦ fact.type_address ]

-- The binary search; `none` where the fuel is not enough.
unfoldable pub lower_bound : ℕ → List TypeOwnerFact → ℕ → ℕ → ℕ → Option ℕ
lower_bound zero facts key low high = none
lower_bound (suc fuel) facts key low high =
    let middle = low + (high - low) / 2 in
    let is_below = ltb (key_at facts middle) key in
    let rest =
      lower_bound fuel facts key (if is_below then suc middle else low)
        (if is_below then high else middle) in
    if ltb low high then rest else some low

-- The loop over all facts.
unfoldable pub scan_owners : List TypeOwnerFact → ℕ → Option ℕ
scan_owners [] key = none
scan_owners (fact ∷ facts) key =
    if fact.type_address == key then some fact.unit else scan_owners facts key

-- The unit of the fact at a position, where it is one of the node.
abbrev pub owner_at : List TypeOwnerFact → ℕ → ℕ → Option ℕ
owner_at facts key i = elim (get_elem? facts i) [
  | none ↦ none
  | some fact ↦ if fact.type_address == key then some fact.unit else none
]

abbrev pub or_scan : Option ℕ → Option ℕ → Option ℕ
or_scan (some u) later = some u
or_scan none later = later

abbrev pub answer_owner : List TypeOwnerFact → ℕ → Option ℕ → OwnerAnswer
answer_owner facts key none = owner_out_of_fuel
answer_owner facts key (some low) =
    owner_unit (or_scan (owner_at facts key low) (scan_owners facts key))

-- `__Semantic_Type_Owner_Unit__`; a round of the search leaves at most half of the facts.
unfoldable pub type_owner_unit : List TypeOwnerFact → ℕ → OwnerAnswer
unfolding lower_bound scan_owners
type_owner_unit facts key =
    answer_owner facts key (lower_bound (suc (length facts)) facts key 0 (length facts))

-- `if (__Owner_Unit__ == NULL) __Owner_Unit__ = __Context__->__Active_Unit__;`
abbrev pub scope_of : NameContext → OwnerAnswer → Option ℕ
scope_of c owner_out_of_fuel = c.active_unit
scope_of c (owner_unit (some u)) = some u
scope_of c (owner_unit none) = c.active_unit

-- The lookup of a named node.
unfoldable pub lookup_named : NameContext → List TypeOwnerFact → AstType → Lookup
unfolding type_owner_unit resolve_type
lookup_named c facts (named address name arguments) =
    resolve_type c (scope_of c (type_owner_unit facts address)) name
lookup_named c facts _ = lookup_missing

-- `__Semantic_Resolve_Named_Entry__`
unfoldable pub resolve_named_entry :
    (ℕ → AstType → Option ℕ) → NameContext → List TypeOwnerFact → AstType → Option ℕ
unfolding lookup_named
resolve_named_entry instantiate c facts t = elim (found_entry (lookup_named c facts t)) [
  | none ↦ none
  | some e ↦ instantiate e t
]

-- The interface of the kernels of types, as the semantic context gives it.
unfoldable pub names_of :
    (ℕ → AstType → Option ℕ)
    → (ℕ → Option TypeDeclaration)
    → NameContext
    → List TypeOwnerFact
    → Names
unfolding resolve_named_entry
names_of instantiate declaration c facts = record {
  resolve_named_entry = resolve_named_entry instantiate c facts;
  declaration = declaration;
}
