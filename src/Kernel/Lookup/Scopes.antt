-- ===== src/Kernel/Lookup/Scopes.antt =====
-- The lookups of types, functions and values in bootstrap/src/kernel/name/name_lookup.c.
use sultanc.Prelude.{
  ℕ, ◌≡◌, refl, sym, ◌∙◌, ◌↔◌, ◌⊎◌, inl, inr, true, false, Option-cases, Option, none, some, List,
}
use sultanc.Kernel.Units.{DeclaredEntry, NameContext, unit_at, unit_address}
use sultanc.Kernel.Lookup.{
  Lookup, lookup_found, has_range, scan_imports, resolve_scoped, resolve_in, resolve_type,
  resolve_function, resolve_global, find_type_in_unit, find_function_in_unit, find_global_in_unit,
}
use sultanc.Kernel.Lookup.Choice.{Chosen}
use sultanc.Kernel.Lookup.Imports.{PublicOffer, HiddenOffer, scan_imports_iff}

-- The entry of the unit itself, or else the choice among its imports.
abbrev pub Resolves :
    List DeclaredEntry
    → (NameContext → Option ℕ → List ℕ → Option ℕ)
    → NameContext
    → ℕ
    → List ℕ
    → Lookup
    → Type 0
Resolves entries find_in c from name r =
    ((e : ℕ) × (find_in c (some from) name ≡ some e) × (r ≡ lookup_found e))
    ⊎ ((find_in c (some from) name ≡ none)
        × Chosen
            (PublicOffer entries (λ i. find_in c (unit_address c i) name)
              (unit_at c from).imported_unit_indexes)
            (HiddenOffer entries (λ i. find_in c (unit_address c i) name)
              (unit_at c from).imported_unit_indexes)
            r)

resolve_scoped_iff :
    (entries : List DeclaredEntry) (find_in : NameContext → Option ℕ → List ℕ → Option ℕ)
    (c : NameContext) (from : ℕ) (name : List ℕ) (r : Lookup)
    → (resolve_scoped entries find_in c from name ≡ r) ↔ Resolves entries find_in c from name r
unfolding resolve_scoped
resolve_scoped_iff entries find_in c from name r =
    elim (Option-cases (find_in c (some from) name)) [
      | inl missed ↦
          let step : resolve_scoped entries find_in c from name
              ≡ scan_imports entries (λ i. find_in c (unit_address c i) name)
                  (unit_at c from).imported_unit_indexes none false =
            rw (missed, resolve_scoped) refl in
          let chosen =
            scan_imports_iff entries (λ i. find_in c (unit_address c i) name)
              (unit_at c from).imported_unit_indexes r in
          (
            λ same. inr (missed, chosen.0 (sym step ∙ same)),
            λ h. elim h [ inl (e, met, same) ↦ cc | inr (again, fits) ↦ step ∙ chosen.1 fits ],
          )
      | inr (e, met) ↦
          let step : resolve_scoped entries find_in c from name ≡ lookup_found e =
            rw (met, resolve_scoped) refl in
          (
            λ same. inl (e, met, sym same ∙ step),
            λ h. elim h [ inl (e', met', same) ↦ cc | inr (missed, fits) ↦ cc ],
          )
    ]

-- From a unit with a range of declarations, a lookup of a type, a function or a value answers r exactly
-- when r is the entry of that name in the unit itself or, where there is none, the choice among the
-- entries of that name in the imported units: the only public one, an ambiguity where two are public,
-- a refusal where there are private ones only, and nothing where there is no entry.
pub resolve_iff :
    (c : NameContext) (from : ℕ) (name : List ℕ) (r : Lookup)
    → has_range c (some from) ≡ true
    → ((resolve_type c (some from) name ≡ r) ↔ Resolves c.types find_type_in_unit c from name r)
      × ((resolve_function c (some from) name ≡ r)
          ↔ Resolves c.functions find_function_in_unit c from name r)
      × ((resolve_global c (some from) name ≡ r)
          ↔ Resolves c.globals find_global_in_unit c from name r)
unfolding resolve_type resolve_function resolve_global resolve_in
resolve_iff c from name r ranged = rw ranged (
  resolve_scoped_iff c.types find_type_in_unit c from name r,
  resolve_scoped_iff c.functions find_function_in_unit c from name r,
  resolve_scoped_iff c.globals find_global_in_unit c from name r,
)
