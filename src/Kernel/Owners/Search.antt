-- ===== src/Kernel/Owners/Search.antt =====
-- The search for the owner of a node in bootstrap/src/semantic/type_named.c.
use sultanc.Prelude.{
  ℕ, zero, suc, ◌+◌, ◌-◌, ◌/◌, ◌<◌, ◌≡◌, refl, sym, ap, ◌∙◌, ◌↔◌, inl, inr, arith, true, Bool-cases,
  Option-cases, some, List, [], ◌∷◌, length, get_elem?, ltb, ◌==◌,
}
use sultanc.Frontend.Ast.{named, AstTypes}
use sultanc.Kernel.Units.{NameContext}
use sultanc.Kernel.Lookup.{Lookup, has_range, find_type_in_unit}
use sultanc.Kernel.Lookup.Scopes.{Resolves, resolve_iff}
use sultanc.Kernel.Owners.{
  TypeOwnerFact, owner_unit, key_at, lower_bound, scan_owners, owner_at, or_scan, type_owner_unit,
  lookup_named,
}

-- Two facts of one node name the same unit.
abbrev pub HasOneOwner : List TypeOwnerFact → Type 0
HasOneOwner facts =
    (i j : ℕ) (a b : TypeOwnerFact)
    → get_elem? facts i ≡ some a
    → get_elem? facts j ≡ some b
    → a.type_address ≡ b.type_address
    → a.unit ≡ b.unit

lower_bound_ends :
    (fuel : ℕ) (facts : List TypeOwnerFact) (key low high : ℕ)
    → high - low < fuel
    → (i : ℕ) × (lower_bound fuel facts key low high ≡ some i)
unfolding lower_bound
lower_bound_ends zero facts key low high h = elim h [ ]
lower_bound_ends (suc fuel) facts key low high h = elim (Bool-cases (ltb low high)) [
  | inr done ↦ (low, rw done refl)
  | inl below ↦ elim (Bool-cases (ltb (key_at facts (low + (high - low) / 2)) key)) [
    | inl upper ↦
        let (i, e) =
          lower_bound_ends fuel facts key (suc (low + (high - low) / 2)) high (ground arith) in
        (i, rw (below, upper) e)
    | inr lower ↦
        let (i, e) = lower_bound_ends fuel facts key low (low + (high - low) / 2) (ground arith) in
        (i, rw (below, lower) e)
  ]
]

-- A fact of the node is what the loop finds, up to its position.
scan_owners-some :
    (facts : List TypeOwnerFact) (key i : ℕ) (fact : TypeOwnerFact)
    → get_elem? facts i ≡ some fact
    → fact.type_address ≡ key
    → (j : ℕ) × (b : TypeOwnerFact) × (get_elem? facts j ≡ some b)
      × (b.type_address ≡ key)
      × (scan_owners facts key ≡ some b.unit)
unfolding scan_owners
scan_owners-some [] key i fact h same = cc
scan_owners-some (a ∷ facts) key zero fact h same =
    let meet : a ≡ fact = cc in
    let address : a.type_address ≡ key = ap (λ (x : TypeOwnerFact). x.type_address) meet ∙ same in
    let now : (a.type_address == key) ≡ true = ground arith in (0, a, refl, address, rw now refl)
scan_owners-some (a ∷ facts) key (suc i) fact h same = elim (Bool-cases (a.type_address == key)) [
  | inl now ↦ (0, a, refl, ground arith, rw now refl)
  | inr later ↦
      let (j, b, there, address, scanned) = scan_owners-some facts key i fact h same in
      (suc j, b, there, address, rw later scanned)
]

owner_at_scan :
    (facts : List TypeOwnerFact) (key i : ℕ)
    → HasOneOwner facts
    → or_scan (owner_at facts key i) (scan_owners facts key) ≡ scan_owners facts key
owner_at_scan facts key i one = elim (Option-cases (get_elem? facts i)) [
  | inl missed ↦ rw (missed, or_scan, owner_at) refl
  | inr (fact, met) ↦ elim (Bool-cases (fact.type_address == key)) [
    | inr other ↦ rw (met, other, or_scan, owner_at) refl
    | inl same ↦
        let equal : fact.type_address ≡ key = ground arith in
        let (j, b, there, address, scanned) = scan_owners-some facts key i fact met equal in
        let unit : fact.unit ≡ b.unit = one i j fact b met there (equal ∙ sym address) in
        rw (met, same, scanned, or_scan, owner_at) (ap some unit)
  ]
]

-- Where the facts of one node agree, the search with its two stages answers what the loop over all
-- facts does, whatever the order of the facts.
pub type_owner_unit-scan_owners :
    (facts : List TypeOwnerFact) (key : ℕ)
    → HasOneOwner facts
    → type_owner_unit facts key ≡ owner_unit (scan_owners facts key)
unfolding type_owner_unit
type_owner_unit-scan_owners facts key one =
    let (i, e) = lower_bound_ends (suc (length facts)) facts key 0 (length facts) (omega arith) in
    rw e (ap owner_unit (owner_at_scan facts key i one))

-- A named node is looked up in the unit that wrote it: where that unit has a range of declarations, the
-- answer is the one that its own names and its imports give.
pub lookup_named_iff :
    (c : NameContext) (facts : List TypeOwnerFact) (address u : ℕ) (name : List ℕ)
    (arguments : AstTypes) (r : Lookup)
    → HasOneOwner facts
    → scan_owners facts address ≡ some u
    → has_range c (some u) ≡ true
    → (lookup_named c facts (named address name arguments) ≡ r)
      ↔ Resolves c.types find_type_in_unit c u name r
unfolding lookup_named
lookup_named_iff c facts address u name arguments r one owner ranged =
    rw (type_owner_unit-scan_owners facts address one, owner) (resolve_iff c u name r ranged).0
