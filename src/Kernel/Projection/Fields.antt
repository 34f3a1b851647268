-- ===== src/Kernel/Projection/Fields.antt =====
-- The fields of a struct lie in the struct, aligned, and do not overlap.
use mathlib.Core.Path.{subst}
use sultanc.Prelude.{
  ℕ, suc, ◌+◌, ◌%◌, ◌^◌, ◌≤◌, ◌≡◌, ◌≢◌, refl, sym, ap, ◌∙◌, arith, Bool-cases, inl, inr, ◌⊎◌,
  Option, some, List, [], ◌∷◌, wrap64, if◌then◌else◌,
}
use sultanc.Support.Alignment.{align_up}
use sultanc.Support.TextEquality.{text_slice_equals, text_slice_equals_iff}
use sultanc.Frontend.Ast.{AstType, StructField, struct_of, TypeDeclaration, DeclarationBody}
use sultanc.Kernel.Names.{Names}
use sultanc.Kernel.Layout.{ready, LayoutContext, entry_at, larger, slot_types, layout_type}
use sultanc.Kernel.Layout.Shapes.{IsShaped, Shaped, layout_type-IsLaid}
use sultanc.Kernel.Layout.Sizes.{IsAlignment, IsLaid, larger-IsAlignment}
use sultanc.Kernel.Layout.Known.{known, known_slots, known_body}
use sultanc.Kernel.Layout.Refinement.{IsConsistent}
use sultanc.Kernel.Projection.{
  Projection, projected, Place, find_field, field_of_body, field_of_declaration,
  layout_struct_field,
}
use sultanc.Kernel.Projection.Memo.{>>>-some, layout_type-known}
use sultanc.Kernel.Projection.Rooms.{align_up_within, room, projected-injective, Apart, Apart-symm}

module _ (names : Names) (len : ℕ) (c : LayoutContext) (consistent : IsConsistent names len c)
    (shaped : IsShaped c) (fuel : ℕ) where
  known-IsLaid : (t : AstType) (s a : ℕ) → known names c t ≡ some (s, a) → IsLaid s a
  known-IsLaid t s a k =
      (subst (Shaped IsLaid) (layout_type-known names len c consistent fuel t s a k)
        (layout_type-IsLaid (suc fuel) names c t shaped)).1

  -- A field is found at a multiple of its alignment, behind `offset` and before `total`.
  abbrev Lies : ℕ → ℕ → Place → Type 0
  Lies offset total p =
      (s : ℕ) × (a : ℕ) × (known names c p.place_type ≡ some (s, a))
      × (p.offset % a ≡ 0)
      × (offset ≤ p.offset)
      × (p.offset + s ≤ total)

  -- The first of several slots: where it starts, and what is left for the others.
  abbrev FirstSlot : AstType → List AstType → ℕ → ℕ → ℕ → ℕ → Type 0
  FirstSlot t ts offset al total al' =
      (s : ℕ) × (a : ℕ) × (known names c t ≡ some (s, a))
      × (offset ≤ align_up offset a)
      × (align_up offset a % a ≡ 0)
      × (wrap64 (align_up offset a + s) ≡ align_up offset a + s)
      × (known_slots names c ts (align_up offset a + s) (larger a al) ≡ some (total, al'))
      × (align_up offset a + s + room names c ts ≤ offset + room names c (t ∷ ts))

  first_slot :
      (t : AstType) (ts : List AstType) (offset al total al' : ℕ)
      → known_slots names c (t ∷ ts) offset al ≡ some (total, al')
      → offset + room names c (t ∷ ts) ≤ 2 ^ 64
      → FirstSlot t ts offset al total al'
  unfolding known_slots room
  first_slot t ts offset al total al' k fits =
      let (s, a, e, f) = >>>-some (known names c t) _ (total, al') k in
      let (below, above, multiple) =
        align_up_within offset a (known-IsLaid t s a e).0 (omega arith) in
      let fits' : offset + (s + 8 + room names c ts) ≤ 2 ^ 64 = rw e at fits in
      let next : wrap64 (align_up offset a + s) ≡ align_up offset a + s = omega arith in
      (s, a, e, below, multiple, next, rw next at f, rw e (omega arith))

  known_slots-grows :
      (ts : List AstType) (offset al total al' : ℕ)
      → known_slots names c ts offset al ≡ some (total, al')
      → offset + room names c ts ≤ 2 ^ 64
      → (offset ≤ total) × (total + 8 ≤ offset + room names c ts)
  unfolding known_slots room
  known_slots-grows [] offset al total al' k fits = ground arith
  known_slots-grows (t ∷ ts) offset al total al' k fits =
      let (s, a, e, below, multiple, next, f, fewer) = first_slot t ts offset al total al' k fits in
      let (low, high) =
        known_slots-grows ts (align_up offset a + s) (larger a al) total al' f (omega arith) in
      (omega arith, omega arith)

  known_slots-IsAlignment :
      (ts : List AstType) (offset al total al' : ℕ)
      → known_slots names c ts offset al ≡ some (total, al')
      → IsAlignment al
      → IsAlignment al'
  unfolding known_slots
  known_slots-IsAlignment [] offset al total al' k h =
      let e : al ≡ al' = cc in subst IsAlignment e h
  known_slots-IsAlignment (t ∷ ts) offset al total al' k h =
      let (s, a, e, f) = >>>-some (known names c t) _ (total, al') k in
      known_slots-IsAlignment ts (wrap64 (align_up offset a + s)) (larger a al) total al' f
        (larger-IsAlignment a al (known-IsLaid t s a e).0 h)

  -- One round of the search.
  find_first :
      (field : StructField) (fields : List StructField) (name : List ℕ) (offset s a : ℕ)
      → known names c field.slot ≡ some (s, a)
      → wrap64 (align_up offset a + s) ≡ align_up offset a + s
      → find_field (layout_type (suc fuel) names) c (field ∷ fields) name offset ≡ (
          if text_slice_equals field.name name
          then (c, projected (record { offset = align_up offset a; place_type = field.slot }))
          else find_field (layout_type (suc fuel) names) c fields name (align_up offset a + s))
  unfolding find_field
  find_first field fields name offset s a k next =
      rw (layout_type-known names len c consistent fuel field.slot s a k, next)

  abbrev search_from : List StructField → List ℕ → ℕ → Projection Place
  search_from fields name offset =
      (find_field (layout_type (suc fuel) names) c fields name offset).1

  -- A search ends at the first field, or goes on behind it.
  search_cases :
      (field : StructField) (fields : List StructField) (name : List ℕ) (offset s a : ℕ) (p : Place)
      → known names c field.slot ≡ some (s, a)
      → wrap64 (align_up offset a + s) ≡ align_up offset a + s
      → search_from (field ∷ fields) name offset ≡ projected p
      → ((field.name ≡ name) × (p.offset ≡ align_up offset a) × (p.place_type ≡ field.slot))
        ⊎ (search_from fields name (align_up offset a + s) ≡ projected p)
  search_cases field fields name offset s a p k next found =
      let whole = find_first field fields name offset s a k next in
      let found' = ap (λ (x : LayoutContext × Projection Place). x.1) (sym whole) ∙ found in
      elim (Bool-cases (text_slice_equals field.name name)) [
        | inl same ↦
            let e = projected-injective (rw same at found') in
            inl (
              (text_slice_equals_iff field.name name).0 same,
              ap (λ (x : Place). x.offset) (sym e),
              ap (λ (x : Place). x.place_type) (sym e),
            )
        | inr other ↦ inr (rw other at found')
      ]

  found-Lies :
      (fields : List StructField) (name : List ℕ) (offset al total al' : ℕ) (p : Place)
      → known_slots names c (slot_types fields) offset al ≡ some (total, al')
      → offset + room names c (slot_types fields) ≤ 2 ^ 64
      → search_from fields name offset ≡ projected p
      → Lies offset total p
  unfolding find_field
  found-Lies [] name offset al total al' p k fits found = cc
  found-Lies (field ∷ fields) name offset al total al' p k fits found =
      let (s, a, e, below, multiple, next, f, fewer) =
        first_slot field.slot (slot_types fields) offset al total al' k fits in
      let (low, high) =
        known_slots-grows (slot_types fields) (align_up offset a + s) (larger a al) total al' f
          (omega arith) in
      elim (search_cases field fields name offset s a p e next found) [
        | inl (same, place, type) ↦ (s, a, rw type e, rw place multiple, omega arith, omega arith)
        | inr later ↦
            let (s', a', e', m', low', high') =
              found-Lies fields name (align_up offset a + s) (larger a al) total al' p f
                (omega arith) later in
            (s', a', e', m', omega arith, high')
      ]

  -- A field at the head ends before a field behind it begins.
  head-Apart :
      (field : StructField) (offset s a total : ℕ) (p q : Place)
      → known names c field.slot ≡ some (s, a)
      → p.offset ≡ align_up offset a
      → p.place_type ≡ field.slot
      → Lies (align_up offset a + s) total q
      → Apart names c p q
  head-Apart field offset s a total p q e place type (t, b, f, multiple, low, high) =
      (s, a, t, b, rw type e, f, inl (omega arith))

  found-Apart :
      (fields : List StructField) (name other : List ℕ) (offset al total al' : ℕ) (p q : Place)
      → name ≢ other
      → known_slots names c (slot_types fields) offset al ≡ some (total, al')
      → offset + room names c (slot_types fields) ≤ 2 ^ 64
      → search_from fields name offset ≡ projected p
      → search_from fields other offset ≡ projected q
      → Apart names c p q
  unfolding find_field
  found-Apart [] name other offset al total al' p q ne k fits found found' = cc
  found-Apart (field ∷ fields) name other offset al total al' p q ne k fits found found' =
      let (s, a, e, below, multiple, next, f, fewer) =
        first_slot field.slot (slot_types fields) offset al total al' k fits in
      let behind = λ (n : List ℕ) (x : Place).
        found-Lies fields n (align_up offset a + s) (larger a al) total al' x f (omega arith) in
      elim (search_cases field fields name offset s a p e next found) [
        | inl (same, place, type) ↦
            elim (search_cases field fields other offset s a q e next found') [
              | inl (same', place', type') ↦ absurd (ne (sym same ∙ same'))
              | inr later ↦
                  head-Apart field offset s a total p q e place type (behind other q later)
            ]
        | inr later ↦ elim (search_cases field fields other offset s a q e next found') [
          | inl (same', place', type') ↦
              Apart-symm names c q p
                (head-Apart field offset s a total q p e place' type' (behind name p later))
          | inr later' ↦
              found-Apart fields name other (align_up offset a + s) (larger a al) total al' p q ne f
                (omega arith) later later'
        ]
      ]

-- Where a struct has a layout, a field that is found starts at a multiple of its alignment and ends
-- within the size of the struct, and two fields with different names do not overlap, as long as the
-- fields with eight bytes of padding each take less than 2^64 bytes.
pub layout_struct_field-Apart :
    (names : Names) (len : ℕ) (c : LayoutContext) (consistent : IsConsistent names len c)
    (shaped : IsShaped c) (fuel e : ℕ) (d : TypeDeclaration) (fields : List StructField)
    (name other : List ℕ) (p q : Place)
    → names.declaration e ≡ some d
    → d.body ≡ struct_of fields
    → (entry_at c e).state ≡ ready
    → room names c (slot_types fields) + 8 ≤ 2 ^ 64
    → name ≢ other
    → (layout_struct_field (suc fuel) names c e name).1 ≡ projected p
    → (layout_struct_field (suc fuel) names c e other).1 ≡ projected q
    → Apart names c p q
      × ((s : ℕ) × (a : ℕ) × (known names c p.place_type ≡ some (s, a))
          × (p.offset % a ≡ 0)
          × (p.offset + s ≤ (entry_at c e).size))
unfolding layout_struct_field known_body
layout_struct_field-Apart names len c consistent shaped fuel e d fields name other p q declared
      struct is_ready fits ne found found' =
    let (d', declared', size) = consistent.1 e is_ready in
    let same : d' ≡ d = cc in
    let body : d'.body ≡ struct_of fields = ap (λ (x : TypeDeclaration). x.body) same ∙ struct in
    let (total, al, k, s) =
      >>>-some (known_slots names c (slot_types fields) 0 1) _ _ (rw body at size) in
    let whole : align_up total al ≡ (entry_at c e).size = cc in
    let fields_of =
      λ (n : List ℕ) (x : Place) (h : (layout_struct_field (suc fuel) names c e n).1 ≡ projected x).
        ap (λ (y : DeclarationBody). (field_of_body (layout_type (suc fuel) names) c y n).1)
          (sym struct)
        ∙ ap
            (λ (y : Option TypeDeclaration).
              (field_of_declaration (layout_type (suc fuel) names) c y n).1)
            (sym declared)
        ∙ h in
    let (s, a, f, multiple, low, high) =
      found-Lies names len c consistent shaped fuel fields name 0 1 total al p k (omega arith)
        (fields_of name p found) in
    let (low', high') =
      known_slots-grows names len c consistent shaped fuel (slot_types fields) 0 1 total al k
        (omega arith) in
    let aligned =
      known_slots-IsAlignment names len c consistent shaped fuel (slot_types fields) 0 1 total al k
        (0, omega arith, refl) in
    let (rounds, _, _) = align_up_within total al aligned (omega arith) in
    (
      found-Apart names len c consistent shaped fuel fields name other 0 1 total al p q ne k
          (omega arith) (fields_of name p found) (fields_of other q found'),
      (s, a, f, multiple, omega arith),
    )
