-- ===== src/Kernel/Projection/Memo.antt =====
-- A layout that the entries know is answered again with no visit.
use sultanc.Prelude.{ℕ, suc, ◌+◌, ◌≡◌, refl, ap, Option, none, some, List, [], ◌∷◌, wrap64}
use sultanc.Support.Alignment.{align_up}
use sultanc.Frontend.Ast.{
  AstType, missing, option, result, named, mutable_of, EnumConstructor, TypeDeclaration,
}
use sultanc.Kernel.Names.{Names}
use sultanc.Kernel.Layout.{
  LayoutState, unknown, visiting, ready, LayoutContext, LayoutAnswer, laid_out, LayoutStep,
  entry_at, larger, tagged_size, layout_name, layout_node, layout_slots, layout_constructors,
  layout_visit, layout_entry, layout_named_entry, layout_type,
}
use sultanc.Kernel.Layout.Known.{
  SizeAndAlignment, ◌>>>◌, known_entry, known_name, known, known_slots, known_constructors,
}
use sultanc.Kernel.Layout.Refinement.{IsConsistent}

-- What a chain that is known was made of.
pub >>>-some :
    (x : Option SizeAndAlignment) (k : ℕ → ℕ → Option SizeAndAlignment) (p : SizeAndAlignment)
    → (x >>> k) ≡ some p
    → (s : ℕ) × (a : ℕ) × (x ≡ some (s, a)) × (k s a ≡ some p)
>>>-some none k p h = cc
>>>-some (some (s, a)) k p h = (s, a, refl, h)

laid : SizeAndAlignment → LayoutAnswer
laid (s, a) = laid_out s a

some-laid : (p q : SizeAndAlignment) → some p ≡ some q → laid p ≡ laid q
some-laid p q e = cc

module _ (names : Names) (len : ℕ) (c : LayoutContext) (h : IsConsistent names len c) where
  module _ (node : LayoutContext → AstType → LayoutStep) (e : ℕ) where
    layout_visit_ready :
        (d : TypeDeclaration) (state : LayoutState) (s a : ℕ)
        → known_entry (entry_at c e) state ≡ some (s, a)
        → layout_visit node c e d.body (entry_at c e) state ≡ (c, laid_out s a)
    unfolding layout_visit
    layout_visit_ready d unknown s a k = cc
    layout_visit_ready d visiting s a k = cc
    layout_visit_ready d ready s a k = cc

    ready_of_known :
        (state : LayoutState) (s a : ℕ)
        → known_entry (entry_at c e) state ≡ some (s, a)
        → state ≡ ready
    ready_of_known unknown s a k = cc
    ready_of_known visiting s a k = cc
    ready_of_known ready s a k = refl

    layout_entry_ready :
        (s a : ℕ)
        → known_name c (some e) ≡ some (s, a)
        → layout_entry node c e (names.declaration e) ≡ (c, laid_out s a)
    unfolding layout_entry
    layout_entry_ready s a k =
        let (d, declared, size) = h.1 e (ready_of_known (entry_at c e).state s a k) in
        rw declared (layout_visit_ready d (entry_at c e).state s a k)

  pub layout_named_entry_known :
      (fuel e s a : ℕ)
      → known_name c (some e) ≡ some (s, a)
      → layout_named_entry (suc fuel) names c e ≡ (c, laid_out s a)
  unfolding layout_named_entry
  layout_named_entry_known fuel e s a k =
      layout_entry_ready (layout_node (layout_named_entry fuel names) names) e s a k

  layout_name_known :
      (fuel : ℕ) (found : Option ℕ) (s a : ℕ)
      → known_name c found ≡ some (s, a)
      → layout_name (layout_named_entry (suc fuel) names) c found ≡ (c, laid_out s a)
  unfolding layout_name
  layout_name_known fuel none s a k = cc
  layout_name_known fuel (some e) s a k = layout_named_entry_known fuel e s a k

  pub layout_type-known :
      (fuel : ℕ) (t : AstType) (s a : ℕ)
      → known names c t ≡ some (s, a)
      → layout_type (suc fuel) names c t ≡ (c, laid_out s a)
  unfolding layout_type layout_node known laid
  layout_type-known fuel missing s a k = cc
  layout_type-known fuel (option t) s a k =
      let (s', a', e, f) = >>>-some (known names c t) _ (s, a) k in
      rw (layout_type-known fuel t s' a' e) (
        ap (λ (x : LayoutAnswer). (c, x))
          (some-laid (tagged_size (larger s' 0) (larger a' 1), larger (larger a' 1) 8) (s, a) f))
  layout_type-known fuel (result ok error) s a k =
      let (s', a', e, f) = >>>-some (known names c ok) _ (s, a) k in
      let (s'', a'', e', f') = >>>-some (known names c error) _ (s, a) f in
      rw (layout_type-known fuel ok s' a' e) (
        rw (layout_type-known fuel error s'' a'' e') (
          ap (λ (x : LayoutAnswer). (c, x))
            (some-laid
              (
                tagged_size (larger s'' (larger s' 0)) (larger a'' (larger a' 1)),
                larger (larger a'' (larger a' 1)) 8,
              )
              (s, a) f')))
  layout_type-known fuel (named address name arguments) s a k =
      layout_name_known fuel (names.resolve_named_entry (named address name arguments)) s a k
  layout_type-known fuel (mutable_of t) s a k = layout_type-known fuel t s a k
  layout_type-known fuel _ s a k = cc

  pub layout_slots_known :
      (fuel : ℕ) (ts : List AstType) (size alignment s a : ℕ)
      → known_slots names c ts size alignment ≡ some (s, a)
      → layout_slots (layout_type (suc fuel) names) c ts size alignment ≡ (c, laid_out s a)
  unfolding layout_slots known_slots
  layout_slots_known fuel [] size alignment s a k = cc
  layout_slots_known fuel (t ∷ ts) size alignment s a k =
      let (s', a', e, f) = >>>-some (known names c t) _ (s, a) k in
      rw (layout_type-known fuel t s' a' e)
        (layout_slots_known fuel ts (wrap64 (align_up size a' + s')) (larger a' alignment) s a f)

  pub layout_constructors_known :
      (fuel : ℕ) (ks : List EnumConstructor) (size alignment s a : ℕ)
      → known_constructors names c ks size alignment ≡ some (s, a)
      → layout_constructors (layout_type (suc fuel) names) c ks size alignment ≡ (c, laid_out s a)
  unfolding layout_constructors known_constructors
  layout_constructors_known fuel [] size alignment s a k = cc
  layout_constructors_known fuel (x ∷ ks) size alignment s a k =
      let (s', a', e, f) = >>>-some (known_slots names c x.payload_slots 0 1) _ (s, a) k in
      rw (layout_slots_known fuel x.payload_slots 0 1 s' a' e) (
        layout_constructors_known fuel ks (larger (align_up s' a') size) (larger a' alignment) s a
          f)
