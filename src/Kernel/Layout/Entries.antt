-- ===== src/Kernel/Layout/Entries.antt =====
-- The visit of an entry stores the layout of its declaration.
use sultanc.Prelude.{
  ℕ, zero, suc, ◌<◌, ◌≡◌, ◌≢◌, refl, sym, ap, ◌∙◌, arith, Option, none, some, length-set, inl, inr,
}
use sultanc.Support.Alignment.{align_up}
use sultanc.Frontend.Ast.{AstType, DeclarationBody, struct_of, enum_of, alias_of, TypeDeclaration}
use sultanc.Kernel.Names.{Names}
use sultanc.Kernel.Layout.{
  LayoutState, unknown, visiting, ready, LayoutEntry, LayoutContext, no_layout, out_of_fuel,
  laid_out, LayoutStep, entry_at, set_entry, larger, tagged_size, layout_node, layout_slots,
  layout_constructors, store_layout, store_alias, slot_types, layout_body, layout_visit,
  layout_entry, layout_named_entry, layout_type, unresolved_type, infinite_recursive_type,
}
use sultanc.Kernel.Layout.Known.{
  known_name, known, known_slots, known_constructors, known_body, known_body-Stays,
}
use sultanc.Kernel.Layout.Refinement.{
  get_or-set_self, get_or-set_other, Keeps, Keeps-trans, ℕ-cases, set-Extends, set-Keeps,
  IsConsistent, Refines, Refines-fail, Refines-finish,
}
use sultanc.Kernel.Layout.Visits.{
  layout_node-Refines, layout_slots-Refines, layout_constructors-Refines, kept_entry,
  mark-IsConsistent,
}

module _ (names : Names) (len : ℕ) where
  abbrev ready_with : ℕ → ℕ → LayoutEntry
  ready_with s a = record { state = ready; size = s; alignment = a }

  module _ (e : ℕ) (d : TypeDeclaration) (declared : names.declaration e ≡ some d)
      (there : e < len) where
    store-IsConsistent :
        (c : LayoutContext) (s a : ℕ)
        → IsConsistent names len c
        → (entry_at c e).state ≢ ready
        → known_body names c d.body ≡ some (s, a)
        → IsConsistent names len (set_entry c e (ready_with s a))
    store-IsConsistent c s a h open_entry size =
        let v : LayoutEntry = ready_with s a in
        let self = get_or-set_self c.entries e v (omega (arith, h.0)) in
        (
          length-set c.entries e v ∙ h.0,
          λ i r. elim (ℕ-cases i e) [
            | inl p ↦
                let here : entry_at (set_entry c e v) i ≡ v =
                  ap (λ (x : ℕ). entry_at (set_entry c e v) x) p ∙ self in
                (
                  d,
                  ap (λ (x : ℕ). names.declaration x) p ∙ declared,
                  rw here (
                      known_body-Stays names c (set_entry c e v) (set-Extends c e v open_entry)
                        d.body _ size),
                )
            | inr q ↦
                kept_entry names len c e v h i
                  (ap (λ (x : LayoutEntry). x.state) (sym (get_or-set_other c.entries e i v q)) ∙ r)
                  open_entry
          ],
        )

    module _ (c c1 : LayoutContext) (unvisited : (entry_at c e).state ≡ unknown)
        (marks : Keeps c c1) (marked : (entry_at c1 e).state ≡ visiting) where
      -- The entry is still being visited when its parts are done.
      still_visiting : (x : LayoutContext) → Keeps c1 x → (entry_at x e).state ≡ visiting
      still_visiting x keeps = ap (λ (y : LayoutEntry). y.state) (keeps e (λ u. cc)) ∙ marked

      write-Keeps : (x : LayoutContext) (v : LayoutEntry) → Keeps c1 x → Keeps c (set_entry x e v)
      write-Keeps x v keeps = λ i visited.
          get_or-set_other x.entries e i v
            (λ p. visited (ap (λ (y : ℕ). (entry_at c y).state) p ∙ unvisited))
          ∙ Keeps-trans c c1 x marks keeps i visited

      store_layout-Refines :
          (x : LayoutContext) (s a : ℕ)
          → Keeps c1 x
          → IsConsistent names len x
          → known_body names x d.body ≡ some (s, a)
          → Refines names len c (store_layout e x s a) (λ y. known_name y (some e))
      store_layout-Refines x s a keeps h size =
          let self = get_or-set_self x.entries e (ready_with s a) (omega (arith, h.0)) in
          (
            write-Keeps x (ready_with s a) keeps,
            store-IsConsistent x s a h
                (λ r. absurd (visiting_ready (sym (still_visiting x keeps) ∙ r))) size,
            rw self refl,
          )
        where
          visiting_ready : visiting ≡ ready → ⊥
          visiting_ready p = cc

      store_alias-Refines :
          (m : LayoutStep)
          → Refines names len c1 m (λ x. known_body names x d.body)
          → Refines names len c (store_alias e m) (λ y. known_name y (some e))
      store_alias-Refines (x, no_layout) (keeps, h, _) =
          let v : LayoutEntry = record (entry_at x e) { state = unknown } in
          (
            write-Keeps x v keeps,
            mark-IsConsistent names len x e v h there (λ r. cc (still_visiting x keeps)) (λ r. cc),
            tt,
          )
      store_alias-Refines (x, out_of_fuel) (keeps, h, _) = (Keeps-trans c c1 x marks keeps, h, tt)
      store_alias-Refines (x, laid_out s a) (keeps, h, size) =
          store_layout-Refines x s a keeps h size

      module _ (node : LayoutContext → AstType → LayoutStep)
          (noded : (x : LayoutContext) (t : AstType)
            → IsConsistent names len x
            → Refines names len x (node x t) (λ y. known names y t))
          (consistent : IsConsistent names len c1) where
        layout_body-Refines :
            (body : DeclarationBody)
            → d.body ≡ body
            → Refines names len c (layout_body node c1 e body) (λ y. known_name y (some e))
        unfolding layout_body known_body
        layout_body-Refines (alias_of target) is =
            store_alias-Refines (node c1 target) (rw is (noded c1 target consistent))
        layout_body-Refines (struct_of fields) is =
            Refines-finish names len c c1 (layout_slots node c1 (slot_types fields) 0 1)
              (λ x s a. store_layout e x (align_up s a) a)
              (λ x. known_slots names x (slot_types fields) 0 1) (λ y. known_name y (some e)) marks
              (layout_slots-Refines names len node noded c1 (slot_types fields) 0 1 consistent)
              (λ x s a keeps h size.
                store_layout-Refines x (align_up s a) a keeps h (rw (is, size)))
        layout_body-Refines (enum_of constructors) is =
            Refines-finish names len c c1 (layout_constructors node c1 constructors 0 1)
              (λ x s a. store_layout e x (tagged_size s a) (larger a 8))
              (λ x. known_constructors names x constructors 0 1) (λ y. known_name y (some e)) marks
              (layout_constructors-Refines names len node noded c1 constructors 0 1 consistent)
              (λ x s a keeps h size.
                store_layout-Refines x (tagged_size s a) (larger a 8) keeps h (rw (is, size)))

  module _ (node : LayoutContext → AstType → LayoutStep)
      (noded : (x : LayoutContext) (t : AstType)
        → IsConsistent names len x
        → Refines names len x (node x t) (λ y. known names y t))
      (there : (e : ℕ) (d : TypeDeclaration) → names.declaration e ≡ some d → e < len)
      (c : LayoutContext) (e : ℕ) (h : IsConsistent names len c) where
    layout_visit-Refines :
        (d : TypeDeclaration) (state : LayoutState)
        → names.declaration e ≡ some d
        → (entry_at c e).state ≡ state
        → Refines names len c
            (layout_visit node c e d.body (entry_at c e) state)
            (λ y. known_name y (some e))
    unfolding layout_visit
    layout_visit-Refines d ready declared is = (λ i v. refl, h, rw is refl)
    layout_visit-Refines d visiting declared is =
        Refines-fail names len c infinite_recursive_type (λ y. known_name y (some e)) h
    layout_visit-Refines d unknown declared is =
        let v : LayoutEntry = record (entry_at c e) { state = visiting } in
        let inside = there e d declared in
        layout_body-Refines e d declared inside c (set_entry c e v) is (set-Keeps c e v is)
          (ap (λ (x : LayoutEntry). x.state) (get_or-set_self c.entries e v (omega (arith, h.0))))
          node noded (mark-IsConsistent names len c e v h inside (λ r. cc is) (λ r. cc)) d.body refl

    layout_entry-Refines :
        (declaration : Option TypeDeclaration)
        → names.declaration e ≡ declaration
        → Refines names len c (layout_entry node c e declaration) (λ y. known_name y (some e))
    unfolding layout_entry
    layout_entry-Refines none declared =
        Refines-fail names len c unresolved_type (λ y. known_name y (some e)) h
    layout_entry-Refines (some d) declared =
        layout_visit-Refines d (entry_at c e).state declared refl

  module _ (there : (e : ℕ) (d : TypeDeclaration) → names.declaration e ≡ some d → e < len) where
    pub layout_named_entry-Refines :
        (fuel : ℕ) (c : LayoutContext) (e : ℕ)
        → IsConsistent names len c
        → Refines names len c (layout_named_entry fuel names c e) (λ y. known_name y (some e))
    unfolding layout_named_entry
    layout_named_entry-Refines zero c e h = (λ i v. refl, h, tt)
    layout_named_entry-Refines (suc fuel) c e h =
        layout_entry-Refines (layout_node (layout_named_entry fuel names) names)
          (layout_node-Refines names len (layout_named_entry fuel names)
            (layout_named_entry-Refines fuel))
          there c e h (names.declaration e) refl

-- Where each entry that is ready agrees with its declaration and the ready entries it names, `layout_type`
-- keeps it so, changes no entry that was visited before, and an answer agrees with the entries that are
-- ready then. Every entry that has a declaration stands in the context.
layout_type-Refines :
    (fuel : ℕ) (names : Names) (len : ℕ) (c : LayoutContext) (t : AstType)
    → ((e : ℕ) (d : TypeDeclaration) → names.declaration e ≡ some d → e < len)
    → IsConsistent names len c
    → Refines names len c (layout_type fuel names c t) (λ x. known names x t)
unfolding layout_type
layout_type-Refines fuel names len c t there h =
    layout_node-Refines names len (layout_named_entry fuel names)
      (layout_named_entry-Refines names len there fuel) c t h
