-- ===== src/Kernel/Layout/Soundness.antt =====
-- A layout that is answered or stored is the one that the declarations alone give.
use sultanc.Prelude.{ℕ, zero, suc, ◌+◌, ◌≡◌, refl, Option, none, some, List, [], ◌∷◌, wrap64}
use sultanc.Support.Alignment.{align_up}
use sultanc.Frontend.Ast.{
  AstType, missing, machine, option, result, named, mutable_of, EnumConstructor, DeclarationBody,
  struct_of, enum_of, alias_of, TypeDeclaration,
}
use sultanc.Kernel.Names.{Names}
use sultanc.Kernel.Layout.{
  LayoutState, unknown, visiting, ready, LayoutContext, no_layout, out_of_fuel, laid_out,
  LayoutStep, entry_at, set_entry, larger, tagged_size, semantic_fail, layout_name, layout_node,
  layout_slots, layout_constructors, store_layout, store_alias, slot_types, layout_body,
  layout_visit, layout_entry, layout_named_entry, layout_type,
}
use sultanc.Kernel.Layout.Plain.{
  plain_name, plain_type, plain_slots, plain_constructors, plain_body, plain_declaration,
  plain_entry, plain, plain-deeper, plain-deeper_left, plain_slots-Stays, plain_constructors-Stays,
}
use sultanc.Kernel.Layout.Grounded.{Grounded, Sound, Sound-bind, Sound-later, set-Grounded}

module _ (names : Names) where
  module _ (enter : LayoutContext → ℕ → LayoutStep)
      (entered : (c : LayoutContext) (e : ℕ)
        → Grounded names c
        → Sound names (enter c e) (λ n. plain_entry n names e)) where
    layout_name-Sound :
        (c : LayoutContext) (o : Option ℕ)
        → Grounded names c
        → Sound names (layout_name enter c o) (λ n. plain_name (plain_entry n names) o)
    unfolding layout_name semantic_fail
    layout_name-Sound c none g = (g, tt)
    layout_name-Sound c (some e) g = entered c e g

    layout_node-Sound :
        (c : LayoutContext) (t : AstType)
        → Grounded names c
        → Sound names (layout_node enter names c t) (λ n. plain n names t)
    unfolding layout_node plain_type semantic_fail
    layout_node-Sound c missing g = (g, tt)
    layout_node-Sound c (option t) g =
        Sound-bind names (layout_node enter names c t) _ (λ n. plain n names t)
          (λ n. plain n names (option t)) (layout_node-Sound c t g)
          (λ c' s a n g' e. (g', (n, rw e refl)))
    layout_node-Sound c (result ok error) g =
        Sound-bind names (layout_node enter names c ok) _ (λ n. plain n names ok)
          (λ n. plain n names (result ok error)) (layout_node-Sound c ok g)
          (λ c' s a n g' e.
            Sound-bind names (layout_node enter names c' error) _ (λ m. plain m names error)
              (λ m. plain m names (result ok error)) (layout_node-Sound c' error g')
              (λ c'' s' a' m g'' e'. (
                g'',
                (
                  n + m,
                  rw
                      (
                        plain-deeper names n m ok (s, a) e,
                        plain-deeper_left names n m error (s', a') e',
                      )
                      refl,
                ),
              )))
    layout_node-Sound c (named address name arguments) g =
        layout_name-Sound c (names.resolve_named_entry (named address name arguments)) g
    layout_node-Sound c (mutable_of t) g = layout_node-Sound c t g
    layout_node-Sound c (machine m) g = (g, (0, refl))
    layout_node-Sound c _ g = (g, (0, refl))

  module _ (node : LayoutContext → AstType → LayoutStep)
      (noded : (c : LayoutContext) (t : AstType)
        → Grounded names c
        → Sound names (node c t) (λ n. plain n names t)) where
    layout_slots-Sound :
        (c : LayoutContext) (ts : List AstType) (size alignment : ℕ)
        → Grounded names c
        → Sound names
            (layout_slots node c ts size alignment)
            (λ n. plain_slots (plain n names) ts size alignment)
    unfolding layout_slots plain_slots
    layout_slots-Sound c [] size alignment g = (g, (0, refl))
    layout_slots-Sound c (t ∷ ts) size alignment g =
        Sound-bind names (node c t) _ (λ n. plain n names t)
          (λ n. plain_slots (plain n names) (t ∷ ts) size alignment) (noded c t g)
          (λ c' s a n g' e.
            Sound-later names
              (layout_slots node c' ts (wrap64 (align_up size a + s)) (larger a alignment))
              (λ m.
                plain_slots (plain m names) ts (wrap64 (align_up size a + s)) (larger a alignment))
              (λ m. plain_slots (plain m names) (t ∷ ts) size alignment)
              (layout_slots-Sound c' ts (wrap64 (align_up size a + s)) (larger a alignment) g')
              (λ m p e'. (
                n + m,
                rw
                    (
                      plain-deeper names n m t (s, a) e,
                      plain_slots-Stays (plain m names) (plain (n + m) names)
                          (plain-deeper_left names n m) ts (wrap64 (align_up size a + s))
                          (larger a alignment) p e',
                    )
                    refl,
              )))

    layout_constructors-Sound :
        (c : LayoutContext) (ks : List EnumConstructor) (size alignment : ℕ)
        → Grounded names c
        → Sound names
            (layout_constructors node c ks size alignment)
            (λ n. plain_constructors (plain n names) ks size alignment)
    unfolding layout_constructors plain_constructors
    layout_constructors-Sound c [] size alignment g = (g, (0, refl))
    layout_constructors-Sound c (k ∷ ks) size alignment g =
        Sound-bind names (layout_slots node c k.payload_slots 0 1) _
          (λ n. plain_slots (plain n names) k.payload_slots 0 1)
          (λ n. plain_constructors (plain n names) (k ∷ ks) size alignment)
          (layout_slots-Sound c k.payload_slots 0 1 g)
          (λ c' s a n g' e.
            Sound-later names
              (layout_constructors node c' ks (larger (align_up s a) size) (larger a alignment))
              (λ m.
                plain_constructors (plain m names) ks (larger (align_up s a) size)
                  (larger a alignment))
              (λ m. plain_constructors (plain m names) (k ∷ ks) size alignment)
              (layout_constructors-Sound c' ks (larger (align_up s a) size) (larger a alignment) g')
              (λ m p e'. (
                n + m,
                rw
                    (
                      plain_slots-Stays (plain n names) (plain (n + m) names)
                          (plain-deeper names n m) k.payload_slots 0 1 (s, a) e,
                      plain_constructors-Stays (plain m names) (plain (n + m) names)
                          (plain-deeper_left names n m) ks (larger (align_up s a) size)
                          (larger a alignment) p e',
                    )
                    refl,
              )))

  module _ (e : ℕ) (d : TypeDeclaration) (declared : names.declaration e ≡ some d) where
    -- Writing a layout that the body of the declaration gives.
    pub store-Sound :
        (c : LayoutContext) (s a n : ℕ)
        → Grounded names c
        → plain_body (plain n names) d.body ≡ some (s, a)
        → Sound names (store_layout e c s a) (λ m. plain_entry m names e)
    unfolding plain_entry
    store-Sound c s a n g given =
        let grounds : plain_declaration (plain n names) (names.declaration e) ≡ some (s, a) =
          rw declared given in
        (
          set-Grounded names c e (record { state = ready; size = s; alignment = a }) g
              (λ r. (suc n, grounds)),
          (suc n, grounds),
        )

    store_alias-Sound :
        (m : LayoutStep)
        → Sound names m (λ n. plain_body (plain n names) d.body)
        → Sound names (store_alias e m) (λ n. plain_entry n names e)
    store_alias-Sound (c, no_layout) (g, _) =
        (set-Grounded names c e (record (entry_at c e) { state = unknown }) g (λ r. cc), tt)
    store_alias-Sound (c, out_of_fuel) (g, _) = (g, tt)
    store_alias-Sound (c, laid_out s a) (g, (n, given)) = store-Sound c s a n g given

    module _ (node : LayoutContext → AstType → LayoutStep)
        (noded : (c : LayoutContext) (t : AstType)
          → Grounded names c
          → Sound names (node c t) (λ n. plain n names t)) where
      layout_body-Sound :
          (c : LayoutContext) (body : DeclarationBody)
          → d.body ≡ body
          → Grounded names c
          → Sound names (layout_body node c e body) (λ n. plain_entry n names e)
      unfolding layout_body plain_body
      layout_body-Sound c (alias_of target) is g =
          store_alias-Sound (node c target) (rw is (noded c target g))
      layout_body-Sound c (struct_of fields) is g =
          Sound-bind names (layout_slots node c (slot_types fields) 0 1) _
            (λ n. plain_slots (plain n names) (slot_types fields) 0 1) (λ n. plain_entry n names e)
            (layout_slots-Sound node noded c (slot_types fields) 0 1 g)
            (λ c' s a n g' given. store-Sound c' (align_up s a) a n g' (rw (is, given) refl))
      layout_body-Sound c (enum_of constructors) is g =
          Sound-bind names (layout_constructors node c constructors 0 1) _
            (λ n. plain_constructors (plain n names) constructors 0 1) (λ n. plain_entry n names e)
            (layout_constructors-Sound node noded c constructors 0 1 g)
            (λ c' s a n g' given.
              store-Sound c' (tagged_size s a) (larger a 8) n g' (rw (is, given) refl))

  module _ (node : LayoutContext → AstType → LayoutStep)
      (noded : (c : LayoutContext) (t : AstType)
        → Grounded names c
        → Sound names (node c t) (λ n. plain n names t)) where
    layout_visit-Sound :
        (c : LayoutContext) (e : ℕ) (d : TypeDeclaration) (state : LayoutState)
        → names.declaration e ≡ some d
        → (entry_at c e).state ≡ state
        → Grounded names c
        → Sound names
            (layout_visit node c e d.body (entry_at c e) state)
            (λ n. plain_entry n names e)
    unfolding layout_visit semantic_fail
    layout_visit-Sound c e d ready declared is g = (g, g e is)
    layout_visit-Sound c e d visiting declared is g = (g, tt)
    layout_visit-Sound c e d unknown declared is g =
        layout_body-Sound e d declared node noded
          (set_entry c e (record (entry_at c e) { state = visiting })) d.body refl
          (set-Grounded names c e (record (entry_at c e) { state = visiting }) g (λ r. cc))

    layout_entry-Sound :
        (c : LayoutContext) (e : ℕ) (o : Option TypeDeclaration)
        → names.declaration e ≡ o
        → Grounded names c
        → Sound names (layout_entry node c e o) (λ n. plain_entry n names e)
    unfolding layout_entry semantic_fail
    layout_entry-Sound c e none declared g = (g, tt)
    layout_entry-Sound c e (some d) declared g =
        layout_visit-Sound c e d (entry_at c e).state declared refl g

  pub layout_named_entry-Sound :
      (fuel : ℕ) (c : LayoutContext) (e : ℕ)
      → Grounded names c
      → Sound names (layout_named_entry fuel names c e) (λ n. plain_entry n names e)
  unfolding layout_named_entry
  layout_named_entry-Sound zero c e g = (g, tt)
  layout_named_entry-Sound (suc fuel) c e g =
      layout_entry-Sound (layout_node (layout_named_entry fuel names) names)
        (layout_node-Sound (layout_named_entry fuel names) (layout_named_entry-Sound fuel)) c e
        (names.declaration e) refl g

  pub layout_type-Sound :
      (fuel : ℕ) (c : LayoutContext) (t : AstType)
      → Grounded names c
      → Sound names (layout_type fuel names c t) (λ n. plain n names t)
  unfolding layout_type
  layout_type-Sound fuel c t g =
      layout_node-Sound (layout_named_entry fuel names) (layout_named_entry-Sound fuel) c t g
