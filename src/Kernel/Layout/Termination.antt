-- ===== src/Kernel/Layout/Termination.antt =====
-- Layout visits an entry at most once, so more fuel than there are entries to visit is enough.
use sultanc.Prelude.{
  ℕ, zero, suc, ◌+◌, ◌≤◌, ◌<◌, ◌≡◌, ◌≢◌, refl, arith, Option, none, some, List, [], ◌∷◌, length,
  length-set, get_or, set, wrap64, ◌∙◌,
}
use sultanc.Support.Alignment.{align_up}
use sultanc.Frontend.Ast.{
  AstType, missing, option, result, named, mutable_of, EnumConstructor, DeclarationBody, struct_of,
  enum_of, alias_of, TypeDeclaration,
}
use sultanc.Kernel.Names.{Names}
use sultanc.Kernel.Layout.{
  LayoutState, unknown, visiting, ready, LayoutEntry, fresh_entry, LayoutContext, no_layout,
  out_of_fuel, laid_out, LayoutStep, entry_at, set_entry, ◌>>=◌, larger, tagged_size, finish_tagged,
  layout_name, layout_node, layout_slots, layout_constructors, store_layout, store_alias,
  slot_types, layout_body, layout_visit, layout_entry, layout_named_entry, layout_type,
}

abbrev pub is_unknown : LayoutState → ℕ
is_unknown unknown = 1
is_unknown visiting = 0
is_unknown ready = 0

-- The entries that were not visited.
abbrev pub count_unknown : List LayoutEntry → ℕ
count_unknown [] = 0
count_unknown (x ∷ l) = is_unknown x.state + count_unknown l

pub count_unknown-set :
    (l : List LayoutEntry) (e : ℕ) (v : LayoutEntry)
    → count_unknown (set l e v) ≤ count_unknown l + is_unknown v.state
count_unknown-set [] e v = omega arith
count_unknown-set (x ∷ l) zero v = omega arith
count_unknown-set (x ∷ l) (suc e) v = omega (arith, count_unknown-set l e v)

pub count_unknown-visit :
    (l : List LayoutEntry) (e : ℕ) (v : LayoutEntry)
    → e < length l
    → count_unknown (set l e v) + is_unknown (get_or l e fresh_entry).state
      ≡ count_unknown l + is_unknown v.state
count_unknown-visit [] e v h = elim h [ ]
count_unknown-visit (x ∷ l) zero v h = omega arith
count_unknown-visit (x ∷ l) (suc e) v h = omega (arith, count_unknown-visit l e v (omega arith))

module _ (len : ℕ) where
  abbrev pub Holds : ℕ → LayoutContext → Type 0
  Holds bound c = (length c.entries ≡ len) × (count_unknown c.entries ≤ bound)

  -- The call came to an answer and left no more entries to visit than `bound`.
  abbrev pub Finished : ℕ → LayoutStep → Type 0
  Finished bound step = Holds bound step.0 × (step.1 ≢ out_of_fuel)

  failed : (bound : ℕ) (c : LayoutContext) → Holds bound c → Finished bound (c, no_layout)
  failed bound c h = (h, λ e. cc)

  answered :
      (bound : ℕ) (c : LayoutContext) (s a : ℕ) → Holds bound c → Finished bound (c, laid_out s a)
  answered bound c s a h = (h, λ e. cc)

  bind-Finished :
      (bound bound' : ℕ) (m : LayoutStep) (k : LayoutContext → ℕ → ℕ → LayoutStep)
      → bound ≤ bound'
      → Finished bound m
      → ((c : LayoutContext) (s a : ℕ) → Holds bound c → Finished bound' (k c s a))
      → Finished bound' (m >>= k)
  bind-Finished bound bound' (c, no_layout) k le h next = ((h.0.0, omega (arith, h.0.1)), λ e. cc)
  bind-Finished bound bound' (c, out_of_fuel) k le h next = absurd (h.1 refl)
  bind-Finished bound bound' (c, laid_out s a) k le h next = next c s a h.0

  set_entry-Holds :
      (bound : ℕ) (c : LayoutContext) (e : ℕ) (v : LayoutEntry)
      → Holds bound c
      → Holds (bound + is_unknown v.state) (set_entry c e v)
  set_entry-Holds bound c e v h =
      (length-set c.entries e v ∙ h.0, omega (arith, h.1, count_unknown-set c.entries e v))

  module _ (bound : ℕ) (enter : LayoutContext → ℕ → LayoutStep) (names : Names)
      (entered : (c : LayoutContext) (e : ℕ) → Holds bound c → Finished bound (enter c e)) where
    layout_name-Finished :
        (c : LayoutContext) (found : Option ℕ)
        → Holds bound c
        → Finished bound (layout_name enter c found)
    unfolding layout_name
    layout_name-Finished c none h = (h, λ e. cc)
    layout_name-Finished c (some e) h = entered c e h

    layout_node-Finished :
        (c : LayoutContext) (t : AstType)
        → Holds bound c
        → Finished bound (layout_node enter names c t)
    unfolding layout_node
    layout_node-Finished c missing h = (h, λ e. cc)
    layout_node-Finished c (option t) h =
        bind-Finished bound bound (layout_node enter names c t)
          (λ c' s a. finish_tagged c' (larger s 0) (larger a 1)) (omega arith)
          (layout_node-Finished c t h) (λ c' s a h'. answered bound c' _ _ h')
    layout_node-Finished c (result ok error) h =
        bind-Finished bound bound (layout_node enter names c ok)
          (λ c' s a. layout_node enter names c' error >>= λ c'' s' a'.
            finish_tagged c'' (larger s' (larger s 0)) (larger a' (larger a 1)))
          (omega arith) (layout_node-Finished c ok h)
          (λ c' s a h'.
            bind-Finished bound bound (layout_node enter names c' error)
              (λ c'' s' a'. finish_tagged c'' (larger s' (larger s 0)) (larger a' (larger a 1)))
              (omega arith) (layout_node-Finished c' error h')
              (λ c'' s' a' h''. answered bound c'' _ _ h''))
    layout_node-Finished c (named address name arguments) h =
        layout_name-Finished c (names.resolve_named_entry (named address name arguments)) h
    layout_node-Finished c (mutable_of t) h = layout_node-Finished c t h
    layout_node-Finished c _ h = (h, λ e. cc)

  module _ (bound : ℕ) (node : LayoutContext → AstType → LayoutStep)
      (noded : (c : LayoutContext) (t : AstType) → Holds bound c → Finished bound (node c t)) where
    layout_slots-Finished :
        (c : LayoutContext) (ts : List AstType) (size alignment : ℕ)
        → Holds bound c
        → Finished bound (layout_slots node c ts size alignment)
    unfolding layout_slots
    layout_slots-Finished c [] size alignment h = answered bound c size alignment h
    layout_slots-Finished c (t ∷ ts) size alignment h =
        bind-Finished bound bound (node c t)
          (λ c' s a. layout_slots node c' ts (wrap64 (align_up size a + s)) (larger a alignment))
          (omega arith) (noded c t h)
          (λ c' s a h'.
            layout_slots-Finished c' ts (wrap64 (align_up size a + s)) (larger a alignment) h')

    layout_constructors-Finished :
        (c : LayoutContext) (ks : List EnumConstructor) (payload_max alignment : ℕ)
        → Holds bound c
        → Finished bound (layout_constructors node c ks payload_max alignment)
    unfolding layout_constructors
    layout_constructors-Finished c [] payload_max alignment h =
        answered bound c payload_max alignment h
    layout_constructors-Finished c (x ∷ ks) payload_max alignment h =
        bind-Finished bound bound (layout_slots node c x.payload_slots 0 1)
          (λ c' s a.
            layout_constructors node c' ks (larger (align_up s a) payload_max) (larger a alignment))
          (omega arith) (layout_slots-Finished c x.payload_slots 0 1 h)
          (λ c' s a h'.
            layout_constructors-Finished c' ks (larger (align_up s a) payload_max)
              (larger a alignment) h')

    store_layout-Finished :
        (e : ℕ) (c : LayoutContext) (s a : ℕ)
        → Holds bound c
        → Finished (suc bound) (store_layout e c s a)
    store_layout-Finished e c s a h =
        let held =
          set_entry-Holds bound c e (record { state = ready; size = s; alignment = a }) h in
        ((held.0, omega (arith, held.1)), λ x. cc)

    store_alias-Finished :
        (e : ℕ) (m : LayoutStep) → Finished bound m → Finished (suc bound) (store_alias e m)
    store_alias-Finished e (c, no_layout) h =
        let held = set_entry-Holds bound c e (record (entry_at c e) { state = unknown }) h.0 in
        ((held.0, omega (arith, held.1)), λ x. cc)
    store_alias-Finished e (c, out_of_fuel) h = absurd (h.1 refl)
    store_alias-Finished e (c, laid_out s a) h = store_layout-Finished e c s a h.0

    layout_body-Finished :
        (c : LayoutContext) (e : ℕ) (body : DeclarationBody)
        → Holds bound c
        → Finished (suc bound) (layout_body node c e body)
    unfolding layout_body
    layout_body-Finished c e (alias_of target) h =
        store_alias-Finished e (node c target) (noded c target h)
    layout_body-Finished c e (struct_of fields) h =
        bind-Finished bound (suc bound) (layout_slots node c (slot_types fields) 0 1)
          (λ c' s a. store_layout e c' (align_up s a) a) (omega arith)
          (layout_slots-Finished c (slot_types fields) 0 1 h)
          (λ c' s a h'. store_layout-Finished e c' (align_up s a) a h')
    layout_body-Finished c e (enum_of constructors) h =
        bind-Finished bound (suc bound) (layout_constructors node c constructors 0 1)
          (λ c' s a. store_layout e c' (tagged_size s a) (larger a 8)) (omega arith)
          (layout_constructors-Finished c constructors 0 1 h)
          (λ c' s a h'. store_layout-Finished e c' (tagged_size s a) (larger a 8) h')

  module _ (node : LayoutContext → AstType → LayoutStep) (fuel : ℕ)
      (noded : (bound : ℕ) (c : LayoutContext) (t : AstType)
        → bound < fuel
        → Holds bound c
        → Finished bound (node c t)) where
    layout_visit-Finished :
        (bound : ℕ) (c : LayoutContext) (e : ℕ) (body : DeclarationBody) (state : LayoutState)
        → (entry_at c e).state ≡ state
        → e < len
        → bound ≤ fuel
        → Holds bound c
        → Finished bound (layout_visit node c e body (entry_at c e) state)
    unfolding layout_visit
    layout_visit-Finished bound c e body ready is there le h = answered bound c _ _ h
    layout_visit-Finished bound c e body visiting is there le h = (h, λ x. cc)
    layout_visit-Finished zero c e body unknown is there le h =
        let marked : LayoutEntry = record (entry_at c e) { state = visiting } in
        let step = count_unknown-visit c.entries e marked (omega (arith, h.0)) in
        absurd (omega (arith, rw is at step, h.1))
    layout_visit-Finished (suc bound) c e body unknown is there le h =
        let marked : LayoutEntry = record (entry_at c e) { state = visiting } in
        let step = count_unknown-visit c.entries e marked (omega (arith, h.0)) in
        layout_body-Finished bound node (λ c' t h'. noded bound c' t le h') (set_entry c e marked) e
          body (length-set c.entries e marked ∙ h.0, omega (arith, rw is at step, h.1))

    layout_entry-Finished :
        (bound : ℕ) (c : LayoutContext) (e : ℕ) (known : Option TypeDeclaration)
        → ((d : TypeDeclaration) → known ≡ some d → e < len)
        → bound ≤ fuel
        → Holds bound c
        → Finished bound (layout_entry node c e known)
    unfolding layout_entry
    layout_entry-Finished bound c e none there le h = (h, λ x. cc)
    layout_entry-Finished bound c e (some d) there le h =
        layout_visit-Finished bound c e d.body (entry_at c e).state refl (there d refl) le h

  module _ (names : Names)
      (there : (e : ℕ) (d : TypeDeclaration) → names.declaration e ≡ some d → e < len) where
    layout_named_entry-Finished :
        (fuel bound : ℕ) (c : LayoutContext) (e : ℕ)
        → bound < fuel
        → Holds bound c
        → Finished bound (layout_named_entry fuel names c e)
    unfolding layout_named_entry
    layout_named_entry-Finished zero bound c e lt h = elim lt [ ]
    layout_named_entry-Finished (suc fuel) bound c e lt h =
        layout_entry-Finished (layout_node (layout_named_entry fuel names) names) fuel
          (λ bound' c' t lt' h'.
            layout_node-Finished bound' (layout_named_entry fuel names) names
              (λ c'' e' h''. layout_named_entry-Finished fuel bound' c'' e' lt' h'') c' t h')
          bound c e (names.declaration e) (there e) (omega arith) h

-- With more fuel than there are entries to visit, `layout_type` comes to an answer, also where types
-- contain themselves. Every entry that has a declaration stands in the context.
pub layout_type_ends :
    (fuel : ℕ) (names : Names) (c : LayoutContext) (t : AstType)
    → ((e : ℕ) (d : TypeDeclaration) → names.declaration e ≡ some d → e < length c.entries)
    → count_unknown c.entries < fuel
    → (layout_type fuel names c t).1 ≢ out_of_fuel
unfolding layout_type
layout_type_ends fuel names c t there lt =
    (layout_node-Finished (length c.entries) (count_unknown c.entries)
      (layout_named_entry fuel names) names
      (λ c' e h.
        layout_named_entry-Finished (length c.entries) names there fuel (count_unknown c.entries) c'
          e lt h)
      c t (refl, omega arith)).1
