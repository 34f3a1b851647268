-- ===== src/Kernel/Layout/Visits.antt =====
-- Each call of layout refines what the entries say.
use sultanc.Prelude.{
  ℕ, ◌+◌, ◌<◌, ◌≡◌, ◌≢◌, refl, sym, ap, ◌∙◌, arith, Option, none, some, List, [], ◌∷◌, length-set,
  wrap64, inl, inr,
}
use sultanc.Support.Alignment.{align_up}
use sultanc.Frontend.Ast.{
  AstType, missing, option, result, named, mutable_of, EnumConstructor, TypeDeclaration,
}
use sultanc.Kernel.Names.{Names}
use sultanc.Kernel.Layout.{
  ready, LayoutEntry, LayoutContext, LayoutStep, entry_at, set_entry, ◌>>=◌, larger, tagged_size,
  finish_tagged, layout_name, layout_node, layout_slots, layout_constructors, unresolved_type,
  failed_lookup,
}
use sultanc.Kernel.Layout.Known.{
  SizeAndAlignment, ◌>>>◌, known_name, known, known_slots, known_constructors, known_body,
  known-Stays, known_slots-Stays, known_body-Stays,
}
use sultanc.Kernel.Layout.Refinement.{
  get_or-set_self, get_or-set_other, Keeps-Extends, ℕ-cases, set-Extends, IsConsistent, Refines,
  Refines-bind, Refines-fail, Refines-later,
}

-- The layout of a result whose first payload is known.
abbrev known_second : Names → AstType → ℕ → ℕ → LayoutContext → Option SizeAndAlignment
known_second names error s a x = known names x error >>> λ s' a'. some (
  tagged_size (larger s' (larger s 0)) (larger a' (larger a 1)),
  larger (larger a' (larger a 1)) 8,
)

module _ (names : Names) (len : ℕ) where
  module _ (enter : LayoutContext → ℕ → LayoutStep)
      (entered : (c : LayoutContext) (e : ℕ)
        → IsConsistent names len c
        → Refines names len c (enter c e) (λ x. known_name x (some e))) where
    layout_name-Refines :
        (c : LayoutContext) (found : Option ℕ)
        → IsConsistent names len c
        → Refines names len c (layout_name enter c found) (λ x. known_name x found)
    unfolding layout_name
    layout_name-Refines c none h = Refines-fail names len c failed_lookup (λ x. known_name x none) h
    layout_name-Refines c (some e) h = entered c e h

    pub layout_node-Refines :
        (c : LayoutContext) (t : AstType)
        → IsConsistent names len c
        → Refines names len c (layout_node enter names c t) (λ x. known names x t)
    unfolding layout_node known
    layout_node-Refines c missing h =
        Refines-fail names len c unresolved_type (λ x. known names x missing) h
    layout_node-Refines c (option t) h =
        Refines-bind names len c (layout_node enter names c t)
          (λ c' s a. finish_tagged c' (larger s 0) (larger a 1)) (λ x. known names x t)
          (λ x. known names x (option t)) (layout_node-Refines c t h)
          (λ c' s a h' e. (λ i v. refl, h', rw e))
    layout_node-Refines c (result ok error) h =
        Refines-bind names len c (layout_node enter names c ok)
          (λ c' s a. layout_node enter names c' error >>= λ c'' s' a'.
            finish_tagged c'' (larger s' (larger s 0)) (larger a' (larger a 1)))
          (λ x. known names x ok) (λ x. known names x (result ok error))
          (layout_node-Refines c ok h)
          (λ c' s a h' e.
            Refines-later names len c' _ (known_second names error s a)
              (λ x. known names x (result ok error))
              (Refines-bind names len c' (layout_node enter names c' error)
                (λ c'' s' a'. finish_tagged c'' (larger s' (larger s 0)) (larger a' (larger a 1)))
                (λ x. known names x error) (known_second names error s a)
                (layout_node-Refines c' error h') (λ c'' s' a' h'' e'. (λ i v. refl, h'', rw e')))
              (λ x keeps. rw (known-Stays names c' x (Keeps-Extends c' x keeps) ok (s, a) e)))
    layout_node-Refines c (named address name arguments) h =
        layout_name-Refines c (names.resolve_named_entry (named address name arguments)) h
    layout_node-Refines c (mutable_of t) h = layout_node-Refines c t h
    layout_node-Refines c _ h = (λ i v. refl, h, refl)

  module _ (node : LayoutContext → AstType → LayoutStep)
      (noded : (c : LayoutContext) (t : AstType)
        → IsConsistent names len c
        → Refines names len c (node c t) (λ x. known names x t)) where
    pub layout_slots-Refines :
        (c : LayoutContext) (ts : List AstType) (size alignment : ℕ)
        → IsConsistent names len c
        → Refines names len c
            (layout_slots node c ts size alignment)
            (λ x. known_slots names x ts size alignment)
    unfolding layout_slots known_slots
    layout_slots-Refines c [] size alignment h = (λ i v. refl, h, refl)
    layout_slots-Refines c (t ∷ ts) size alignment h =
        Refines-bind names len c (node c t)
          (λ c' s a. layout_slots node c' ts (wrap64 (align_up size a + s)) (larger a alignment))
          (λ x. known names x t) (λ x. known_slots names x (t ∷ ts) size alignment) (noded c t h)
          (λ c' s a h' e.
            Refines-later names len c' _
              (λ x. known_slots names x ts (wrap64 (align_up size a + s)) (larger a alignment))
              (λ x. known_slots names x (t ∷ ts) size alignment)
              (layout_slots-Refines c' ts (wrap64 (align_up size a + s)) (larger a alignment) h')
              (λ x keeps. rw (known-Stays names c' x (Keeps-Extends c' x keeps) t (s, a) e)))

    pub layout_constructors-Refines :
        (c : LayoutContext) (ks : List EnumConstructor) (payload_max alignment : ℕ)
        → IsConsistent names len c
        → Refines names len c
            (layout_constructors node c ks payload_max alignment)
            (λ x. known_constructors names x ks payload_max alignment)
    unfolding layout_constructors known_constructors
    layout_constructors-Refines c [] payload_max alignment h = (λ i v. refl, h, refl)
    layout_constructors-Refines c (k ∷ ks) payload_max alignment h =
        Refines-bind names len c (layout_slots node c k.payload_slots 0 1)
          (λ c' s a.
            layout_constructors node c' ks (larger (align_up s a) payload_max) (larger a alignment))
          (λ x. known_slots names x k.payload_slots 0 1)
          (λ x. known_constructors names x (k ∷ ks) payload_max alignment)
          (layout_slots-Refines c k.payload_slots 0 1 h)
          (λ c' s a h' e.
            Refines-later names len c' _
              (λ x.
                known_constructors names x ks (larger (align_up s a) payload_max)
                  (larger a alignment))
              (λ x. known_constructors names x (k ∷ ks) payload_max alignment)
              (layout_constructors-Refines c' ks (larger (align_up s a) payload_max)
                (larger a alignment) h')
              (λ x keeps. rw (
                known_slots-Stays names c' x (Keeps-Extends c' x keeps) k.payload_slots 0 1 (s, a)
                  e)))

  -- A write to the entry that a context is visiting.
  module _ (c : LayoutContext) (e : ℕ) (v : LayoutEntry) (h : IsConsistent names len c) where
    pub kept_entry :
        (i : ℕ)
        → (entry_at c i).state ≡ ready
        → (entry_at c e).state ≢ ready
        → (d : TypeDeclaration) × (names.declaration i ≡ some d)
          × (known_body names (set_entry c e v) d.body
              ≡ some
                  ((entry_at (set_entry c e v) i).size, (entry_at (set_entry c e v) i).alignment))
    kept_entry i r open_entry =
        let (d, declared, size) = h.1 i r in
        let same = set-Extends c e v open_entry i r in
        (
          d,
          declared,
          rw same (
              known_body-Stays names c (set_entry c e v) (set-Extends c e v open_entry) d.body _
                size),
        )

    -- The entry is not made ready.
    pub mark-IsConsistent :
        e < len
        → (entry_at c e).state ≢ ready
        → v.state ≢ ready
        → IsConsistent names len (set_entry c e v)
    mark-IsConsistent there open_entry other = (
      length-set c.entries e v ∙ h.0,
      λ i r. elim (ℕ-cases i e) [
        | inl p ↦ absurd (
            other (
              ap (λ (x : LayoutEntry). x.state)
                (sym (get_or-set_self c.entries e v (omega (arith, h.0))))
              ∙ ap (λ (x : ℕ). (entry_at (set_entry c e v) x).state) (sym p)
              ∙ r))
        | inr q ↦
            kept_entry i
              (ap (λ (x : LayoutEntry). x.state) (sym (get_or-set_other c.entries e i v q)) ∙ r)
              open_entry
      ],
    )
