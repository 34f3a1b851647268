-- ===== src/Kernel/Layout/Completeness.antt =====
-- Layout gives exactly the layouts that the declarations alone give.
use sultanc.Prelude.{
  ℕ, zero, suc, ◌≡◌, ◌≢◌, ◌↔◌, refl, sym, ap, ◌∙◌, arith, Option, none, some, ◌⊎◌, inl, inr,
  length-set, length, ◌<◌,
}
use sultanc.Support.Alignment.{align_up}
use sultanc.Frontend.Ast.{AstType, DeclarationBody, struct_of, enum_of, alias_of, TypeDeclaration}
use sultanc.Kernel.Names.{Names}
use sultanc.Kernel.Layout.{
  LayoutState, unknown, visiting, ready, LayoutEntry, LayoutContext, laid_out, LayoutStep, entry_at,
  set_entry, larger, tagged_size, layout_node, store_layout, slot_types, layout_body, layout_visit,
  layout_entry, layout_named_entry, layout_type,
}
use sultanc.Kernel.Layout.Known.{SizeAndAlignment}
use sultanc.Kernel.Layout.Plain.{
  plain_slots, plain_constructors, plain_body, plain_entry, plain, >>>-inverse,
}
use sultanc.Kernel.Layout.Termination.{count_unknown, count_unknown-set, count_unknown-visit}
use sultanc.Kernel.Layout.Grounded.{entry_at-set, Grounded, set-Grounded}
use sultanc.Kernel.Layout.Soundness.{store-Sound, layout_type-Sound}
use sultanc.Kernel.Layout.Depths.{
  Within, Open, Fit, Completes, answered, shallower, same_layout, given_or_not, deeper-Completes,
  wider-Completes,
}
use sultanc.Kernel.Layout.Parts.{
  layout_node-Completes, layout_slots-Completes, layout_constructors-Completes,
}

module _ (names : Names) (len : ℕ) where
  module _ (n bound : ℕ) (node : LayoutContext → AstType → LayoutStep)
      (noded : (c : LayoutContext) (t : AstType) (p : SizeAndAlignment)
        → Fit names len n bound c
        → plain n names t ≡ some p
        → Completes names len n bound c (node c t) p) where
    -- The entry `e` is marked in `c1` and was not being visited in `c`.
    module _ (c c1 : LayoutContext) (e : ℕ) (d : TypeDeclaration)
        (declared : names.declaration e ≡ some d)
        (marks : (i : ℕ)
          → (entry_at c1 i).state ≡ visiting
          → (i ≡ e) ⊎ ((entry_at c i).state ≡ visiting)) where
      store-Within :
          (x : LayoutContext) (s a : ℕ)
          → Within c1 x
          → Within c (set_entry x e (record { state = ready; size = s; alignment = a }))
      store-Within x s a within i v =
          elim (entry_at-set x e i (record { state = ready; size = s; alignment = a })) [
            | inl (p, new) ↦ absurd (cc (sym (ap (λ (y : LayoutEntry). y.state) new) ∙ v))
            | inr (old, outside) ↦
                let before : (entry_at x i).state ≡ visiting =
                  sym (ap (λ (y : LayoutEntry). y.state) old) ∙ v in
                elim (marks i (within i before)) [
                  | inl p ↦ absurd (cc (sym before ∙ outside p))
                  | inr was ↦ was
                ]
          ]

      store-Completes :
          (x : LayoutContext) (s a : ℕ) (p : SizeAndAlignment)
          → Fit names len n bound x
          → Within c1 x
          → Open names len n c
          → plain_body (plain n names) d.body ≡ some p
          → some (s, a) ≡ some p
          → Completes names len n bound c (store_layout e x s a) p
      store-Completes x s a p (g, o, (same, few)) within open_before body given =
          let stored : LayoutEntry = record { state = ready; size = s; alignment = a } in
          let within' = store-Within x s a within in
          let same_pair : (s, a) ≡ p = cc in
          (
            set_entry x e stored,
            ap (λ (y : SizeAndAlignment). (set_entry x e stored, laid_out y.0 y.1)) same_pair,
            (
              (store-Sound names e d declared x s a n g (body ∙ sym given)).0,
              λ i v. open_before i (within' i v),
              (
                length-set x.entries e stored ∙ same,
                omega (arith, few, count_unknown-set x.entries e stored),
              ),
            ),
            within',
          )

      layout_body-Completes :
          (body : DeclarationBody) (p : SizeAndAlignment)
          → d.body ≡ body
          → Fit names len n bound c1
          → Open names len n c
          → plain_body (plain n names) body ≡ some p
          → Completes names len n bound c (layout_body node c1 e body) p
      unfolding layout_body plain_body
      layout_body-Completes (alias_of target) p is f o h =
          let (x, e', f', within) = noded c1 target p f h in
          rw e' (store-Completes x p.0 p.1 p f' within o (rw is h) refl)
      layout_body-Completes (struct_of fields) p is f o h =
          let (s, a, first, last) =
            >>>-inverse (plain_slots (plain n names) (slot_types fields) 0 1) _ p h in
          let (x, e', f', within) =
            layout_slots-Completes names len n bound node noded c1 (slot_types fields) 0 1 (s, a) f
              first in
          rw e' (store-Completes x (align_up s a) a p f' within o (rw is h) last)
      layout_body-Completes (enum_of constructors) p is f o h =
          let (s, a, first, last) =
            >>>-inverse (plain_constructors (plain n names) constructors 0 1) _ p h in
          let (x, e', f', within) =
            layout_constructors-Completes names len n bound node noded c1 constructors 0 1 (s, a) f
              first in
          rw e' (store-Completes x (tagged_size s a) (larger a 8) p f' within o (rw is h) last)

  module _ (n fuel : ℕ) (node : LayoutContext → AstType → LayoutStep)
      (noded : (bound : ℕ) (c : LayoutContext) (t : AstType) (p : SizeAndAlignment)
        → bound < fuel
        → Fit names len n bound c
        → plain n names t ≡ some p
        → Completes names len n bound c (node c t) p)
      (there : (e : ℕ) (d : TypeDeclaration) → names.declaration e ≡ some d → e < len)
      (c : LayoutContext) (e : ℕ) (p : SizeAndAlignment)
      (given : plain_entry (suc n) names e ≡ some p) (above : plain_entry n names e ≡ none) where
    -- The entry is marked: it has no layout of the smaller depth.
    layout_mark-Completes :
        (bound : ℕ) (d : TypeDeclaration)
        → names.declaration e ≡ some d
        → (entry_at c e).state ≡ unknown
        → bound < suc fuel
        → Fit names len (suc n) bound c
        → Completes names len n bound c
            (layout_body node (set_entry c e (record (entry_at c e) { state = visiting })) e d.body)
            p
    unfolding plain_entry
    layout_mark-Completes zero d declared is lt (g, o, (same, few)) =
        let marked : LayoutEntry = record (entry_at c e) { state = visiting } in
        let step =
          count_unknown-visit c.entries e marked (omega (arith, same, there e d declared)) in
        absurd (omega (arith, rw is at step, few))
    layout_mark-Completes (suc bound) d declared is lt (g, o, (same, few)) =
        let marked : LayoutEntry = record (entry_at c e) { state = visiting } in
        let step =
          count_unknown-visit c.entries e marked (omega (arith, same, there e d declared)) in
        let shallow : Open names len n c = λ i v. shallower names len n i (o i v) in
        let body : plain_body (plain n names) d.body ≡ some p = rw declared at given in
        let marks : (i : ℕ)
            → (entry_at (set_entry c e marked) i).state ≡ visiting
            → (i ≡ e) ⊎ ((entry_at c i).state ≡ visiting) =
          λ i v. elim (entry_at-set c e i marked) [
            | inl (q, _) ↦ inl q
            | inr (old, _) ↦ inr (sym (ap (λ (y : LayoutEntry). y.state) old) ∙ v)
          ] in
        let opened : Open names len n (set_entry c e marked) = λ i v. elim (marks i v) [
          | inl q ↦ ap (λ (y : ℕ). plain_entry n names y) q ∙ above
          | inr was ↦ shallow i was
        ] in
        wider-Completes names len n bound c _ p (
          layout_body-Completes n bound node (λ c' t q f h. noded bound c' t q (omega arith) f h) c
            (set_entry c e marked) e d declared marks d.body p refl
            (
              set-Grounded names c e marked g (λ r. cc),
              opened,
              (length-set c.entries e marked ∙ same, omega (arith, rw is at step, few)),
            )
            shallow body)

    layout_visit-Completes :
        (bound : ℕ) (d : TypeDeclaration) (state : LayoutState)
        → names.declaration e ≡ some d
        → (entry_at c e).state ≡ state
        → bound < suc fuel
        → Fit names len (suc n) bound c
        → Completes names len (suc n) bound c (layout_visit node c e d.body (entry_at c e) state) p
    unfolding layout_visit
    layout_visit-Completes bound d ready declared is lt f =
        let (m, stored) = f.0 e is in
        answered names len (suc n) bound c _ _ p
          (same_layout names len (suc n) m e p _ given stored) f
    layout_visit-Completes bound d visiting declared is lt f = let no = f.1 e is in cc
    layout_visit-Completes bound d unknown declared is lt f =
        deeper-Completes names len n bound c _ p f.1
          (layout_mark-Completes bound d declared is lt f)

    layout_entry-Completes :
        (bound : ℕ) (o : Option TypeDeclaration)
        → names.declaration e ≡ o
        → bound < suc fuel
        → Fit names len (suc n) bound c
        → Completes names len (suc n) bound c (layout_entry node c e o) p
    unfolding layout_entry plain_entry
    layout_entry-Completes bound none declared lt f = let no = rw declared at given in cc
    layout_entry-Completes bound (some d) declared lt f =
        layout_visit-Completes bound d (entry_at c e).state declared refl lt f

  module _ (there : (e : ℕ) (d : TypeDeclaration) → names.declaration e ≡ some d → e < len) where
    layout_named_entry-Completes :
        (n fuel bound : ℕ) (c : LayoutContext) (e : ℕ) (p : SizeAndAlignment)
        → bound < fuel
        → Fit names len n bound c
        → plain_entry n names e ≡ some p
        → Completes names len n bound c (layout_named_entry fuel names c e) p
    unfolding layout_named_entry plain_entry
    layout_named_entry-Completes zero fuel bound c e p lt f h = cc
    layout_named_entry-Completes (suc n) zero bound c e p lt f h = absurd (omega arith)
    layout_named_entry-Completes (suc n) (suc fuel) bound c e p lt (g, o, held) h =
        elim (given_or_not names len (plain_entry n names e)) [
          | inl (q, is) ↦ deeper-Completes names len n bound c _ p o (
              layout_named_entry-Completes n (suc fuel) bound c e p lt
                (g, λ i v. shallower names len n i (o i v), held)
                (is ∙ same_layout names len (suc n) n e p q h is))
          | inr is ↦
              layout_entry-Completes n fuel (layout_node (layout_named_entry fuel names) names)
                (λ bound' c' t q lt' f' h'.
                  layout_node-Completes names len n bound' (layout_named_entry fuel names)
                    (λ c'' i r f'' h''.
                      layout_named_entry-Completes n fuel bound' c'' i r lt' f'' h'')
                    c' t q f' h')
                there c e p h is bound (names.declaration e) refl lt (g, o, held)
        ]

    pub layout_type-Completes :
        (n fuel : ℕ) (c : LayoutContext) (t : AstType) (p : SizeAndAlignment)
        → count_unknown c.entries < fuel
        → length c.entries ≡ len
        → Grounded names c
        → ((e : ℕ) → (entry_at c e).state ≢ visiting)
        → plain n names t ≡ some p
        → (layout_type fuel names c t).1 ≡ laid_out p.0 p.1
    unfolding layout_type
    layout_type-Completes n fuel c t p lt same g unvisited h =
        let (c', answer, _, _) =
          layout_node-Completes names len n (count_unknown c.entries)
            (layout_named_entry fuel names)
            (λ c'' e q f' h'.
              layout_named_entry-Completes n fuel (count_unknown c.entries) c'' e q lt f' h')
            c t p (g, λ e v. absurd (unvisited e v), (same, omega arith)) h in
        ap (λ (x : LayoutStep). x.1) answer

-- For a context whose entries that are ready store the layouts of their declarations, with no visit open
-- and every declared entry in it, and with more fuel than there are entries to visit, `layout_type`
-- answers a size and an alignment exactly when the declarations alone give them at some depth, and the
-- entries that are ready afterwards store the layouts of their declarations too.
pub layout_type_iff :
    (fuel : ℕ) (names : Names) (c : LayoutContext) (t : AstType) (size alignment : ℕ)
    → ((e : ℕ) (d : TypeDeclaration) → names.declaration e ≡ some d → e < length c.entries)
    → count_unknown c.entries < fuel
    → Grounded names c
    → ((e : ℕ) → (entry_at c e).state ≢ visiting)
    → (((layout_type fuel names c t).1 ≡ laid_out size alignment)
        ↔ ((depth : ℕ) × (plain depth names t ≡ some (size, alignment))))
      × Grounded names (layout_type fuel names c t).0
layout_type_iff fuel names c t size alignment there lt g unvisited =
    let sound = layout_type-Sound names fuel c t g in
    (
      (
        λ e. rw e at sound.1,
        λ (n, h).
            layout_type-Completes names (length c.entries) there n fuel c t (size, alignment) lt
              refl g unvisited h,
      ),
      sound.0,
    )
