-- ===== src/Kernel/Layout/Parts.antt =====
-- The parts of a type and of a declaration are laid out where the declarations give their layouts.
use sultanc.Prelude.{ℕ, ◌≡◌, Option, none, some, List, [], ◌∷◌}
use sultanc.Frontend.Ast.{AstType, missing, option, result, named, mutable_of, EnumConstructor}
use sultanc.Kernel.Names.{Names}
use sultanc.Kernel.Layout.{
  LayoutContext, LayoutStep, layout_name, layout_node, layout_slots, layout_constructors,
}
use sultanc.Kernel.Layout.Known.{SizeAndAlignment}
use sultanc.Kernel.Layout.Plain.{
  plain_name, plain_type, plain_slots, plain_constructors, plain_entry, plain, >>>-inverse,
}
use sultanc.Kernel.Layout.Depths.{Fit, Completes, answered, Completes-bind}

module _ (names : Names) (len : ℕ) where
  module _ (n bound : ℕ) (enter : LayoutContext → ℕ → LayoutStep)
      (entered : (c : LayoutContext) (e : ℕ) (p : SizeAndAlignment)
        → Fit names len n bound c
        → plain_entry n names e ≡ some p
        → Completes names len n bound c (enter c e) p) where
    pub layout_name-Completes :
        (c : LayoutContext) (o : Option ℕ) (p : SizeAndAlignment)
        → Fit names len n bound c
        → plain_name (plain_entry n names) o ≡ some p
        → Completes names len n bound c (layout_name enter c o) p
    unfolding layout_name
    layout_name-Completes c none p f h = cc
    layout_name-Completes c (some e) p f h = entered c e p f h

    pub layout_node-Completes :
        (c : LayoutContext) (t : AstType) (p : SizeAndAlignment)
        → Fit names len n bound c
        → plain n names t ≡ some p
        → Completes names len n bound c (layout_node enter names c t) p
    unfolding layout_node plain_type
    layout_node-Completes c missing p f h = cc
    layout_node-Completes c (option t) p f h =
        let (s, a, first, last) = >>>-inverse (plain n names t) _ p h in
        Completes-bind names len n bound c (layout_node enter names c t) _ (s, a) p
          (layout_node-Completes c t (s, a) f first)
          (λ c' f'. answered names len n bound c' _ _ p last f')
    layout_node-Completes c (result ok error) p f h =
        let (s, a, first, rest) = >>>-inverse (plain n names ok) _ p h in
        let (s', a', second, last) = >>>-inverse (plain n names error) _ p rest in
        Completes-bind names len n bound c (layout_node enter names c ok) _ (s, a) p
          (layout_node-Completes c ok (s, a) f first)
          (λ c' f'.
            Completes-bind names len n bound c' (layout_node enter names c' error) _ (s', a') p
              (layout_node-Completes c' error (s', a') f' second)
              (λ c'' f''. answered names len n bound c'' _ _ p last f''))
    layout_node-Completes c (named address name arguments) p f h =
        layout_name-Completes c (names.resolve_named_entry (named address name arguments)) p f h
    layout_node-Completes c (mutable_of t) p f h = layout_node-Completes c t p f h
    layout_node-Completes c _ p f h = answered names len n bound c _ _ p h f

  module _ (n bound : ℕ) (node : LayoutContext → AstType → LayoutStep)
      (noded : (c : LayoutContext) (t : AstType) (p : SizeAndAlignment)
        → Fit names len n bound c
        → plain n names t ≡ some p
        → Completes names len n bound c (node c t) p) where
    pub layout_slots-Completes :
        (c : LayoutContext) (ts : List AstType) (size alignment : ℕ) (p : SizeAndAlignment)
        → Fit names len n bound c
        → plain_slots (plain n names) ts size alignment ≡ some p
        → Completes names len n bound c (layout_slots node c ts size alignment) p
    unfolding layout_slots plain_slots
    layout_slots-Completes c [] size alignment p f h =
        answered names len n bound c size alignment p h f
    layout_slots-Completes c (t ∷ ts) size alignment p f h =
        let (s, a, first, rest) = >>>-inverse (plain n names t) _ p h in
        Completes-bind names len n bound c (node c t) _ (s, a) p (noded c t (s, a) f first)
          (λ c' f'. layout_slots-Completes c' ts _ _ p f' rest)

    pub layout_constructors-Completes :
        (c : LayoutContext) (ks : List EnumConstructor) (size alignment : ℕ) (p : SizeAndAlignment)
        → Fit names len n bound c
        → plain_constructors (plain n names) ks size alignment ≡ some p
        → Completes names len n bound c (layout_constructors node c ks size alignment) p
    unfolding layout_constructors plain_constructors
    layout_constructors-Completes c [] size alignment p f h =
        answered names len n bound c size alignment p h f
    layout_constructors-Completes c (k ∷ ks) size alignment p f h =
        let (s, a, first, rest) =
          >>>-inverse (plain_slots (plain n names) k.payload_slots 0 1) _ p h in
        Completes-bind names len n bound c (layout_slots node c k.payload_slots 0 1) _ (s, a) p
          (layout_slots-Completes c k.payload_slots 0 1 (s, a) f first)
          (λ c' f'. layout_constructors-Completes c' ks _ _ p f' rest)
