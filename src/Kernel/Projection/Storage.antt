-- ===== src/Kernel/Projection/Storage.antt =====
-- The storage of an enum is that of its layout.
use sultanc.Prelude.{ℕ, suc, ◌≡◌, ap, ◌∙◌, arith, Option, some, List}
use sultanc.Frontend.Ast.{EnumConstructor, DeclarationBody, enum_of, TypeDeclaration}
use sultanc.Kernel.Names.{Names}
use sultanc.Kernel.Layout.{
  ready, LayoutEntry, LayoutContext, laid_out, entry_at, larger, tagged_size, layout_named_entry,
}
use sultanc.Kernel.Layout.Known.{known_entry, known_body, known_constructors}
use sultanc.Kernel.Layout.Refinement.{IsConsistent}
use sultanc.Kernel.Projection.{
  projected, storage_of, storage_of_body, storage_of_declaration, layout_tagged_entry_storage,
}
use sultanc.Kernel.Projection.Memo.{>>>-some, layout_named_entry_known, layout_constructors_known}

known_entry-ready :
    (x : LayoutEntry) (s a : ℕ)
    → x.state ≡ ready
    → x.size ≡ s
    → x.alignment ≡ a
    → known_entry x x.state ≡ some (s, a)
known_entry-ready x s a p q r = ground arith

module _ (names : Names) (len : ℕ) (c : LayoutContext) (h : IsConsistent names len c) (e : ℕ)
    (d : TypeDeclaration) (constructors : List EnumConstructor)
    (declared : names.declaration e ≡ some d) (enum : d.body ≡ enum_of constructors)
    (is_ready : (entry_at c e).state ≡ ready) where
  enum_known :
      (m : ℕ) × (a : ℕ) × (known_constructors names c constructors 0 1 ≡ some (m, a))
      × ((entry_at c e).size ≡ tagged_size m a)
      × ((entry_at c e).alignment ≡ larger a 8)
  unfolding known_body
  enum_known =
      let (d', declared', size) = h.1 e is_ready in
      let same : d' ≡ d = cc in
      let body : d'.body ≡ enum_of constructors =
        ap (λ (x : TypeDeclaration). x.body) same ∙ enum in
      let size' = rw body at size in
      let (m, a, k, s) = >>>-some (known_constructors names c constructors 0 1) _ _ size' in
      (m, a, k, cc, cc)

  storage_of_body-agrees :
      (fuel m a : ℕ)
      → known_constructors names c constructors 0 1 ≡ some (m, a)
      → layout_named_entry (suc fuel) names c e ≡ (c, laid_out (tagged_size m a) (larger a 8))
      → storage_of_body (suc fuel) names c e (enum_of constructors)
        ≡ (c, projected (storage_of m a))
  unfolding storage_of_body
  storage_of_body-agrees fuel m a k again =
      rw (layout_constructors_known names len c h fuel constructors 0 1 m a k, again) (ground arith)

  -- Once an enum has a layout, its storage is answered, and the size and the alignment of the storage
  -- are those of the layout: the test at the end of `layout_tagged_entry_storage` refuses no enum.
  pub layout_tagged_entry_storage-agrees :
      (fuel : ℕ)
      → (m : ℕ) × (a : ℕ) × (layout_tagged_entry_storage (suc fuel) names c e
          ≡ (c, projected (storage_of m a)))
        × (layout_named_entry (suc fuel) names c e ≡ (c, laid_out (tagged_size m a) (larger a 8)))
  unfolding layout_tagged_entry_storage
  layout_tagged_entry_storage-agrees fuel =
      let (m, a, k, s, t) = enum_known in
      let again : layout_named_entry (suc fuel) names c e
          ≡ (c, laid_out (tagged_size m a) (larger a 8)) =
        layout_named_entry_known names len c h fuel e (tagged_size m a) (larger a 8)
          (known_entry-ready (entry_at c e) (tagged_size m a) (larger a 8) is_ready s t) in
      (
        m,
        a,
        ap (λ (x : Option TypeDeclaration). storage_of_declaration (suc fuel) names c e x) declared
            ∙ ap (λ (x : DeclarationBody). storage_of_body (suc fuel) names c e x) enum
            ∙ storage_of_body-agrees fuel m a k again,
        again,
      )
