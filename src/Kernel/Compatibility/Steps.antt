-- ===== src/Kernel/Compatibility/Steps.antt =====
-- The comparison of two resolved types keeps the symmetry and the transitivity of the comparison that
-- it calls.
use sultanc.Prelude.{
  ℕ, true, ◌≡◌, refl, sym, ap, ◌∙◌, arith, ◌==◌, ==_iff, inl, inr, Bool-cases, get_or, [], ◌∷◌, ◌↔◌,
  Option, none, some,
}
use sultanc.Frontend.Ast.{AstType, result, AstTypes, no_types, type_then}
use sultanc.Kernel.Types.{
  Kind, unknown_kind, boolean_kind, signed_integer_kind, unsigned_integer_kind, float_kind,
  character_kind, string_kind, pointer_kind, reference_kind, vector_kind, box_kind, option_kind,
  result_kind, function_kind, struct_kind, enum_kind, void_kind, kind_value, ResolvedType,
}
use sultanc.Kernel.Compatibility.{
  Verdict, agree, differ, confused, out_of_fuel, and_then, verdict, same_entry, count_types,
  compare_parameters, compare_results, compare_kind, compare_resolved,
}

kind_at : ℕ → Kind
kind_at n =
    get_or
      (unknown_kind ∷ boolean_kind ∷ signed_integer_kind ∷ unsigned_integer_kind ∷ float_kind
        ∷ character_kind ∷ string_kind ∷ pointer_kind ∷ reference_kind ∷ vector_kind ∷ box_kind
        ∷ option_kind ∷ result_kind ∷ function_kind ∷ struct_kind ∷ enum_kind ∷ void_kind ∷ [])
      n void_kind

kind_at-value : (k : Kind) → kind_at (kind_value k) ≡ k
unfolding kind_at
kind_at-value unknown_kind = refl
kind_at-value boolean_kind = refl
kind_at-value signed_integer_kind = refl
kind_at-value unsigned_integer_kind = refl
kind_at-value float_kind = refl
kind_at-value character_kind = refl
kind_at-value string_kind = refl
kind_at-value pointer_kind = refl
kind_at-value reference_kind = refl
kind_at-value vector_kind = refl
kind_at-value box_kind = refl
kind_at-value option_kind = refl
kind_at-value result_kind = refl
kind_at-value function_kind = refl
kind_at-value struct_kind = refl
kind_at-value enum_kind = refl
kind_at-value void_kind = refl

kind_value-injective : (j k : Kind) → kind_value j ≡ kind_value k → j ≡ k
kind_value-injective j k e = sym (kind_at-value j) ∙ ap kind_at e ∙ kind_at-value k

pub and_then-agree : (v w : Verdict) → and_then v w ≡ agree → (v ≡ agree) × (w ≡ agree)
and_then-agree agree w h = (refl, h)
and_then-agree differ w h = cc
and_then-agree confused w h = cc
and_then-agree out_of_fuel w h = cc

same_entry-eq : (a b : Option ℕ) → verdict (same_entry a b) ≡ agree → a ≡ b
same_entry-eq none none h = refl
same_entry-eq none (some b) h = cc
same_entry-eq (some a) none h = cc
same_entry-eq (some a) (some b) h = ground arith

same_entry_self : (a : Option ℕ) → same_entry a a ≡ true
same_entry_self none = refl
same_entry_self (some a) = ground arith

-- What compatibility of two resolved types says of their records.
abbrev pub SameRecords :
    (AstType → AstType → Verdict) → AstType → AstType → ResolvedType → ResolvedType → Type 0
SameRecords again l r a b = (a.kind ≡ b.kind) × (compare_kind again l r a b a.kind ≡ agree)

pub compare_resolved-agree :
    (again : AstType → AstType → Verdict) (l r : AstType) (a b : ResolvedType)
    → (compare_resolved again l r a b ≡ agree) ↔ SameRecords again l r a b
unfolding compare_resolved
compare_resolved-agree again l r a b = elim (Bool-cases (kind_value a.kind == kind_value b.kind)) [
  | inl same ↦
      rw same (λ h. (kind_value-injective a.kind b.kind ((==_iff _ _).0 same), h), λ h. h.1)
  | inr other ↦
      rw other
        (λ h. cc, λ h. cc ((==_iff (kind_value a.kind) (kind_value b.kind)).1 (ap kind_value h.0)))
]

module _ (again : AstType → AstType → Verdict)
    (again_symm : (t u : AstType) → again t u ≡ agree → again u t ≡ agree) where
  compare_parameters_symm :
      (ts us : AstTypes)
      → compare_parameters again ts us ≡ agree
      → compare_parameters again us ts ≡ agree
  unfolding compare_parameters
  compare_parameters_symm no_types no_types h = refl
  compare_parameters_symm no_types (type_then u us) h = refl
  compare_parameters_symm (type_then t ts) no_types h = refl
  compare_parameters_symm (type_then t ts) (type_then u us) h =
      let (first, later) = and_then-agree (again t u) (compare_parameters again ts us) h in
      rw (again_symm t u first) (compare_parameters_symm ts us later)

  compare_results_symm :
      (l r : AstType) → compare_results again l r ≡ agree → compare_results again r l ≡ agree
  unfolding compare_results
  compare_results_symm (result ok error) (result ok' error') h =
      let (first, later) = and_then-agree (again ok ok') (again error error') h in
      rw (again_symm ok ok' first) (again_symm error error' later)
  compare_results_symm _ _ h = cc

  compare_kind_symm :
      (l r : AstType) (a b : ResolvedType) (k : Kind)
      → compare_kind again l r a b k ≡ agree
      → compare_kind again r l b a k ≡ agree
  unfolding compare_kind
  compare_kind_symm l r a b signed_integer_kind h = ground arith
  compare_kind_symm l r a b unsigned_integer_kind h = ground arith
  compare_kind_symm l r a b float_kind h = ground arith
  compare_kind_symm l r a b pointer_kind h = again_symm a.inner b.inner h
  compare_kind_symm l r a b reference_kind h = ground (arith, again_symm a.inner b.inner)
  compare_kind_symm l r a b box_kind h = again_symm a.inner b.inner h
  compare_kind_symm l r a b option_kind h = again_symm a.inner b.inner h
  compare_kind_symm l r a b vector_kind h = again_symm a.inner b.inner h
  compare_kind_symm l r a b result_kind h = compare_results_symm l r h
  compare_kind_symm l r a b function_kind h = ground (
    arith,
    and_then-agree (compare_parameters again a.parameters b.parameters) (again a.output b.output),
    compare_parameters_symm a.parameters b.parameters,
    again_symm a.output b.output,
  )
  compare_kind_symm l r a b struct_kind h =
      let e = same_entry-eq a.named_entry b.named_entry h in rw (e, same_entry_self b.named_entry)
  compare_kind_symm l r a b enum_kind h =
      let e = same_entry-eq a.named_entry b.named_entry h in rw (e, same_entry_self b.named_entry)
  compare_kind_symm l r a b _ h = refl

  pub compare_resolved_symm :
      (l r : AstType) (a b : ResolvedType)
      → compare_resolved again l r a b ≡ agree
      → compare_resolved again r l b a ≡ agree
  unfolding compare_kind
  compare_resolved_symm l r a b h =
      let (same, kinds) = (compare_resolved-agree again l r a b).0 h in
      (compare_resolved-agree again r l b a).1
        (sym same, compare_kind_symm l r a b b.kind (rw same at kinds))

module _ (again : AstType → AstType → Verdict)
    (again_trans : (t u v : AstType)
      → again t u ≡ agree
      → again u v ≡ agree
      → again t v ≡ agree) where
  compare_parameters_trans :
      (ts us vs : AstTypes)
      → count_types ts ≡ count_types us
      → compare_parameters again ts us ≡ agree
      → compare_parameters again us vs ≡ agree
      → compare_parameters again ts vs ≡ agree
  unfolding compare_parameters
  compare_parameters_trans no_types us vs e h k = refl
  compare_parameters_trans (type_then t ts) no_types vs e h k = absurd (omega arith)
  compare_parameters_trans (type_then t ts) (type_then u us) no_types e h k = refl
  compare_parameters_trans (type_then t ts) (type_then u us) (type_then v vs) e h k =
      let (first, later) = and_then-agree (again t u) (compare_parameters again ts us) h in
      let (first', later') = and_then-agree (again u v) (compare_parameters again us vs) k in
      rw (again_trans t u v first first')
        (compare_parameters_trans ts us vs (omega arith) later later')

  compare_results_trans :
      (l m r : AstType)
      → compare_results again l m ≡ agree
      → compare_results again m r ≡ agree
      → compare_results again l r ≡ agree
  unfolding compare_results
  compare_results_trans (result ok error) (result ok' error') (result ok'' error'') h k =
      let (first, later) = and_then-agree (again ok ok') (again error error') h in
      let (first', later') = and_then-agree (again ok' ok'') (again error' error'') k in
      rw (again_trans ok ok' ok'' first first') (again_trans error error' error'' later later')
  compare_results_trans _ _ _ h k = cc

  compare_kind_trans :
      (l m r : AstType) (a b c : ResolvedType) (k : Kind)
      → compare_kind again l m a b k ≡ agree
      → compare_kind again m r b c k ≡ agree
      → compare_kind again l r a c k ≡ agree
  unfolding compare_kind
  compare_kind_trans l m r a b c signed_integer_kind h h' = ground arith
  compare_kind_trans l m r a b c unsigned_integer_kind h h' = ground arith
  compare_kind_trans l m r a b c float_kind h h' = ground arith
  compare_kind_trans l m r a b c pointer_kind h h' = again_trans a.inner b.inner c.inner h h'
  compare_kind_trans l m r a b c reference_kind h h' =
      ground (arith, again_trans a.inner b.inner c.inner)
  compare_kind_trans l m r a b c box_kind h h' = again_trans a.inner b.inner c.inner h h'
  compare_kind_trans l m r a b c option_kind h h' = again_trans a.inner b.inner c.inner h h'
  compare_kind_trans l m r a b c vector_kind h h' = again_trans a.inner b.inner c.inner h h'
  compare_kind_trans l m r a b c result_kind h h' = compare_results_trans l m r h h'
  compare_kind_trans l m r a b c function_kind h h' = ground (
    arith,
    and_then-agree (compare_parameters again a.parameters b.parameters) (again a.output b.output),
    and_then-agree (compare_parameters again b.parameters c.parameters) (again b.output c.output),
    compare_parameters_trans a.parameters b.parameters c.parameters,
    again_trans a.output b.output c.output,
  )
  compare_kind_trans l m r a b c struct_kind h h' =
      let e = same_entry-eq a.named_entry b.named_entry h in rw e h'
  compare_kind_trans l m r a b c enum_kind h h' =
      let e = same_entry-eq a.named_entry b.named_entry h in rw e h'
  compare_kind_trans l m r a b c _ h h' = refl

  pub compare_resolved_trans :
      (l m r : AstType) (a b c : ResolvedType)
      → compare_resolved again l m a b ≡ agree
      → compare_resolved again m r b c ≡ agree
      → compare_resolved again l r a c ≡ agree
  unfolding compare_kind
  compare_resolved_trans l m r a b c h h' =
      let (same, kinds) = (compare_resolved-agree again l m a b).0 h in
      let (same', kinds') = (compare_resolved-agree again m r b c).0 h' in
      (compare_resolved-agree again l r a c).1
        (same ∙ same', compare_kind_trans l m r a b c a.kind kinds (rw (← same) at kinds'))
