-- ===== src/Kernel/Ownership/Resolving.antt =====
-- What the resolution of a type says of its owners and its parts.
use sultanc.Prelude.{
  ℕ, zero, suc, ◌≡◌, ◌≢◌, refl, Bool, true, false, Option, none, some, List, ◌⊎◌, inl, inr,
}
use sultanc.Frontend.Ast.{
  MachineType, machine_i8, AstType, AstTypes, missing, machine, string, box, named, vector,
  mutable_of, StructField, EnumConstructor, DeclarationBody, struct_of, enum_of, alias_of,
}
use sultanc.Kernel.Names.{Names}
use sultanc.Kernel.Types.{
  struct_kind, enum_kind, ResolvedType, blank, unwrap_mutable, is_mutable_node, Resolution,
  resolved, resolve, resolve_base,
}
use sultanc.Kernel.Ownership.{resolved_parts, is_owner_kind}
use sultanc.Kernel.Ownership.Parts.{Among}
use sultanc.Kernel.Ownership.Owning.{
  Declares, IsOwner, box_owner, vector_owner, text_owner, mutable_owner, alias_owner, IsPart,
  option_part, ok_part, error_part, mutable_part, alias_part, field_part, payload_part,
  IsLookedInto, HidesNothing,
}

pub unwrap-IsOwner :
    (names : Names) (t : AstType) → IsOwner names (unwrap_mutable t) → IsOwner names t
unfolding unwrap_mutable
unwrap-IsOwner names (mutable_of t) h = mutable_owner t (unwrap-IsOwner names t h)
unwrap-IsOwner names _ h = h

pub unwrap-IsPart :
    (names : Names) (u t : AstType) → IsPart names u (unwrap_mutable t) → IsPart names u t
unfolding unwrap_mutable
unwrap-IsPart names u (mutable_of t) h = mutable_part t (unwrap-IsPart names u t h)
unwrap-IsPart names u _ h = h

Option-cases : {A : Type 0} (o : Option A) → ((a : A) × (o ≡ some a)) ⊎ (o ≡ none)
Option-cases none = inr refl
Option-cases (some a) = inl (a, refl)

body_cases :
    (body : DeclarationBody)
    → ((target : AstType) × (body ≡ alias_of target))
      ⊎ (((fields : List StructField) × (body ≡ struct_of fields))
          ⊎ ((constructors : List EnumConstructor) × (body ≡ enum_of constructors)))
body_cases (alias_of target) = inl (target, refl)
body_cases (struct_of fields) = inr (inl (fields, refl))
body_cases (enum_of constructors) = inr (inr (constructors, refl))

module _ (names : Names) where
  -- What the record of a resolution says is so.
  abbrev pub Means : AstType → ResolvedType → Type 0
  Means t a =
      (is_owner_kind a ≡ true → IsOwner names t)
      × ((u : AstType) → Among u (resolved_parts names a) → IsPart names u t)

  Means-same : (t : AstType) (x a : ResolvedType) → resolved x ≡ resolved a → Means t x → Means t a
  Means-same t x a e m = let same : x ≡ a = cc in rw (← same) m

  module _ (again : AstType → Resolution)
      (meant : (t : AstType) (a : ResolvedType) → again t ≡ resolved a → Means t a) where
    machine-Means :
        (k : MachineType) (m : Bool) (a : ResolvedType)
        → resolve_base again names (machine k) m ≡ resolved a
        → Means (machine k) a
    unfolding resolve_base
    machine-Means machine_i8 m a h = Means-same _ _ a h (λ e. cc, λ u i. elim i [ ])
    machine-Means _ m a h = Means-same _ _ a h (λ e. cc, λ u i. elim i [ ])

    named-Means :
        (address : ℕ) (name : List ℕ) (arguments : AstTypes) (m : Bool) (a : ResolvedType)
        → resolve_base again names (named address name arguments) m ≡ resolved a
        → Means (named address name arguments) a
    unfolding resolve_base
    named-Means address name arguments m a h =
        elim (Option-cases (names.resolve_named_entry (named address name arguments))) [
          | inr absent ↦ let h' = rw absent at h in cc
          | inl (e, found) ↦ elim (Option-cases (names.declaration e)) [
            | inr absent ↦ let h' = rw (found, absent) at h in cc
            | inl (d, known) ↦ elim (body_cases d.body) [
              | inl (target, is) ↦
                  let (owner, part) = meant target a (rw (found, known, is) at h) in
                  let declares : Declares names (named address name arguments) (alias_of target) =
                    (e, d, found, known, is) in
                  (
                    λ k. alias_owner address name arguments target declares (owner k),
                    λ u i. alias_part address name arguments target declares (part u i),
                  )
              | inr (inl (fields, is)) ↦ Means-same _ _ a (rw (found, known, is) at h) (
                λ k. cc,
                λ u i.
                    field_part address name arguments fields (e, d, found, known, is)
                      (rw (known, is) at i),
              )
              | inr (inr (constructors, is)) ↦ Means-same _ _ a (rw (found, known, is) at h) (
                λ k. cc,
                λ u i.
                    payload_part address name arguments constructors (e, d, found, known, is)
                      (rw (known, is) at i),
              )
            ]
          ]
        ]

    base-Means :
        (b : AstType) (m : Bool) (a : ResolvedType)
        → resolve_base again names b m ≡ resolved a
        → Means b a
    unfolding resolve_base
    base-Means (named address name arguments) m a h = named-Means address name arguments m a h
    base-Means (machine k) m a h = machine-Means k m a h
    base-Means missing m a h = cc
    base-Means (mutable_of t) m a h = cc
    base-Means string m a h = Means-same _ _ a h (λ k. text_owner, λ u i. elim i [ ])
    base-Means (box t) m a h = Means-same _ _ a h (λ k. box_owner t, λ u i. elim i [ ])
    base-Means (vector t) m a h = Means-same _ _ a h (λ k. vector_owner t, λ u i. elim i [ ])
    base-Means _ m a h = Means-same _ _ a h (λ k. cc, λ u i. elim i [ ])

  pub resolve-Means :
      (rounds : ℕ) (t : AstType) (a : ResolvedType)
      → resolve rounds names t ≡ resolved a
      → Means t a
  unfolding resolve
  resolve-Means zero t a h = cc
  resolve-Means (suc rounds) t a h =
      let (owner, part) =
        base-Means (resolve rounds names) (resolve-Means rounds) (unwrap_mutable t)
          (is_mutable_node t) a h in
      (λ k. unwrap-IsOwner names t (owner k), λ u i. unwrap-IsPart names u t (part u i))

  -- An owner is resolved to a record of an owner's kind.
  owner_resolved :
      (rounds : ℕ) (t : AstType) (m : Bool)
      → IsOwner names t
      → resolve_base (resolve rounds names) names (unwrap_mutable t) m ≢ Resolution.out_of_fuel
      → (a : ResolvedType) × (resolve_base (resolve rounds names) names (unwrap_mutable t) m
          ≡ resolved a)
        × (is_owner_kind a ≡ true)
  unfolding resolve_base unwrap_mutable resolve
  owner_resolved rounds _ m (box_owner t) ends = (_, refl, refl)
  owner_resolved rounds _ m (vector_owner t) ends = (_, refl, refl)
  owner_resolved rounds _ m text_owner ends = (_, refl, refl)
  owner_resolved rounds _ m (mutable_owner t h) ends = owner_resolved rounds t m h ends
  owner_resolved zero _ m (alias_owner address name arguments target (e, d, found, known, is) h)
        ends =
      absurd (ends (rw (found, known, is) refl))
  owner_resolved (suc rounds) _ m
        (alias_owner address name arguments target (e, d, found, known, is) h) ends =
      let (a, same, owner) =
        owner_resolved rounds target (is_mutable_node target) h (rw (found, known, is) at ends) in
      (a, rw (found, known, is) same, owner)

  part_resolved :
      HidesNothing names
      → (u : AstType) (rounds : ℕ) (t : AstType) (m : Bool) → IsPart names u t
      → IsLookedInto (unwrap_mutable t)
      → resolve_base (resolve rounds names) names (unwrap_mutable t) m ≢ Resolution.out_of_fuel
      → (a : ResolvedType) × (resolve_base (resolve rounds names) names (unwrap_mutable t) m
          ≡ resolved a)
        × (is_owner_kind a ≡ false)
        × Among u (resolved_parts names a)
  unfolding resolve_base unwrap_mutable resolve
  part_resolved hides u rounds _ m option_part looked ends = absurd looked
  part_resolved hides u rounds _ m (ok_part error) looked ends = absurd looked
  part_resolved hides u rounds _ m (error_part ok) looked ends = absurd looked
  part_resolved hides u rounds _ m (mutable_part t h) looked ends =
      part_resolved hides u rounds t m h looked ends
  part_resolved hides u zero _ m
        (alias_part address name arguments target (e, d, found, known, is) h) looked ends =
      absurd (ends (rw (found, known, is) refl))
  part_resolved hides u (suc rounds) _ m
        (alias_part address name arguments target (e, d, found, known, is) h) looked ends =
      let (a, same, other, among) =
        part_resolved hides u rounds target (is_mutable_node target) h
          (hides (named address name arguments) target (e, d, found, known, is))
          (rw (found, known, is) at ends) in
      (a, rw (found, known, is) same, other, among)
  part_resolved hides u rounds _ m
        (field_part address name arguments fields (e, d, found, known, is) i) looked ends =
      (
        record (blank (named address name arguments) m) {
          named_entry = some e;
          kind = struct_kind;
        },
        rw (found, known, is) refl,
        refl,
        rw (known, is) i,
      )
  part_resolved hides u rounds _ m
        (payload_part address name arguments constructors (e, d, found, known, is) i) looked ends =
      (
        record (blank (named address name arguments) m) { named_entry = some e; kind = enum_kind },
        rw (found, known, is) refl,
        refl,
        rw (known, is) i,
      )

  pub owner_resolves :
      (rounds : ℕ) (t : AstType)
      → IsOwner names t
      → resolve rounds names t ≢ Resolution.out_of_fuel
      → (a : ResolvedType) × (resolve rounds names t ≡ resolved a) × (is_owner_kind a ≡ true)
  unfolding resolve
  owner_resolves zero t h ends = absurd (ends refl)
  owner_resolves (suc rounds) t h ends = owner_resolved rounds t (is_mutable_node t) h ends

  pub part_resolves :
      HidesNothing names
      → (rounds : ℕ) (t u : AstType) → IsPart names u t
      → IsLookedInto (unwrap_mutable t)
      → resolve rounds names t ≢ Resolution.out_of_fuel
      → (a : ResolvedType) × (resolve rounds names t ≡ resolved a)
        × (is_owner_kind a ≡ false)
        × Among u (resolved_parts names a)
  unfolding resolve
  part_resolves hides zero t u h looked ends = absurd (ends refl)
  part_resolves hides (suc rounds) t u h looked ends =
      part_resolved hides u rounds t (is_mutable_node t) h looked ends
