-- ===== src/Kernel/Ownership/Exact.antt =====
-- What the search finds, by the parts that it looks at, and the types that are nested too deep for it.
use sultanc.Prelude.{
  ℕ, zero, suc, ◌≡◌, ◌≢◌, refl, Bool, true, false, Bool-cases, inl, inr, ◌⊎◌, ◌↔◌, List, [], ◌∷◌,
  if◌then◌else◌, ◌||◌,
}
use sultanc.Frontend.Ast.{AstType, option, result, named}
use sultanc.Kernel.Names.{Names}
use sultanc.Kernel.Types.{ResolvedType, unwrap_mutable, Resolution, unresolved, resolved, resolve}
use sultanc.Kernel.Compatibility.{Verdict, agree}
use sultanc.Kernel.Ownership.{
  resolved_parts, search_resolved, search_base, search_type, is_owner_node, is_owner_kind,
  depth_limit, type_is_owned,
}
use sultanc.Kernel.Ownership.Parts.{
  Among, first, later, Settled, or_else-agree, or_else-Settled, agree-or_else, any_part-agree,
  any_part-Settled, agree-any_part,
}

abbrev pub resolution_direct : (ResolvedType → Bool) → Resolution → Bool
resolution_direct kind (resolved a) = kind a
resolution_direct kind _ = false

abbrev pub resolution_parts : (ResolvedType → Bool) → Names → Resolution → List AstType
resolution_parts kind names (resolved a) = if kind a then [] else resolved_parts names a
resolution_parts kind names _ = []

-- What a base is by itself, and the types that it holds.
abbrev pub base_direct : (ResolvedType → Bool) → ℕ → Names → AstType → Bool
base_direct kind rounds names (named address name arguments) =
    resolution_direct kind (resolve rounds names (named address name arguments))
base_direct kind rounds names _ = false

abbrev pub base_parts : (ResolvedType → Bool) → ℕ → Names → AstType → List AstType
base_parts kind rounds names (option t) = t ∷ []
base_parts kind rounds names (result ok error) = ok ∷ error ∷ []
base_parts kind rounds names (named address name arguments) =
    resolution_parts kind names (resolve rounds names (named address name arguments))
base_parts kind rounds names _ = []

-- A type is what is looked for, or one of the parts that the search looks at holds it.
pub data Holds (node : AstType → Bool) (kind : ResolvedType → Bool) (rounds : ℕ) (names : Names)
    : AstType → Type 0 where
  direct :
      (t : AstType)
      → (node (unwrap_mutable t) || base_direct kind rounds names (unwrap_mutable t)) ≡ true
      → Holds node kind rounds names t
  inside :
      (t u : AstType)
      → Among u (base_parts kind rounds names (unwrap_mutable t))
      → Holds node kind rounds names u
      → Holds node kind rounds names t

-- A chain of parts of a length starts at the type.
abbrev pub Nested : (ResolvedType → Bool) → ℕ → Names → ℕ → AstType → Type 0
Nested kind rounds names zero t = Unit {0}
Nested kind rounds names (suc depth) t =
    (u : AstType) × Among u (base_parts kind rounds names (unwrap_mutable t))
    × Nested kind rounds names depth u

module _ (node : AstType → Bool) (kind : ResolvedType → Bool) (rounds : ℕ) (names : Names) where
  module _ (again : AstType → Verdict) where
    resolved-agree :
        (r : Resolution)
        → search_resolved node kind rounds names again r ≡ agree
        → (resolution_direct kind r ≡ true)
          ⊎ ((u : AstType) × Among u (resolution_parts kind names r) × (again u ≡ agree))
    unfolding search_resolved
    resolved-agree unresolved h = cc
    resolved-agree Resolution.out_of_fuel h = cc
    resolved-agree (resolved a) h = elim (Bool-cases (kind a)) [
      | inl is ↦ inl is
      | inr other ↦ inr (rw other (any_part-agree again (resolved_parts names a) (rw other at h)))
    ]

    base-agree :
        (b : AstType)
        → search_base node kind rounds names again b ≡ agree
        → (base_direct kind rounds names b ≡ true)
          ⊎ ((u : AstType) × Among u (base_parts kind rounds names b) × (again u ≡ agree))
    unfolding search_base
    base-agree (option t) h = inr (t, first [], h)
    base-agree (result ok error) h = elim (or_else-agree (again ok) (again error) h) [
      | inl e ↦ inr (ok, first (error ∷ []), e)
      | inr e ↦ inr (error, later ok (error ∷ []) (first []), e)
    ]
    base-agree (named address name arguments) h =
        resolved-agree (resolve rounds names (named address name arguments)) h
    base-agree _ h = cc

    module _ (settled : (t : AstType) → Settled (again t)) where
      resolved-Settled :
          (r : Resolution)
          → r ≢ Resolution.out_of_fuel
          → Settled (search_resolved node kind rounds names again r)
      unfolding search_resolved
      resolved-Settled unresolved h = tt
      resolved-Settled Resolution.out_of_fuel h = absurd (h refl)
      resolved-Settled (resolved a) h = elim (Bool-cases (kind a)) [
        | inl is ↦ rw is tt
        | inr other ↦ rw other (any_part-Settled again settled (resolved_parts names a))
      ]

      agree-resolved :
          (r : Resolution)
          → (resolution_direct kind r ≡ true)
            ⊎ ((u : AstType) × Among u (resolution_parts kind names r) × (again u ≡ agree))
          → search_resolved node kind rounds names again r ≡ agree
      unfolding search_resolved
      agree-resolved (resolved a) (inl is) = rw is
      agree-resolved (resolved a) (inr (u, m, e)) = elim (Bool-cases (kind a)) [
        | inl is ↦ rw is
        | inr other ↦
            rw other (agree-any_part again settled u (resolved_parts names a) (rw other at m) e)
      ]
      agree-resolved unresolved (inl is) = cc
      agree-resolved unresolved (inr (u, m, e)) = elim m [ ]
      agree-resolved Resolution.out_of_fuel (inl is) = cc
      agree-resolved Resolution.out_of_fuel (inr (u, m, e)) = elim m [ ]

      module _ (total : (t : AstType) → resolve rounds names t ≢ Resolution.out_of_fuel) where
        base-Settled : (b : AstType) → Settled (search_base node kind rounds names again b)
        unfolding search_base
        base-Settled (option t) = settled t
        base-Settled (result ok error) =
            or_else-Settled (again ok) (again error) (settled ok) (settled error)
        base-Settled (named address name arguments) =
            resolved-Settled (resolve rounds names (named address name arguments))
              (total (named address name arguments))
        base-Settled _ = tt

        agree-base :
            (b : AstType)
            → (base_direct kind rounds names b ≡ true)
              ⊎ ((u : AstType) × Among u (base_parts kind rounds names b) × (again u ≡ agree))
            → search_base node kind rounds names again b ≡ agree
        unfolding search_base
        agree-base (option t) (inl is) = cc
        agree-base (option t) (inr (u, first _, e)) = e
        agree-base (option t) (inr (u, later _ _ m, e)) = elim m [ ]
        agree-base (result ok error) (inl is) = cc
        agree-base (result ok error) (inr (u, first _, e)) = rw e
        agree-base (result ok error) (inr (u, later _ _ (first _), e)) =
            agree-or_else (again ok) (again error) (settled ok) e
        agree-base (result ok error) (inr (u, later _ _ (later _ _ m), e)) = elim m [ ]
        agree-base (named address name arguments) h =
            agree-resolved (resolve rounds names (named address name arguments)) h
        agree-base _ (inl is) = cc
        agree-base _ (inr (u, m, e)) = elim m [ ]

  module _ (total : (t : AstType) → resolve rounds names t ≢ Resolution.out_of_fuel) where
    search-Settled :
        (depth : ℕ) (t : AstType) → Settled (search_type node kind rounds names depth t)
    unfolding search_type
    search-Settled zero t = tt
    search-Settled (suc depth) t = elim (Bool-cases (node (unwrap_mutable t))) [
      | inl is ↦ rw is tt
      | inr other ↦ rw other (
          base-Settled (search_type node kind rounds names depth) (search-Settled depth) total
            (unwrap_mutable t))
    ]

    found :
        (depth : ℕ) (t : AstType)
        → search_type node kind rounds names depth t ≡ agree
        → Holds node kind rounds names t ⊎ Nested kind rounds names depth t
    unfolding search_type
    found zero t h = inr tt
    found (suc depth) t h = elim (Bool-cases (node (unwrap_mutable t))) [
      | inl is ↦ inl (direct t (rw is refl))
      | inr other ↦
          elim (base-agree (search_type node kind rounds names depth) (unwrap_mutable t)
            (rw other at h)) [
              | inl is ↦ inl (direct t (rw (other, is)))
              | inr (u, m, e) ↦ elim (found depth u e) [
                | inl holds ↦ inl (inside t u m holds)
                | inr nested ↦ inr (u, m, nested)
              ]
            ]
    ]

    -- A part that is found makes its whole found.
    through :
        (depth : ℕ) (t u : AstType)
        → Among u (base_parts kind rounds names (unwrap_mutable t))
        → search_type node kind rounds names depth u ≡ agree
        → search_type node kind rounds names (suc depth) t ≡ agree
    unfolding search_type
    through depth t u m e = elim (Bool-cases (node (unwrap_mutable t))) [
      | inl is ↦ rw is
      | inr other ↦ rw other (
          agree-base (search_type node kind rounds names depth) (search-Settled depth) total
            (unwrap_mutable t) (inr (u, m, e)))
    ]

    Holds-found :
        (depth : ℕ) (t : AstType)
        → Holds node kind rounds names t
        → search_type node kind rounds names depth t ≡ agree
    unfolding search_type
    Holds-found zero t h = refl
    Holds-found (suc depth) t (direct _ is) = elim (Bool-cases (node (unwrap_mutable t))) [
      | inl now ↦ rw now
      | inr other ↦ rw other (
          agree-base (search_type node kind rounds names depth) (search-Settled depth) total
            (unwrap_mutable t) (inl (rw other at is)))
    ]
    Holds-found (suc depth) t (inside _ u m h) = through depth t u m (Holds-found depth u h)

    Nested-found :
        (depth : ℕ) (t : AstType)
        → Nested kind rounds names depth t
        → search_type node kind rounds names depth t ≡ agree
    unfolding search_type
    Nested-found zero t h = refl
    Nested-found (suc depth) t (u, m, h) = through depth t u m (Nested-found depth u h)

-- Where `resolve` comes to an answer for every type, the search for an owner finds exactly the types with
-- an owner among the parts that it looks at, or with such parts nested to the depth limit; and the
-- answer is always 1 or 0. What is behind a name of an alias of an option or a result is no such part.
pub search_iff :
    (rounds : ℕ) (names : Names)
    → ((t : AstType) → resolve rounds names t ≢ Resolution.out_of_fuel)
    → (t : AstType)
    → ((type_is_owned rounds names t ≡ agree) ↔ (
        Holds is_owner_node is_owner_kind rounds names t
        ⊎ Nested is_owner_kind rounds names depth_limit t))
      × Settled (type_is_owned rounds names t)
unfolding type_is_owned
search_iff rounds names total t = (
  (
    found is_owner_node is_owner_kind rounds names total depth_limit t,
    λ h. elim h [
      | inl holds ↦ Holds-found is_owner_node is_owner_kind rounds names total depth_limit t holds
      | inr nested ↦
          Nested-found is_owner_node is_owner_kind rounds names total depth_limit t nested
    ],
  ),
  search-Settled is_owner_node is_owner_kind rounds names total depth_limit t,
)
