-- ===== src/Kernel/Ownership/Meaning.antt =====
-- The search for owners and the meaning of owning.
use sultanc.Prelude.{
  ℕ, zero, suc, ◌≡◌, ◌≢◌, ◌↔◌, refl, true, ◌||◌, Bool-cases, List, [], ◌∷◌, ◌⊎◌, inl, inr,
}
use sultanc.Frontend.Ast.{AstType, AstTypes, string, box, option, result, named, vector}
use sultanc.Kernel.Names.{Names}
use sultanc.Kernel.Types.{unwrap_mutable, Resolution, unresolved, resolved, resolve}
use sultanc.Kernel.Compatibility.{agree}
use sultanc.Kernel.Ownership.{is_owner_node, is_owner_kind, depth_limit, type_is_owned}
use sultanc.Kernel.Ownership.Parts.{Among, first, later, Settled}
use sultanc.Kernel.Ownership.Exact.{
  Holds, direct, inside, Nested, resolution_direct, resolution_parts, base_direct, base_parts,
  search_iff,
}
use sultanc.Kernel.Ownership.Owning.{
  IsOwner, box_owner, vector_owner, text_owner, mutable_owner, alias_owner, IsPart, option_part,
  ok_part, error_part, mutable_part, alias_part, field_part, payload_part, Owns, itself,
  through_part, NestedIn, HidesNothing,
}
use sultanc.Kernel.Ownership.Resolving.{
  unwrap-IsOwner, unwrap-IsPart, resolve-Means, owner_resolves, part_resolves,
}

module _ (rounds : ℕ) (names : Names) where
  resolution-IsOwner :
      (t : AstType) (r : Resolution)
      → resolve rounds names t ≡ r
      → resolution_direct is_owner_kind r ≡ true
      → IsOwner names t
  resolution-IsOwner t (resolved a) is h = (resolve-Means names rounds t a is).0 h
  resolution-IsOwner t unresolved is h = cc
  resolution-IsOwner t Resolution.out_of_fuel is h = cc

  resolution-IsPart :
      (t u : AstType) (r : Resolution)
      → resolve rounds names t ≡ r
      → Among u (resolution_parts is_owner_kind names r)
      → IsPart names u t
  resolution-IsPart t u (resolved a) is i = elim (Bool-cases (is_owner_kind a)) [
    | inl owner ↦ elim (rw owner at i) [ ]
    | inr other ↦ (resolve-Means names rounds t a is).1 u (rw other at i)
  ]
  resolution-IsPart t u unresolved is i = elim i [ ]
  resolution-IsPart t u Resolution.out_of_fuel is i = elim i [ ]

  base-IsOwner :
      (b : AstType)
      → (is_owner_node b || base_direct is_owner_kind rounds names b) ≡ true
      → IsOwner names b
  base-IsOwner (box t) h = box_owner t
  base-IsOwner (vector t) h = vector_owner t
  base-IsOwner string h = text_owner
  base-IsOwner (named address name arguments) h =
      resolution-IsOwner (named address name arguments)
        (resolve rounds names (named address name arguments)) refl h
  base-IsOwner _ h = cc

  base-IsPart :
      (b u : AstType) → Among u (base_parts is_owner_kind rounds names b) → IsPart names u b
  base-IsPart (option t) u (first _) = option_part
  base-IsPart (option t) u (later _ _ i) = elim i [ ]
  base-IsPart (result ok error) u (first _) = ok_part error
  base-IsPart (result ok error) u (later _ _ (first _)) = error_part ok
  base-IsPart (result ok error) u (later _ _ (later _ _ i)) = elim i [ ]
  base-IsPart (named address name arguments) u i =
      resolution-IsPart (named address name arguments) u
        (resolve rounds names (named address name arguments)) refl i
  base-IsPart _ u i = elim i [ ]

  Holds-Owns : (t : AstType) → Holds is_owner_node is_owner_kind rounds names t → Owns names t
  Holds-Owns t (direct _ h) = itself t (unwrap-IsOwner names t (base-IsOwner (unwrap_mutable t) h))
  Holds-Owns t (inside _ u i h) =
      through_part t u (unwrap-IsPart names u t (base-IsPart (unwrap_mutable t) u i))
        (Holds-Owns u h)

  Nested-NestedIn :
      (depth : ℕ) (t : AstType) → Nested is_owner_kind rounds names depth t → NestedIn names depth t
  Nested-NestedIn zero t h = tt
  Nested-NestedIn (suc depth) t (u, i, h) =
      (u, unwrap-IsPart names u t (base-IsPart (unwrap_mutable t) u i), Nested-NestedIn depth u h)

  module _ (total : (t : AstType) → resolve rounds names t ≢ Resolution.out_of_fuel) where
    IsOwner-found :
        (t : AstType)
        → IsOwner names t
        → (is_owner_node (unwrap_mutable t)
            || base_direct is_owner_kind rounds names (unwrap_mutable t))
          ≡ true
    unfolding unwrap_mutable
    IsOwner-found _ (box_owner t) = refl
    IsOwner-found _ (vector_owner t) = refl
    IsOwner-found _ text_owner = refl
    IsOwner-found _ (mutable_owner t h) = IsOwner-found t h
    IsOwner-found _ (alias_owner address name arguments target declares h) =
        let t = named address name arguments in
        let (a, same, owner) =
          owner_resolves names rounds t (alias_owner address name arguments target declares h)
            (total t) in
        rw same owner

    named-found :
        HidesNothing names
        → (u : AstType) (address : ℕ) (name : List ℕ) (arguments : AstTypes)
        → IsPart names u (named address name arguments)
        → Among u (base_parts is_owner_kind rounds names (named address name arguments))
    unfolding unwrap_mutable
    named-found hides u address name arguments h =
        let t = named address name arguments in
        let (a, same, other, among) = part_resolves names hides rounds t u h tt (total t) in
        rw (same, other) among

    IsPart-found :
        HidesNothing names
        → (u t : AstType) → IsPart names u t
        → Among u (base_parts is_owner_kind rounds names (unwrap_mutable t))
    unfolding unwrap_mutable
    IsPart-found hides u _ option_part = first []
    IsPart-found hides u _ (ok_part error) = first (error ∷ [])
    IsPart-found hides u _ (error_part ok) = later ok (u ∷ []) (first [])
    IsPart-found hides u _ (mutable_part t h) = IsPart-found hides u t h
    IsPart-found hides u _ (alias_part address name arguments target declares h) =
        named-found hides u address name arguments
          (alias_part address name arguments target declares h)
    IsPart-found hides u _ (field_part address name arguments fields declares i) =
        named-found hides u address name arguments
          (field_part address name arguments fields declares i)
    IsPart-found hides u _ (payload_part address name arguments constructors declares i) =
        named-found hides u address name arguments
          (payload_part address name arguments constructors declares i)

    Owns-Holds :
        HidesNothing names
        → (t : AstType) → Owns names t
        → Holds is_owner_node is_owner_kind rounds names t
    Owns-Holds hides t (itself _ h) = direct t (IsOwner-found t h)
    Owns-Holds hides t (through_part _ u i h) =
        inside t u (IsPart-found hides u t i) (Owns-Holds hides u h)

    NestedIn-Nested :
        HidesNothing names
        → (depth : ℕ) (t : AstType) → NestedIn names depth t
        → Nested is_owner_kind rounds names depth t
    NestedIn-Nested hides zero t h = tt
    NestedIn-Nested hides (suc depth) t (u, i, h) =
        (u, IsPart-found hides u t i, NestedIn-Nested hides depth u h)

-- Where `resolve` comes to an answer for every type, what `type_is_owned` finds owned owns memory by its
-- declarations or has parts nested to the depth limit, whatever the aliases are.
pub found-Owns :
    (rounds : ℕ) (names : Names)
    → ((t : AstType) → resolve rounds names t ≢ Resolution.out_of_fuel)
    → (t : AstType) → type_is_owned rounds names t ≡ agree
    → Owns names t ⊎ NestedIn names depth_limit t
found-Owns rounds names total t e = elim ((search_iff rounds names total t).0.0 e) [
  | inl holds ↦ inl (Holds-Owns rounds names t holds)
  | inr nested ↦ inr (Nested-NestedIn rounds names depth_limit t nested)
]

-- Where `resolve` comes to an answer for every type and no alias is declared as an option or a result, a
-- type is found owned exactly when it owns memory by its declarations, aliases followed, or has parts
-- nested to the depth limit; and the answer is always 1 or 0.
pub type_is_owned_iff :
    (rounds : ℕ) (names : Names)
    → ((t : AstType) → resolve rounds names t ≢ Resolution.out_of_fuel)
    → HidesNothing names
    → (t : AstType)
    → ((type_is_owned rounds names t ≡ agree) ↔ (Owns names t ⊎ NestedIn names depth_limit t))
      × Settled (type_is_owned rounds names t)
type_is_owned_iff rounds names total hides t =
    let (found, settled) = search_iff rounds names total t in
    (
      (
        found-Owns rounds names total t,
        λ h. elim h [
          | inl owns ↦ found.1 (inl (Owns-Holds rounds names total hides t owns))
          | inr nested ↦
              found.1 (inr (NestedIn-Nested rounds names total hides depth_limit t nested))
        ],
      ),
      settled,
    )
