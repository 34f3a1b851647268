-- ===== src/Kernel/Types/Ranks.antt =====
-- Where aliases do not go in circles a weight of types bounds the rounds of resolution, and what a
-- resolved type holds weighs less than the type.
use sultanc.Prelude.{ℕ, zero, suc, ◌+◌, ◌≤◌, ◌<◌, ◌≡◌, refl, arith, Bool, Option, none, some}
use sultanc.Frontend.Ast.{
  AstType, missing, any, boolean, machine, integer, unsigned_integer, character, string, box,
  option, result, function, named, pointer, reference, vector, mutable_of, void, AstTypes, no_types,
  type_then, DeclarationBody, struct_of, enum_of, alias_of, TypeDeclaration,
}
use sultanc.Kernel.Names.{Names}
use sultanc.Kernel.Types.{
  ResolvedType, unwrap_mutable, is_mutable_node, Resolution, unresolved, out_of_fuel, resolved,
  resolve_declared, resolve_known, resolve_entry, resolve_name, resolve_shape, resolve_base,
  resolve,
}

abbrev pub rank_of : (ℕ → ℕ) → Option ℕ → ℕ
rank_of rank none = 0
rank_of rank (some entry) = rank entry

-- The nodes of a type, a name counted with the rank of its entry.
unfoldable mutual
  pub weight : (ℕ → ℕ) → Names → AstType → ℕ
  weight rank names missing = 0
  weight rank names any = 1
  weight rank names boolean = 1
  weight rank names (machine m) = 1
  weight rank names integer = 1
  weight rank names unsigned_integer = 1
  weight rank names character = 1
  weight rank names string = 1
  weight rank names (box t) = suc (weight rank names t)
  weight rank names (option t) = suc (weight rank names t)
  weight rank names (result ok error) = suc (weight rank names ok + weight rank names error)
  weight rank names (function ps t) = suc (weight_all rank names ps + weight rank names t)
  weight rank names (named address name arguments) =
      suc (rank_of rank (names.resolve_named_entry (named address name arguments)))
  weight rank names (pointer t) = suc (weight rank names t)
  weight rank names (reference t) = suc (weight rank names t)
  weight rank names (vector t) = suc (weight rank names t)
  weight rank names (mutable_of t) = suc (weight rank names t)
  weight rank names void = 1

  pub weight_all : (ℕ → ℕ) → Names → AstTypes → ℕ
  weight_all rank names no_types = 0
  weight_all rank names (type_then t ts) = weight rank names t + weight_all rank names ts

-- No alias leads back to itself: the target of an alias weighs at most the rank of its entry.
abbrev pub IsRanked : (ℕ → ℕ) → Names → Type 0
IsRanked rank names =
    (entry : ℕ) (declaration : TypeDeclaration) (target : AstType)
    → names.declaration entry ≡ some declaration
    → declaration.body ≡ alias_of target
    → weight rank names target ≤ rank entry

pub unwrap_mutable-weight :
    (rank : ℕ → ℕ) (names : Names) (t : AstType)
    → weight rank names (unwrap_mutable t) ≤ weight rank names t
unfolding unwrap_mutable weight
unwrap_mutable-weight rank names (mutable_of t) = omega (arith, unwrap_mutable-weight rank names t)
unwrap_mutable-weight rank names _ = omega arith

module _ (rank : ℕ → ℕ) (names : Names) where
  -- What a resolved type holds weighs less than `bound`.
  abbrev pub IsLighter : ℕ → ResolvedType → Type 0
  IsLighter bound a =
      (weight rank names a.inner < bound)
      × (weight_all rank names a.parameters < bound)
      × (weight rank names a.output < bound)

  -- A resolution within the fuel, with parts below `bound` where it succeeds.
  abbrev pub Ends : ℕ → Resolution → Type 0
  Ends bound unresolved = Unit {0}
  Ends bound out_of_fuel = ⊥
  Ends bound (resolved a) = IsLighter bound a

  Ends-le : (bound larger : ℕ) (r : Resolution) → bound ≤ larger → Ends bound r → Ends larger r
  Ends-le bound larger unresolved h e = tt
  Ends-le bound larger out_of_fuel h e = e
  Ends-le bound larger (resolved a) h e = omega arith

module _ (rank : ℕ → ℕ) (names : Names) (ranked : IsRanked rank names)
    (again : AstType → Resolution) where
  resolve_declared-Ends :
      (base : AstType) (m : Bool) (entry : ℕ) (d : TypeDeclaration)
      → names.declaration entry ≡ some d
      → ((t : AstType)
          → weight rank names t ≤ rank entry
          → Ends rank names (suc (rank entry)) (again t))
      → (body : DeclarationBody) → d.body ≡ body
      → Ends rank names (suc (rank entry)) (resolve_declared again base m entry body)
  unfolding resolve_declared weight
  resolve_declared-Ends base m entry d known ends (struct_of fields) e = omega arith
  resolve_declared-Ends base m entry d known ends (enum_of constructors) e = omega arith
  resolve_declared-Ends base m entry d known ends (alias_of target) e =
      ends target (ranked entry d target known e)

  resolve_known-Ends :
      (base : AstType) (m : Bool) (entry : ℕ)
      → ((t : AstType)
          → weight rank names t ≤ rank entry
          → Ends rank names (suc (rank entry)) (again t))
      → (known : Option TypeDeclaration) → names.declaration entry ≡ known
      → Ends rank names (suc (rank entry)) (resolve_known again base m entry known)
  unfolding resolve_known
  resolve_known-Ends base m entry ends none e = tt
  resolve_known-Ends base m entry ends (some d) e =
      resolve_declared-Ends base m entry d e ends d.body refl

  resolve_entry-Ends :
      (base : AstType) (m : Bool) (found : Option ℕ)
      → ((t : AstType)
          → weight rank names t < suc (rank_of rank found)
          → Ends rank names (weight rank names t) (again t))
      → Ends rank names (suc (rank_of rank found)) (resolve_entry again names base m found)
  unfolding resolve_entry
  resolve_entry-Ends base m none ends = tt
  resolve_entry-Ends base m (some entry) ends =
      resolve_known-Ends base m entry
        (λ t light.
          Ends-le rank names (weight rank names t) (suc (rank entry)) (again t) (omega arith)
            (ends t (omega arith)))
        (names.declaration entry) refl

  resolve_shape-Ends :
      (base : AstType) (m : Bool)
      → ((t : AstType)
          → weight rank names t < weight rank names base
          → Ends rank names (weight rank names t) (again t))
      → Ends rank names (weight rank names base) (resolve_shape again names base m)
  unfolding resolve_shape resolve_name weight
  resolve_shape-Ends (named address name arguments) m ends =
      resolve_entry-Ends (named address name arguments) m
        (names.resolve_named_entry (named address name arguments)) ends
  resolve_shape-Ends (reference t) m ends =
      let light = unwrap_mutable-weight rank names t in omega (arith, light)
  resolve_shape-Ends _ m ends = omega arith

  resolve_base-Ends :
      (base : AstType) (m : Bool)
      → ((t : AstType)
          → weight rank names t < weight rank names base
          → Ends rank names (weight rank names t) (again t))
      → Ends rank names (weight rank names base) (resolve_base again names base m)
  unfolding resolve_base weight
  resolve_base-Ends any m ends = omega arith
  resolve_base-Ends boolean m ends = omega arith
  resolve_base-Ends (machine k) m ends = omega arith
  resolve_base-Ends integer m ends = omega arith
  resolve_base-Ends unsigned_integer m ends = omega arith
  resolve_base-Ends character m ends = omega arith
  resolve_base-Ends string m ends = omega arith
  resolve_base-Ends void m ends = omega arith
  resolve_base-Ends base m ends = resolve_shape-Ends base m ends

-- Fuel above the weight is enough for `resolve`.
pub resolve-Ends :
    (rank : ℕ → ℕ) (names : Names)
    → IsRanked rank names
    → (fuel : ℕ) (t : AstType) → weight rank names t < fuel
    → Ends rank names (weight rank names t) (resolve fuel names t)
unfolding resolve
resolve-Ends rank names ranked zero t h = elim h [ ]
resolve-Ends rank names ranked (suc fuel) t h =
    let light = unwrap_mutable-weight rank names t in
    Ends-le rank names (weight rank names (unwrap_mutable t)) (weight rank names t)
      (resolve_base (resolve fuel names) names (unwrap_mutable t) (is_mutable_node t)) light
      (resolve_base-Ends rank names ranked (resolve fuel names) (unwrap_mutable t)
        (is_mutable_node t) (λ u below. resolve-Ends rank names ranked fuel u (omega arith)))
