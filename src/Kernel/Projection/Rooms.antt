-- ===== src/Kernel/Projection/Rooms.antt =====
-- The room that fields take, and places that lie apart.
use native.Mathlib.Nat.{pow-le-pow_right}
use sultanc.Prelude.{
  ℕ, ◌+◌, ◌%◌, ◌^◌, ◌≤◌, ◌<◌, ◌≡◌, arith, inl, inr, ◌⊎◌, Option, none, some, List, [], ◌∷◌,
}
use sultanc.Support.Alignment.{align_up}
use sultanc.Support.Alignment.Bounds.{align_up_bounds}
use sultanc.Frontend.Ast.{AstType}
use sultanc.Kernel.Names.{Names}
use sultanc.Kernel.Layout.{LayoutContext}
use sultanc.Kernel.Layout.Sizes.{IsAlignment}
use sultanc.Kernel.Layout.Known.{SizeAndAlignment, known}
use sultanc.Kernel.Projection.{projected, Place}

pub align_up_within :
    (v a : ℕ)
    → IsAlignment a
    → v + 8 ≤ 2 ^ 64
    → (v ≤ align_up v a) × (align_up v a < v + 8) × (align_up v a % a ≡ 0)
align_up_within v a (k, low, e) room =
    let q : 2 ^ k ≤ 2 ^ 3 = pow-le-pow_right {n = 2} (omega arith) low in
    let (below, above, multiple) = align_up_bounds k v (omega arith) (omega arith) in
    rw e (below, omega arith, multiple)

-- What the fields may take at most, each with its padding.
abbrev size_of : Option SizeAndAlignment → ℕ
size_of none = 0
size_of (some (size, alignment)) = size

unfoldable pub room : Names → LayoutContext → List AstType → ℕ
room names c [] = 8
room names c (t ∷ ts) = size_of (known names c t) + 8 + room names c ts

pub projected-injective : {p q : Place} → projected p ≡ projected q → p ≡ q
projected-injective e = cc

-- Both places have a size, and one ends before the other begins.
abbrev pub Apart : Names → LayoutContext → Place → Place → Type 0
Apart names c p q =
    (s : ℕ) × (a : ℕ) × (t : ℕ) × (b : ℕ) × (known names c p.place_type ≡ some (s, a))
    × (known names c q.place_type ≡ some (t, b))
    × ((p.offset + s ≤ q.offset) ⊎ (q.offset + t ≤ p.offset))

pub Apart-symm :
    (names : Names) (c : LayoutContext) (p q : Place) → Apart names c p q → Apart names c q p
Apart-symm names c p q (s, a, t, b, e, f, inl h) = (t, b, s, a, f, e, inr h)
Apart-symm names c p q (s, a, t, b, e, f, inr h) = (t, b, s, a, f, e, inl h)
