-- ===== src/Kernel/Layout/Grounded.antt =====
-- Contexts that store only what the declarations alone give, and steps that answer only that.
use sultanc.Prelude.{
  ℕ, zero, suc, ◌≡◌, refl, ap, arith, Option, some, List, [], ◌∷◌, get_or, set, ◌⊎◌, inl, inr,
}
use sultanc.Kernel.Names.{Names}
use sultanc.Kernel.Layout.{
  unknown, ready, LayoutEntry, fresh_entry, LayoutContext, LayoutAnswer, no_layout, out_of_fuel,
  laid_out, LayoutStep, entry_at, set_entry, ◌>>=◌,
}
use sultanc.Kernel.Layout.Known.{SizeAndAlignment}
use sultanc.Kernel.Layout.Plain.{plain_entry}

set-either :
    (xs : List LayoutEntry) (e i : ℕ) (v : LayoutEntry)
    → ((i ≡ e) × (get_or (set xs e v) i fresh_entry ≡ v))
      ⊎ ((get_or (set xs e v) i fresh_entry ≡ get_or xs i fresh_entry)
          × (i ≡ e → (get_or xs i fresh_entry).state ≡ unknown))
set-either [] e i v = inr (refl, λ p. refl)
set-either (x ∷ xs) zero zero v = inl (refl, refl)
set-either (x ∷ xs) zero (suc i) v = inr (refl, λ p. absurd (omega (arith, p)))
set-either (x ∷ xs) (suc e) zero v = inr (refl, λ p. absurd (omega (arith, p)))
set-either (x ∷ xs) (suc e) (suc i) v = elim (set-either xs e i v) [
  | inl (p, new) ↦ inl (ap suc p, new)
  | inr (old, outside) ↦ inr (old, λ p. outside (omega (arith, p)))
]

-- A write changes its own entry only, and nothing where no entry stands.
pub entry_at-set :
    (c : LayoutContext) (e i : ℕ) (v : LayoutEntry)
    → ((i ≡ e) × (entry_at (set_entry c e v) i ≡ v))
      ⊎ ((entry_at (set_entry c e v) i ≡ entry_at c i) × (i ≡ e → (entry_at c i).state ≡ unknown))
entry_at-set c e i v = set-either c.entries e i v

-- A layout that the declarations give at some depth.
abbrev pub AtSomeDepth : (ℕ → Option SizeAndAlignment) → LayoutAnswer → Type 0
AtSomeDepth rules no_layout = Unit {0}
AtSomeDepth rules out_of_fuel = Unit {0}
AtSomeDepth rules (laid_out s a) = (depth : ℕ) × (rules depth ≡ some (s, a))

module _ (names : Names) where
  -- What the entry stores, where it is ready, is the layout of its declaration.
  abbrev pub GroundedEntry : ℕ → LayoutEntry → Type 0
  GroundedEntry e x =
      x.state ≡ ready → (depth : ℕ) × (plain_entry depth names e ≡ some (x.size, x.alignment))

  abbrev pub Grounded : LayoutContext → Type 0
  Grounded c = (e : ℕ) → GroundedEntry e (entry_at c e)

  abbrev pub Sound : LayoutStep → (ℕ → Option SizeAndAlignment) → Type 0
  Sound (c, answer) rules = Grounded c × AtSomeDepth rules answer

  GroundedEntry-same :
      (i e : ℕ) (x v : LayoutEntry) → i ≡ e → x ≡ v → GroundedEntry e v → GroundedEntry i x
  GroundedEntry-same i e x v p q h = rw (p, q) h

  -- A write of an entry that is not ready, or of a layout that its declaration gives.
  pub set-Grounded :
      (c : LayoutContext) (e : ℕ) (v : LayoutEntry)
      → Grounded c
      → GroundedEntry e v
      → Grounded (set_entry c e v)
  set-Grounded c e v g new i = elim (entry_at-set c e i v) [
    | inl (p, is) ↦ GroundedEntry-same i e (entry_at (set_entry c e v) i) v p is new
    | inr (old, _) ↦
        GroundedEntry-same i i (entry_at (set_entry c e v) i) (entry_at c i) refl old (g i)
  ]

  pub Sound-bind :
      (m : LayoutStep) (k : LayoutContext → ℕ → ℕ → LayoutStep)
      (first rules : ℕ → Option SizeAndAlignment)
      → Sound m first
      → ((c : LayoutContext) (s a n : ℕ)
          → Grounded c
          → first n ≡ some (s, a)
          → Sound (k c s a) rules)
      → Sound (m >>= k) rules
  Sound-bind (c, no_layout) k first rules (g, _) next = (g, tt)
  Sound-bind (c, out_of_fuel) k first rules (g, _) next = (g, tt)
  Sound-bind (c, laid_out s a) k first rules (g, (n, e)) next = next c s a n g e

  pub Sound-later :
      (m : LayoutStep) (first rules : ℕ → Option SizeAndAlignment)
      → Sound m first
      → ((n : ℕ) (p : SizeAndAlignment) → first n ≡ some p → (depth : ℕ) × (rules depth ≡ some p))
      → Sound m rules
  Sound-later (c, no_layout) first rules (g, _) next = (g, tt)
  Sound-later (c, out_of_fuel) first rules (g, _) next = (g, tt)
  Sound-later (c, laid_out s a) first rules (g, (n, e)) next = (g, next n (s, a) e)
