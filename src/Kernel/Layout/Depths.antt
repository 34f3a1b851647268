-- ===== src/Kernel/Layout/Depths.antt =====
-- Contexts that suit a depth, and steps from them that answer a layout.
use sultanc.Prelude.{ℕ, suc, ◌+◌, ◌≡◌, refl, sym, ap, ◌∙◌, arith, Option, none, some, ◌⊎◌, inl, inr}
use sultanc.Kernel.Names.{Names}
use sultanc.Kernel.Layout.{visiting, LayoutContext, laid_out, LayoutStep, entry_at, ◌>>=◌}
use sultanc.Kernel.Layout.Known.{SizeAndAlignment}
use sultanc.Kernel.Layout.Plain.{plain_entry, plain_entry-deeper}
use sultanc.Kernel.Layout.Termination.{Holds}
use sultanc.Kernel.Layout.Grounded.{Grounded}

-- No entry is being visited that was not before.
abbrev pub Within : LayoutContext → LayoutContext → Type 0
Within c c' = (e : ℕ) → (entry_at c' e).state ≡ visiting → (entry_at c e).state ≡ visiting

module _ (names : Names) (len : ℕ) where
  -- What is being visited has no layout of that depth.
  abbrev pub Open : ℕ → LayoutContext → Type 0
  Open depth c = (e : ℕ) → (entry_at c e).state ≡ visiting → plain_entry depth names e ≡ none

  -- What layout starts from, and keeps.
  abbrev pub Fit : ℕ → ℕ → LayoutContext → Type 0
  Fit depth bound c = Grounded names c × Open depth c × Holds len bound c

  -- A step from a context answers a layout.
  abbrev pub Completes : ℕ → ℕ → LayoutContext → LayoutStep → SizeAndAlignment → Type 0
  Completes depth bound c m p =
      (c' : LayoutContext) × (m ≡ (c', laid_out p.0 p.1)) × Fit depth bound c' × Within c c'

  pub answered :
      (n bound : ℕ) (c : LayoutContext) (s a : ℕ) (p : SizeAndAlignment)
      → some (s, a) ≡ some p
      → Fit n bound c
      → Completes n bound c (c, laid_out s a) p
  answered n bound c s a p e f =
      let same : (s, a) ≡ p = cc in
      (c, ap (λ (x : SizeAndAlignment). (c, laid_out x.0 x.1)) same, f, λ i v. v)

  pub Completes-bind :
      (n bound : ℕ) (c : LayoutContext) (m : LayoutStep) (k : LayoutContext → ℕ → ℕ → LayoutStep)
      (p q : SizeAndAlignment)
      → Completes n bound c m p
      → ((c' : LayoutContext) → Fit n bound c' → Completes n bound c' (k c' p.0 p.1) q)
      → Completes n bound c (m >>= k) q
  Completes-bind n bound c m k p q (c', e, f, within) next =
      let (c'', e', f', within') = next c' f in (c'', rw e e', f', λ i v. within i (within' i v))

  pub given_or_not :
      (x : Option SizeAndAlignment) → ((q : SizeAndAlignment) × (x ≡ some q)) ⊎ (x ≡ none)
  given_or_not none = inr refl
  given_or_not (some q) = inl (q, refl)

  pub shallower : (n e : ℕ) → plain_entry (suc n) names e ≡ none → plain_entry n names e ≡ none
  shallower n e h = by (plain_entry n names e) refl
    where
      by : (x : Option SizeAndAlignment) → plain_entry n names e ≡ x → plain_entry n names e ≡ none
      by none is = is
      by (some p) is =
          let next : n + 1 ≡ suc n = omega arith in
          let deeper : plain_entry (suc n) names e ≡ some p =
            rw (← next) (plain_entry-deeper names n 1 e p is) in
          cc

  -- Two depths give the same layout.
  pub same_layout :
      (n m e : ℕ) (p q : SizeAndAlignment)
      → plain_entry n names e ≡ some p
      → plain_entry m names e ≡ some q
      → some q ≡ some p
  same_layout n m e p q h h' =
      let swap : m + n ≡ n + m = omega arith in
      let left : plain_entry (n + m) names e ≡ some p = plain_entry-deeper names n m e p h in
      let right : plain_entry (m + n) names e ≡ some q = plain_entry-deeper names m n e q h' in
      sym right ∙ rw swap left

  -- A context that fits one depth and bound fits the next ones.
  pub deeper-Completes :
      (n bound : ℕ) (c : LayoutContext) (m : LayoutStep) (p : SizeAndAlignment)
      → Open (suc n) c
      → Completes n bound c m p
      → Completes (suc n) bound c m p
  deeper-Completes n bound c m p o (c', e, (g, _, h), within) =
      (c', e, (g, λ i v. o i (within i v), h), within)

  pub wider-Completes :
      (n bound : ℕ) (c : LayoutContext) (m : LayoutStep) (p : SizeAndAlignment)
      → Completes n bound c m p
      → Completes n (suc bound) c m p
  wider-Completes n bound c m p (c', e, (g, o, (same, few)), within) =
      (c', e, (g, o, (same, omega (arith, few))), within)
