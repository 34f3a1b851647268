-- ===== src/Kernel/Layout/Refinement.antt =====
-- Layout answers what the entries that it leaves say of the type, and leaves every layout that it found.
use sultanc.Prelude.{
  ℕ, zero, suc, ◌<◌, ◌≡◌, ◌≢◌, refl, sym, ap, ◌∙◌, arith, Option, some, List, [], ◌∷◌, length,
  get_or, set, ◌==◌, ==_iff, Bool-cases, inl, inr, ◌⊎◌,
}
use sultanc.Frontend.Ast.{TypeDeclaration}
use sultanc.Kernel.Names.{Names}
use sultanc.Kernel.Layout.{
  unknown, ready, LayoutEntry, fresh_entry, LayoutContext, LayoutAnswer, no_layout, out_of_fuel,
  laid_out, LayoutStep, semantic_fail, entry_at, set_entry, ◌>>=◌, LayoutError,
}
use sultanc.Kernel.Layout.Known.{SizeAndAlignment, known_body, Extends, known_body-Stays}

pub get_or-set_self :
    (l : List LayoutEntry) (e : ℕ) (v : LayoutEntry)
    → e < length l
    → get_or (set l e v) e fresh_entry ≡ v
get_or-set_self [] e v h = elim h [ ]
get_or-set_self (x ∷ l) zero v h = refl
get_or-set_self (x ∷ l) (suc e) v h = get_or-set_self l e v (omega arith)

pub get_or-set_other :
    (l : List LayoutEntry) (e i : ℕ) (v : LayoutEntry)
    → i ≢ e
    → get_or (set l e v) i fresh_entry ≡ get_or l i fresh_entry
get_or-set_other [] e i v h = refl
get_or-set_other (x ∷ l) zero zero v h = absurd (h refl)
get_or-set_other (x ∷ l) zero (suc i) v h = refl
get_or-set_other (x ∷ l) (suc e) zero v h = refl
get_or-set_other (x ∷ l) (suc e) (suc i) v h = get_or-set_other l e i v (λ p. h (ap suc p))

-- Each entry that was visited stays as it is.
abbrev pub Keeps : LayoutContext → LayoutContext → Type 0
Keeps c c' = (e : ℕ) → (entry_at c e).state ≢ unknown → entry_at c' e ≡ entry_at c e

pub Keeps-Extends : (c c' : LayoutContext) → Keeps c c' → Extends c c'
Keeps-Extends c c' k = λ e r. k e (λ u. cc)

pub Keeps-trans : (c c' c'' : LayoutContext) → Keeps c c' → Keeps c' c'' → Keeps c c''
Keeps-trans c c' c'' h k = λ e visited.
    k e (λ u. visited (ap (λ (x : LayoutEntry). x.state) (sym (h e visited)) ∙ u)) ∙ h e visited

pub ℕ-cases : (i e : ℕ) → (i ≡ e) ⊎ (i ≢ e)
ℕ-cases i e = elim (Bool-cases (i == e)) [
  | inl same ↦ inl ((==_iff i e).0 same)
  | inr other ↦ inr (λ p. cc ((==_iff i e).1 p))
]

module _ (c : LayoutContext) (e : ℕ) (v : LayoutEntry) where
  pub set-Extends : (entry_at c e).state ≢ ready → Extends c (set_entry c e v)
  set-Extends h = λ i r.
      get_or-set_other c.entries e i v (λ p. h (ap (λ (x : ℕ). (entry_at c x).state) (sym p) ∙ r))

  pub set-Keeps : (entry_at c e).state ≡ unknown → Keeps c (set_entry c e v)
  set-Keeps h = λ i visited.
      get_or-set_other c.entries e i v (λ p. visited (ap (λ (x : ℕ). (entry_at c x).state) p ∙ h))

module _ (names : Names) (len : ℕ) where
  -- Each layout that an entry keeps is that of its declaration.
  abbrev pub IsConsistent : LayoutContext → Type 0
  IsConsistent c =
      (length c.entries ≡ len)
      × ((e : ℕ)
          → (entry_at c e).state ≡ ready
          → (d : TypeDeclaration) × (names.declaration e ≡ some d)
            × (known_body names c d.body ≡ some ((entry_at c e).size, (entry_at c e).alignment)))

  abbrev pub Answers : Option SizeAndAlignment → LayoutAnswer → Type 0
  Answers k no_layout = Unit {0}
  Answers k out_of_fuel = Unit {0}
  Answers k (laid_out s a) = k ≡ some (s, a)

  -- A step from `c` keeps what was visited, leaves a consistent context, and answers what `k` says
  -- there.
  abbrev pub Refines :
      LayoutContext → LayoutStep → (LayoutContext → Option SizeAndAlignment) → Type 0
  Refines c step k = Keeps c step.0 × IsConsistent step.0 × Answers (k step.0) step.1

  pub Refines-pure :
      (c : LayoutContext) (s a : ℕ) (k : LayoutContext → Option SizeAndAlignment)
      → IsConsistent c
      → k c ≡ some (s, a)
      → Refines c (c, laid_out s a) k
  Refines-pure c s a k h e = (λ i v. refl, h, e)

  pub Refines-bind :
      (c : LayoutContext) (m : LayoutStep) (f : LayoutContext → ℕ → ℕ → LayoutStep)
      (j k : LayoutContext → Option SizeAndAlignment)
      → Refines c m j
      → ((c' : LayoutContext) (s a : ℕ)
          → IsConsistent c'
          → j c' ≡ some (s, a)
          → Refines c' (f c' s a) k)
      → Refines c (m >>= f) k
  Refines-bind c (c', no_layout) f j k h next = h
  Refines-bind c (c', out_of_fuel) f j k h next = h
  Refines-bind c (c', laid_out s a) f j k h next =
      let (keeps, consistent, answers) = next c' s a h.1 h.2 in
      (Keeps-trans c c' (f c' s a).0 h.0 keeps, consistent, answers)

  pub Refines-fail :
      (c : LayoutContext) (x : LayoutError) (k : LayoutContext → Option SizeAndAlignment)
      → IsConsistent c
      → Refines c (semantic_fail c x) k
  unfolding semantic_fail
  Refines-fail c x k h = (λ i v. refl, (h.0, λ e r. rebased e r), tt)
    where
      rebased :
          (e : ℕ)
          → (entry_at c e).state ≡ ready
          → (d : TypeDeclaration) × (names.declaration e ≡ some d)
            × (known_body names (semantic_fail c x).0 d.body
                ≡ some ((entry_at c e).size, (entry_at c e).alignment))
      rebased e r =
          let (d, known_as, size) = h.1 e r in
          (d, known_as, known_body-Stays names c (semantic_fail c x).0 (λ i q. refl) d.body _ size)

  -- The answers of later steps are read where the earlier ones are still known.
  pub Refines-later :
      (c' : LayoutContext) (m : LayoutStep) (j k : LayoutContext → Option SizeAndAlignment)
      → Refines c' m j
      → ((x : LayoutContext) → Keeps c' x → j x ≡ k x)
      → Refines c' m k
  Refines-later c' (x, no_layout) j k h e = h
  Refines-later c' (x, out_of_fuel) j k h e = h
  Refines-later c' (x, laid_out s' a') j k h e = (h.0, h.1, sym (e x h.0) ∙ h.2)

  -- A step from a context that keeps what `c` visited, and the write that ends it.
  pub Refines-finish :
      (c c' : LayoutContext) (m : LayoutStep) (f : LayoutContext → ℕ → ℕ → LayoutStep)
      (j k : LayoutContext → Option SizeAndAlignment)
      → Keeps c c'
      → Refines c' m j
      → ((x : LayoutContext) (s a : ℕ)
          → Keeps c' x
          → IsConsistent x
          → j x ≡ some (s, a)
          → Refines c (f x s a) k)
      → Refines c (m >>= f) k
  Refines-finish c c' (x, no_layout) f j k keeps h next = (Keeps-trans c c' x keeps h.0, h.1, tt)
  Refines-finish c c' (x, out_of_fuel) f j k keeps h next = (Keeps-trans c c' x keeps h.0, h.1, tt)
  Refines-finish c c' (x, laid_out s a) f j k keeps h next = next x s a h.0 h.1 h.2
