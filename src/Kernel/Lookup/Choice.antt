-- ===== src/Kernel/Lookup/Choice.antt =====
-- What the lookups of bootstrap/src/kernel/name/name_lookup.c choose among the imports of a unit.
use sultanc.Prelude.{ℕ, ◌≡◌, ◌≢◌, refl, sym, ap, ◌∙◌, ◌↔◌, ◌⊎◌, List, [], ◌∷◌}
use sultanc.Kernel.Lookup.{Lookup, lookup_missing, lookup_private, lookup_ambiguous, lookup_found}

-- An index in a list of imports.
abbrev pub Imported : ℕ → List ℕ → Type 0
Imported i [] = ⊥
Imported i (j ∷ js) = (i ≡ j) ⊎ Imported i js

-- The choice among public entries, where there may also be hidden ones.
abbrev pub Chosen : (ℕ → Type 0) → Type 0 → Lookup → Type 0
Chosen Public Hidden (lookup_found e) = Public e × ((e' : ℕ) → Public e' → e' ≡ e)
Chosen Public Hidden lookup_ambiguous = (e : ℕ) × (e' : ℕ) × Public e × Public e' × (e ≢ e')
Chosen Public Hidden lookup_private = Hidden × ((e : ℕ) → Public e → ⊥)
Chosen Public Hidden lookup_missing = (Hidden → ⊥) × ((e : ℕ) → Public e → ⊥)

pub Chosen-map :
    {P P' : ℕ → Type 0} {H H' : Type 0}
    → ((e : ℕ) → P e ↔ P' e)
    → H ↔ H'
    → (r : Lookup) → Chosen P H r
    → Chosen P' H' r
Chosen-map p h (lookup_found e) (now, only) = ((p e).0 now, λ e' now'. only e' ((p e').1 now'))
Chosen-map p h lookup_ambiguous (e, e', now, now', ne) = (e, e', (p e).0 now, (p e').0 now', ne)
Chosen-map p h lookup_private (hidden, nothing) = (h.0 hidden, λ e now. nothing e ((p e).1 now))
Chosen-map p h lookup_missing (clear, nothing) =
    (λ hidden. clear (h.1 hidden), λ e now. nothing e ((p e).1 now))

pub Chosen-unique :
    (P : ℕ → Type 0) (H : Type 0) (r r' : Lookup) → Chosen P H r → Chosen P H r' → r ≡ r'
Chosen-unique P H (lookup_found e) (lookup_found e') (p, only) (p', only') =
    ap lookup_found (only' e p)
Chosen-unique P H (lookup_found e) lookup_ambiguous (p, only) (a, b, pa, pb, ne) =
    absurd (ne (only a pa ∙ sym (only b pb)))
Chosen-unique P H (lookup_found e) lookup_private (p, only) (h, nothing) = absurd (nothing e p)
Chosen-unique P H (lookup_found e) lookup_missing (p, only) (h, nothing) = absurd (nothing e p)
Chosen-unique P H lookup_ambiguous (lookup_found e) (a, b, pa, pb, ne) (p, only) =
    absurd (ne (only a pa ∙ sym (only b pb)))
Chosen-unique P H lookup_ambiguous lookup_ambiguous h k = refl
Chosen-unique P H lookup_ambiguous lookup_private (a, b, pa, pb, ne) (h, nothing) =
    absurd (nothing a pa)
Chosen-unique P H lookup_ambiguous lookup_missing (a, b, pa, pb, ne) (h, nothing) =
    absurd (nothing a pa)
Chosen-unique P H lookup_private (lookup_found e) (h, nothing) (p, only) = absurd (nothing e p)
Chosen-unique P H lookup_private lookup_ambiguous (h, nothing) (a, b, pa, pb, ne) =
    absurd (nothing a pa)
Chosen-unique P H lookup_private lookup_private h k = refl
Chosen-unique P H lookup_private lookup_missing (h, nothing) (clear, no') = absurd (clear h)
Chosen-unique P H lookup_missing (lookup_found e) (h, nothing) (p, only) = absurd (nothing e p)
Chosen-unique P H lookup_missing lookup_ambiguous (h, nothing) (a, b, pa, pb, ne) =
    absurd (nothing a pa)
Chosen-unique P H lookup_missing lookup_private (clear, nothing) (h, no') = absurd (clear h)
Chosen-unique P H lookup_missing lookup_missing h k = refl
