-- ===== src/Frontend/Identity/Equality.antt =====
-- Two texts name the same identifier exactly when they read as the same scalars.
use mathlib.Core.Bool.{false≢true}
use sultanc.Prelude.{
  ℕ, zero, suc, ◌≤◌, ◌<◌, ◌≡◌, refl, sym, ◌∙◌, arith, true, List, [], ◌∷◌, length, drop, ◌==◌, inl,
  inr, ◌↔◌, Bool-cases,
}
use sultanc.Support.Utf8.{decode}
use sultanc.Support.Utf8.Shapes.{accepted}
use sultanc.Frontend.Identity.Reading.{
  Reads, at_end, skip, keep, decode_width, length-drop, valid-accepted, Reads-skip_inv,
  Reads-keep_inv, StartsWith, Reads-valid, Reads-nil, Reads-unique,
}
use sultanc.Frontend.Identity.{
  ignores_scalar, NextScalar, bad_text, exhausted, found, next_semantic_scalar, next_scalar,
  equals_on, equals,
}

-- What one call of the scanner says of the readings of a text.
abbrev Meaning : List ℕ → NextScalar → Type 0
Meaning bytes bad_text = (s : List ℕ) → ¬ Reads bytes s
Meaning bytes exhausted = Reads bytes [] × ((s : List ℕ) → Reads bytes s → s ≡ [])
Meaning bytes (found c rest) =
    (length rest < length bytes)
    × ((s : List ℕ) → Reads rest s → Reads bytes (c ∷ s))
    × ((s : List ℕ) → Reads bytes s → StartsWith rest c s)

Meaning-skip :
    (bytes : List ℕ) (c w : ℕ) (o : NextScalar)
    → decode bytes ≡ accepted c w
    → ignores_scalar c ≡ true
    → length (drop w bytes) < length bytes
    → Meaning (drop w bytes) o
    → Meaning bytes o
Meaning-skip bytes c w bad_text e i short m = λ s r. m s (Reads-skip_inv bytes s c w e i r)
Meaning-skip bytes c w exhausted e i short (none_left, only) =
    (skip bytes [] c w e i none_left, λ s r. only s (Reads-skip_inv bytes s c w e i r))
Meaning-skip bytes c w (found x rest) e i short (shorter, add, inv) = (
  omega (arith, shorter, short),
  λ s r. skip bytes (x ∷ s) c w e i (add s r),
  λ s r. inv s (Reads-skip_inv bytes s c w e i r),
)

next_semantic_scalar-Meaning :
    (fuel : ℕ) (bytes : List ℕ)
    → length bytes ≤ fuel
    → Meaning bytes (next_semantic_scalar fuel bytes)
unfolding next_semantic_scalar
next_semantic_scalar-Meaning fuel [] h = (at_end, Reads-nil)
next_semantic_scalar-Meaning zero (byte ∷ bytes) h = absurd (omega arith)
next_semantic_scalar-Meaning (suc fuel) (byte ∷ bytes) h =
    let whole : List ℕ = byte ∷ bytes in
    let d = decode whole in
    elim (Bool-cases d.valid) [
      | inr bad ↦ rw bad (λ s r. absurd (false≢true (sym bad ∙ Reads-valid byte bytes s r)))
      | inl ok ↦
          let (low, high) = decode_width whole ok in
          let e = valid-accepted d ok in
          let short : length (drop d.width whole) < length whole =
            omega (arith, length-drop d.width whole, low, high) in
          elim (Bool-cases (ignores_scalar d.codepoint)) [
            | inl ignored ↦
                rw (ok, ignored)
                  (Meaning-skip whole d.codepoint d.width _ e ignored short (
                    next_semantic_scalar-Meaning fuel (drop d.width whole)
                      (omega (arith, short, h))))
            | inr kept ↦
                rw (ok, kept)
                  (
                    short,
                    λ s r. keep whole s d.codepoint d.width e kept r,
                    λ s r. Reads-keep_inv whole s d.codepoint d.width e kept r,
                  )
          ]
    ]

next_scalar-Meaning : (bytes : List ℕ) → Meaning bytes (next_scalar bytes)
next_scalar-Meaning bytes = next_semantic_scalar-Meaning (length bytes) bytes (omega arith)

-- The two texts read as the same scalars.
abbrev pub SameReading : List ℕ → List ℕ → Type 0
SameReading left right = (s : List ℕ) × Reads left s × Reads right s

cons_injective : (x y : ℕ) (xs ys s : List ℕ) → s ≡ x ∷ xs → s ≡ y ∷ ys → (x ≡ y) × (xs ≡ ys)
cons_injective x y xs ys s h k = (cc, cc)

equals_on_lem :
    (fuel : ℕ) (left right : List ℕ) (o p : NextScalar)
    → Meaning left o
    → Meaning right p
    → length left ≤ fuel
    → (equals_on fuel o p ≡ true) ↔ SameReading left right
unfolding equals_on
equals_on_lem fuel left right bad_text p m n h =
    (λ e. absurd (false≢true e), λ (s, l, r). absurd (m s l))
equals_on_lem fuel left right exhausted bad_text m n h =
    (λ e. absurd (false≢true e), λ (s, l, r). absurd (n s r))
equals_on_lem fuel left right exhausted exhausted m n h = (λ e. ([], m.0, n.0), λ b. refl)
equals_on_lem fuel left right exhausted (found c rest) m n h = (
  λ e. absurd (false≢true e),
  λ (s, l, r). let nothing = m.1 s l in let (later, starts, _) = n.2 s r in absurd cc,
)
equals_on_lem fuel left right (found c rest) bad_text m n h =
    (λ e. absurd (false≢true e), λ (s, l, r). absurd (n s r))
equals_on_lem fuel left right (found c rest) exhausted m n h = (
  λ e. absurd (false≢true e),
  λ (s, l, r). let nothing = n.1 s r in let (later, starts, _) = m.2 s l in absurd cc,
)
equals_on_lem zero left right (found c rest) (found c' rest') m n h = absurd (omega (arith, m.0))
equals_on_lem (suc fuel) left right (found c rest) (found c' rest') m n h =
    let later =
      equals_on_lem fuel rest rest' (next_scalar rest) (next_scalar rest')
        (next_scalar-Meaning rest) (next_scalar-Meaning rest') (omega (arith, m.0)) in
    elim (Bool-cases (c == c')) [
      | inr differ ↦ rw differ (
        λ e. absurd (false≢true e),
        λ (s, l, r).
            let (_, starts, _) = m.2 s l in
            let (_, starts', _) = n.2 s r in
            let (same, _) = cons_injective c c' _ _ s starts starts' in
            absurd (ground (arith, same, differ)),
      )
      | inl same ↦
          let same' : c ≡ c' = ground arith in
          rw same (
            λ e. let (s, l, r) = later.0 e in (c ∷ s, m.1 s l, rw (sym same') at (n.1 s r)),
            λ (s, l, r).
                let (t, starts, l') = m.2 s l in
                let (t', starts', r') = n.2 s r in
                let (_, tails) = cons_injective c c' t t' s starts starts' in
                later.1 (t, l', rw (← tails) at r'),
          )
    ]

-- Two texts are the same identifier exactly when both are UTF-8 and read as the same scalars, the
-- tatweel left out and the forms of alef taken as one.
pub equals-SameReading : (left right : List ℕ) → (equals left right ≡ true) ↔ SameReading left right
unfolding equals
equals-SameReading left right =
    equals_on_lem (length left) left right (next_scalar left) (next_scalar right)
      (next_scalar-Meaning left) (next_scalar-Meaning right) (omega arith)

-- Identity of texts is transitive.
pub equals_trans : (a b c : List ℕ) → equals a b ≡ true → equals b c ≡ true → equals a c ≡ true
equals_trans a b c h k =
    let (s, l, m) = (equals-SameReading a b).0 h in
    let (t, m', r) = (equals-SameReading b c).0 k in
    (equals-SameReading a c).1 (s, l, rw (← Reads-unique b s t m m') at r)
