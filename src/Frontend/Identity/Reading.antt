-- ===== src/Frontend/Identity/Reading.antt =====
-- The scalars that a text reads as: what bootstrap/src/frontend/identifier_identity.c compares.
use mathlib.Core.Bool.{false≢true}
use sultanc.Prelude.{
  ℕ, zero, suc, ◌-◌, ◌≤◌, ◌<◌, ◌≡◌, refl, sym, ap, ◌∙◌, arith, true, false, Option, none, some,
  List, [], ◌∷◌, length, drop, leb, ltb, inl, inr, Bool-cases,
}
use sultanc.Support.Utf8.{
  DecodeResult, decode, decode_wide, finish_decode, accept, lead, continue_bytes,
}
use sultanc.Support.Utf8.Shapes.{accepted}
use sultanc.Frontend.Identity.{ignores_scalar, normalize_scalar}

-- The text is UTF-8, and without the scalars that identity ignores it is the normal forms `scalars`.
pub data Reads : List ℕ → List ℕ → Type 0 where
  at_end : Reads [] []
  skip :
      (bytes scalars : List ℕ) (c w : ℕ)
      → decode bytes ≡ accepted c w
      → ignores_scalar c ≡ true
      → Reads (drop w bytes) scalars
      → Reads bytes scalars
  keep :
      (bytes scalars : List ℕ) (c w : ℕ)
      → decode bytes ≡ accepted c w
      → ignores_scalar c ≡ false
      → Reads (drop w bytes) scalars
      → Reads bytes (normalize_scalar c ∷ scalars)

accept_width : (n r : ℕ) → (accept n r).valid ≡ true → (accept n r).width ≡ n
unfolding accept
accept_width n r h = ground arith

finish_width :
    (n : ℕ) (o : Option ℕ) → (finish_decode n o).valid ≡ true → (finish_decode n o).width ≡ n
finish_width n none h = absurd (false≢true h)
finish_width n (some r) h = accept_width n r h

lead_width : (first w c : ℕ) → lead first ≡ some (w, c) → (2 ≤ w) × (w ≤ 4)
unfolding lead
lead_width first w c h = ground arith

wide_width :
    (first n : ℕ) (rest : List ℕ) (o : Option (ℕ × ℕ))
    → lead first ≡ o
    → (decode_wide o n rest).valid ≡ true
    → (0 < (decode_wide o n rest).width) × ((decode_wide o n rest).width ≤ n)
wide_width first n rest none e h = absurd (false≢true h)
wide_width first n rest (some (w, c)) e h = elim (Bool-cases (ltb n w)) [
  | inl short ↦ absurd (false≢true (rw short at h))
  | inr enough ↦
      let h' = rw enough at h in
      let width = finish_width w (continue_bytes (w - 1) c rest) h' in
      let bounds = lead_width first w c e in
      rw (enough, width) (omega (arith, bounds), ground arith)
]

-- An accepted scalar takes at least one byte, and no more than there are.
pub decode_width :
    (bytes : List ℕ)
    → (decode bytes).valid ≡ true
    → (0 < (decode bytes).width) × ((decode bytes).width ≤ length bytes)
unfolding decode
decode_width [] h = absurd (false≢true h)
decode_width (first ∷ rest) h = elim (Bool-cases (leb first 0x7f)) [
  | inl one ↦ rw one (omega arith, omega arith)
  | inr wide ↦ rw wide (wide_width first (suc (length rest)) rest (lead first) refl (rw wide at h))
]

pub length-drop : (n : ℕ) (xs : List ℕ) → length (drop n xs) ≡ length xs - n
length-drop zero xs = omega arith
length-drop (suc n) [] = omega arith
length-drop (suc n) (x ∷ xs) = omega (arith, length-drop n xs)

pub valid-accepted : (d : DecodeResult) → d.valid ≡ true → d ≡ accepted d.codepoint d.width
valid-accepted d h = ground arith

decode_empty : (c w : ℕ) → ¬ (decode [] ≡ accepted c w)
unfolding decode
decode_empty c w h = false≢true (ap (λ (d : DecodeResult). d.valid) h)

-- The scalar that a decoded text starts with is unique.
same_scalar :
    (d : DecodeResult) (c w c' w' : ℕ) → d ≡ accepted c w → d ≡ accepted c' w' → (c' ≡ c) × (w' ≡ w)
same_scalar d c w c' w' h h' = ground (arith, h, h')

pub Reads-skip_inv :
    (bytes s : List ℕ) (c w : ℕ)
    → decode bytes ≡ accepted c w
    → ignores_scalar c ≡ true
    → Reads bytes s
    → Reads (drop w bytes) s
Reads-skip_inv _ _ c w e i at_end = absurd (decode_empty c w e)
Reads-skip_inv _ _ c w e i (skip bytes s c' w' e' i' r) =
    let (_, width) = same_scalar (decode bytes) c w c' w' e e' in rw width at r
Reads-skip_inv _ _ c w e i (keep bytes s c' w' e' i' r) =
    let (same, _) = same_scalar (decode bytes) c w c' w' e e' in
    absurd (false≢true (sym i' ∙ ap ignores_scalar same ∙ i))

-- A reading that starts with a kept scalar.
abbrev pub StartsWith : List ℕ → ℕ → List ℕ → Type 0
StartsWith rest c s = (later : List ℕ) × (s ≡ c ∷ later) × Reads rest later

pub Reads-keep_inv :
    (bytes s : List ℕ) (c w : ℕ)
    → decode bytes ≡ accepted c w
    → ignores_scalar c ≡ false
    → Reads bytes s
    → StartsWith (drop w bytes) (normalize_scalar c) s
Reads-keep_inv _ _ c w e i at_end = absurd (decode_empty c w e)
Reads-keep_inv _ _ c w e i (skip bytes s c' w' e' i' r) =
    let (same, _) = same_scalar (decode bytes) c w c' w' e e' in
    absurd (false≢true (sym i ∙ ap ignores_scalar (sym same) ∙ i'))
Reads-keep_inv _ _ c w e i (keep bytes s c' w' e' i' r) =
    let (same, width) = same_scalar (decode bytes) c w c' w' e e' in
    (s, ap (λ (x : ℕ). normalize_scalar x ∷ s) same, rw width at r)

pub Reads-valid :
    (byte : ℕ) (bytes s : List ℕ) → Reads (byte ∷ bytes) s → (decode (byte ∷ bytes)).valid ≡ true
Reads-valid byte bytes s r = by (byte ∷ bytes) s refl r
  where
    by :
        (whole t : List ℕ)
        → whole ≡ byte ∷ bytes
        → Reads whole t
        → (decode (byte ∷ bytes)).valid ≡ true
    by _ _ e at_end = absurd cc
    by _ _ e (skip whole t c w d i r) =
        ap (λ (x : List ℕ). (decode x).valid) (sym e) ∙ ap (λ (x : DecodeResult). x.valid) d
    by _ _ e (keep whole t c w d i r) =
        ap (λ (x : List ℕ). (decode x).valid) (sym e) ∙ ap (λ (x : DecodeResult). x.valid) d

pub Reads-nil : (s : List ℕ) → Reads [] s → s ≡ []
Reads-nil _ at_end = refl
Reads-nil _ (skip _ s c w d i r) = absurd (decode_empty c w d)
Reads-nil _ (keep _ s c w d i r) = absurd (decode_empty c w d)

-- A text has one reading.
pub Reads-unique : (bytes s t : List ℕ) → Reads bytes s → Reads bytes t → s ≡ t
Reads-unique _ _ t at_end r' = sym (Reads-nil t r')
Reads-unique _ _ t (skip bytes s c w e i r) r' =
    Reads-unique (drop w bytes) s t r (Reads-skip_inv bytes t c w e i r')
Reads-unique _ _ t (keep bytes s c w e i r) r' =
    let (later, starts, r'') = Reads-keep_inv bytes t c w e i r' in
    ap (λ (x : List ℕ). normalize_scalar c ∷ x) (Reads-unique (drop w bytes) s later r r'')
    ∙ sym starts
