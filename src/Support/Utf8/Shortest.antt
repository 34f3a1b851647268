-- ===== src/Support/Utf8/Shortest.antt =====
-- The decoder accepts the shortest form of a scalar value and nothing else.
use mathlib.Core.Bool.{false≢true}
use sultanc.Prelude.{
  ℕ, suc, ◌-◌, ◌+◌, ◌*◌, ◌/◌, ◌%◌, ◌≤◌, ◌<◌, ◌≡◌, refl, ap, arith, true, Option, none, some, List,
  [], ◌∷◌, length, take, All, leb, ltb, ◌⊎◌, inl, inr, Bool-cases,
}
use sultanc.Support.Utf8.{
  DecodeResult, is_scalar, lead, continue_bytes, accept, finish_decode, decode_wide, decode, encode,
}
use sultanc.Support.Utf8.Arithmetic.{lead_two, lead_three, lead_four}
use sultanc.Support.Utf8.Shapes.{
  IsByte, accepted, continue_taken, encode_one, encode_two, encode_three, encode_four,
}

-- What holds of an accepted prefix.
pub record IsEncoding (bytes : List ℕ) (c w : ℕ) : Type 0 where
  pub scalar : is_scalar c ≡ true
  pub shortest : encode c ≡ take w bytes
  pub within : w ≤ length bytes

accept_inv :
    (width r c w : ℕ) → accept width r ≡ accepted c w → (c ≡ r) × (w ≡ width) × (is_scalar r ≡ true)
unfolding accept
accept_inv width r c w h = ground arith

accept_two : (r c w : ℕ) → accept 2 r ≡ accepted c w → 0x80 ≤ r
unfolding accept
accept_two r c w h = ground arith

accept_three : (r c w : ℕ) → accept 3 r ≡ accepted c w → 0x800 ≤ r
unfolding accept
accept_three r c w h = ground arith

accept_four : (r c w : ℕ) → accept 4 r ≡ accepted c w → 0x10000 ≤ r
unfolding accept
accept_four r c w h = ground arith

finish_inv :
    (width c w : ℕ) (o : Option ℕ)
    → finish_decode width o ≡ accepted c w
    → (r : ℕ) × (o ≡ some r) × (accept width r ≡ accepted c w)
finish_inv width c w none h = absurd (false≢true (ap (λ (d : DecodeResult). d.valid) h))
finish_inv width c w (some r) h = (r, refl, h)

wide_inv :
    (width a c w : ℕ) (rest : List ℕ)
    → decode_wide (some (width, a)) (suc (length rest)) rest ≡ accepted c w
    → (width ≤ suc (length rest))
      × ((r : ℕ) × (continue_bytes (width - 1) a rest ≡ some r) × (accept width r ≡ accepted c w))
wide_inv width a c w rest h = elim (Bool-cases (ltb (suc (length rest)) width)) [
  | inl short ↦ absurd (false≢true (ap (λ (d : DecodeResult). d.valid) (rw short at h)))
  | inr enough ↦ (ground arith, finish_inv width c w _ (rw enough at h))
]

continue_done : (c r : ℕ) (bytes : List ℕ) → continue_bytes 0 c bytes ≡ some r → c ≡ r
unfolding continue_bytes
continue_done c r bytes h = cc

wide_two :
    (a : ℕ) (rest : List ℕ) (c w : ℕ)
    → a < 32
    → All IsByte rest
    → decode_wide (some (2, a)) (suc (length rest)) rest ≡ accepted c w
    → IsEncoding ((0xc0 + a) ∷ rest) c w
wide_two a [] c w ha bytes h = absurd (omega (arith, (wide_inv 2 a c w [] h).0))
wide_two a (b ∷ rest) c w ha (hb, bytes) h =
    let (fits, (r, loop, last)) = wide_inv 2 a c w (b ∷ rest) h in
    let (mark, done) = continue_taken 0 a b rest r hb (omega arith) loop in
    let value = continue_done (a * 64 + b % 64) r rest done in
    let (same, width, scalar) = accept_inv 2 r c w last in
    let bound = accept_two r c w last in
    let shape = encode_two c (omega arith) (omega arith) in
    let high : c / 64 ≡ a = omega arith in
    let low : c % 64 ≡ b % 64 = omega arith in
    record {
      scalar = rw same scalar;
      shortest = rw (shape, width, high, low, ← mark);
      within = rw width fits;
    }

wide_three :
    (a : ℕ) (rest : List ℕ) (c w : ℕ)
    → a < 16
    → All IsByte rest
    → decode_wide (some (3, a)) (suc (length rest)) rest ≡ accepted c w
    → IsEncoding ((0xe0 + a) ∷ rest) c w
wide_three a [] c w ha bytes h = absurd (omega (arith, (wide_inv 3 a c w [] h).0))
wide_three a (x ∷ []) c w ha bytes h = absurd (omega (arith, (wide_inv 3 a c w (x ∷ []) h).0))
wide_three a (x ∷ y ∷ rest) c w ha (hx, (hy, bytes)) h =
    let (fits, (r, loop, last)) = wide_inv 3 a c w (x ∷ y ∷ rest) h in
    let (mark, more) = continue_taken 1 a x (y ∷ rest) r hx (omega arith) loop in
    let (mark', done) = continue_taken 0 (a * 64 + x % 64) y rest r hy (omega arith) more in
    let value = continue_done ((a * 64 + x % 64) * 64 + y % 64) r rest done in
    let (same, width, scalar) = accept_inv 3 r c w last in
    let bound = accept_three r c w last in
    let shape = encode_three c (omega arith) (omega arith) (rw same scalar) in
    let high : c / 4096 ≡ a = omega arith in
    let middle : c / 64 % 64 ≡ x % 64 = omega arith in
    let low : c % 64 ≡ y % 64 = omega arith in
    record {
      scalar = rw same scalar;
      shortest = rw (shape, width, high, middle, low, ← mark, ← mark');
      within = rw width fits;
    }

wide_four :
    (a : ℕ) (rest : List ℕ) (c w : ℕ)
    → a < 5
    → All IsByte rest
    → decode_wide (some (4, a)) (suc (length rest)) rest ≡ accepted c w
    → IsEncoding ((0xf0 + a) ∷ rest) c w
wide_four a [] c w ha bytes h = absurd (omega (arith, (wide_inv 4 a c w [] h).0))
wide_four a (x ∷ []) c w ha bytes h = absurd (omega (arith, (wide_inv 4 a c w (x ∷ []) h).0))
wide_four a (x ∷ y ∷ []) c w ha bytes h =
    absurd (omega (arith, (wide_inv 4 a c w (x ∷ y ∷ []) h).0))
wide_four a (x ∷ y ∷ z ∷ rest) c w ha (hx, (hy, (hz, bytes))) h =
    let (fits, (r, loop, last)) = wide_inv 4 a c w (x ∷ y ∷ z ∷ rest) h in
    let (mark, more) = continue_taken 2 a x (y ∷ z ∷ rest) r hx (omega arith) loop in
    let (mark', more') = continue_taken 1 (a * 64 + x % 64) y (z ∷ rest) r hy (omega arith) more in
    let (mark'', done) =
      continue_taken 0 ((a * 64 + x % 64) * 64 + y % 64) z rest r hz (omega arith) more' in
    let value = continue_done (((a * 64 + x % 64) * 64 + y % 64) * 64 + z % 64) r rest done in
    let (same, width, scalar) = accept_inv 4 r c w last in
    let bound = accept_four r c w last in
    let shape = encode_four c (omega arith) (rw same scalar) in
    let high : c / 262144 ≡ a = omega arith in
    let upper : c / 4096 % 64 ≡ x % 64 = omega arith in
    let middle : c / 64 % 64 ≡ y % 64 = omega arith in
    let low : c % 64 ≡ z % 64 = omega arith in
    record {
      scalar = rw same scalar;
      shortest = rw (shape, width, high, upper, middle, low, ← mark, ← mark', ← mark'');
      within = rw width fits;
    }

-- The first byte decides among the widths.
abbrev ByLead : ℕ → Option (ℕ × ℕ) → Type 0
ByLead first none = Unit {0}
ByLead first (some (w, a)) =
    ((w ≡ 2) × (first ≡ 0xc0 + a) × (a < 32))
    ⊎ (((w ≡ 3) × (first ≡ 0xe0 + a) × (a < 16)) ⊎ ((w ≡ 4) × (first ≡ 0xf0 + a) × (a < 5)))

lead-ByLead : (first : ℕ) → first < 256 → ByLead first (lead first)
unfolding lead
lead-ByLead first h = ground (arith, lead_two first, lead_three first, lead_four first)

decode_by :
    (first : ℕ) (rest : List ℕ) (c w : ℕ) (o : Option (ℕ × ℕ))
    → ByLead first o
    → All IsByte rest
    → decode_wide o (suc (length rest)) rest ≡ accepted c w
    → IsEncoding (first ∷ rest) c w
decode_by first rest c w none by bytes h =
    absurd (false≢true (ap (λ (d : DecodeResult). d.valid) h))
decode_by first rest c w (some (width, a)) by bytes h = elim by [
  | inl (two, eq, ha) ↦ rw eq (wide_two a rest c w ha bytes (rw two at h))
  | inr (inl (three, eq, ha)) ↦ rw eq (wide_three a rest c w ha bytes (rw three at h))
  | inr (inr (four, eq, ha)) ↦ rw eq (wide_four a rest c w ha bytes (rw four at h))
]

single :
    (first : ℕ) (rest : List ℕ) (c w : ℕ)
    → first ≤ 0x7f
    → accepted first 1 ≡ accepted c w
    → IsEncoding (first ∷ rest) c w
single first rest c w h e =
    let value : first ≡ c = ap (λ (d : DecodeResult). d.codepoint) e in
    let width : 1 ≡ w = ap (λ (d : DecodeResult). d.width) e in
    record {
      scalar = unfold is_scalar in ground arith;
      shortest = rw (← value, ← width) (encode_one first h);
      within = omega arith;
    }

-- Whatever the decoder accepts is a scalar value whose encoding is exactly the bytes it took, and
-- they lie within the input: overlong forms, surrogates and truncated input are never accepted.
pub decode-IsEncoding :
    (bytes : List ℕ) (c w : ℕ)
    → All IsByte bytes
    → decode bytes ≡ accepted c w
    → IsEncoding bytes c w
unfolding decode
decode-IsEncoding [] c w b h = absurd (false≢true (ap (λ (d : DecodeResult). d.valid) h))
decode-IsEncoding (first ∷ rest) c w (hf, b) h = elim (Bool-cases (leb first 0x7f)) [
  | inl one ↦ single first rest c w (ground arith) (rw one at h)
  | inr wide ↦ decode_by first rest c w (lead first) (lead-ByLead first hf) b (rw wide at h)
]
