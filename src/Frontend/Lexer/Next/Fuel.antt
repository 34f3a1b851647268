-- ===== src/Frontend/Lexer/Next/Fuel.antt =====
-- The loops of the lexer and the fuel that they need: as many rounds as there are bytes left.
-- bootstrap/src/frontend/lexer/lexer_next.c and lexer_string.c
use sultanc.Prelude.{
  ℕ, zero, suc, ◌+◌, ◌-◌, ◌/◌, ◌≤◌, ◌<◌, ◌≡◌, refl, arith, Bool, true, false, not, ◌&&◌, Option,
  leb, ltb, ◌==◌, ◌⊎◌, inl, inr, Bool-cases, if_cong, int64_max,
}
use sultanc.Core.Source.{SourcePosition}
use sultanc.Support.Utf8.{decode}
use sultanc.Support.Builder
use sultanc.Frontend.Token.{Token}
use sultanc.Frontend.Identity.Reading.{decode_width}
use sultanc.Frontend.Lexer.Characters.{is_decimal_digit, is_id_rest}
use sultanc.Frontend.Lexer.Cursor.{Lexer, has, peek, matches, advance_bytes}
use sultanc.Frontend.Lexer.Cursor.Motion.{IsReady, IsReady-Ahead, has_iff_within}
use sultanc.Frontend.Lexer.Runs.{remaining}
use sultanc.Frontend.Lexer.Escapes.{Appended}
use sultanc.Frontend.Lexer.Strings.{
  left_guillemet, right_guillemet, append_and_advance, upcoming, append_raw_character, resume,
  scan_raw, scan_quoted,
}
use sultanc.Frontend.Lexer.Next.{decode_at, scan_index, identifier_run}
use sultanc.Frontend.Lexer.Next.Answers.{Past, Past-Ahead, advance-Past}
use sultanc.Frontend.Lexer.Next.Appends.{scan_escape-Ahead}
use sultanc.Frontend.Lexer.Next.Progress.{decode_at_width, advance-Past_by}

pub remaining_less : (l m : Lexer) → Past l m → remaining m < remaining l
remaining_less l m p = let same = p.ahead.same in rw same (omega (arith, p.moved, p.ahead.within))

remaining_fits : (l m : Lexer) (fuel : ℕ) → Past l m → remaining l ≤ suc fuel → remaining m ≤ fuel
remaining_fits l m fuel p h = let less = remaining_less l m p in omega arith

nothing_left : (l : Lexer) → IsReady l → remaining l ≤ 0 → has l 1 ≡ false
nothing_left l r h = let e = has_iff_within l 1 r (omega arith) in ground (arith, e, r.inside)

resume_cong :
    (k k' : Lexer → Builder.Builder → Lexer × Option Token) (a : Appended)
    → (a.success ≡ true → k a.lexer a.builder ≡ k' a.lexer a.builder)
    → resume k a ≡ resume k' a
resume_cong k k' a h = if_cong a.success h (λ e. refl)

append_and_advance-Past :
    (l : Lexer) (start : SourcePosition) (n : ℕ) (o : Builder.Builder × Bool)
    → IsReady l
    → has l 1 ≡ true
    → 0 < n
    → (append_and_advance l start n o).success ≡ true
    → Past l (append_and_advance l start n o).lexer
append_and_advance-Past l start n (b, false) r more pos h = cc
append_and_advance-Past l start n (b, true) r more pos h = advance-Past_by l n r more pos

append_raw_character-Past :
    (grant : ℕ → Bool) (l : Lexer) (b : Builder.Builder) (start : SourcePosition)
    → IsReady l
    → has l 1 ≡ true
    → (append_raw_character grant l b start).success ≡ true
    → Past l (append_raw_character grant l b start).lexer
unfolding append_raw_character
append_raw_character-Past grant l b start r more h = elim (Bool-cases (leb 0x80 (peek l 0))) [
  | inr narrow ↦
      rw narrow (append_and_advance-Past l start 1 _ r more (omega arith) (rw narrow at h))
  | inl wide ↦ elim (Bool-cases (decode (upcoming l)).valid) [
    | inl valid ↦
        let (low, high) = decode_width (upcoming l) valid in
        rw (wide, valid) (append_and_advance-Past l start _ _ r more low (rw (wide, valid) at h))
    | inr bad ↦ let h' = rw (wide, bad) at h in cc
  ]
]

module _ (grant : ℕ → Bool) (start : SourcePosition) (start_offset : ℕ) where
  scan_raw_enough :
      (fuel depth : ℕ) (l : Lexer) (b : Builder.Builder)
      → IsReady l
      → remaining l ≤ fuel
      → scan_raw grant start start_offset fuel depth l b
        ≡ scan_raw grant start start_offset (suc fuel) depth l b
  unfolding scan_raw
  scan_raw_enough zero depth l b r h = rw (nothing_left l r h) refl
  scan_raw_enough (suc fuel) depth l b r h =
      let same : (d : ℕ) (a : Appended)
          → (a.success ≡ true → Past l a.lexer)
          → resume (scan_raw grant start start_offset fuel d) a
            ≡ resume (scan_raw grant start start_offset (suc fuel) d) a =
        λ d a p.
          resume_cong (scan_raw grant start start_offset fuel d)
            (scan_raw grant start start_offset (suc fuel) d) a
            (λ ok.
              scan_raw_enough fuel d a.lexer a.builder (IsReady-Ahead l a.lexer r (p ok).ahead)
                (remaining_fits l a.lexer fuel (p ok) h)) in
      if_cong (not (has l 1)) (λ e. refl)
        (λ full.
          let more : has l 1 ≡ true = ground (arith, full) in
          if_cong (matches l left_guillemet)
            (λ e.
              if_cong (leb 256 depth) (λ e'. refl)
                (λ e'.
                  same (depth + 1) _ (append_and_advance-Past l start 2 _ r more (omega arith))))
            (λ e.
              if_cong (matches l right_guillemet)
                (λ e'.
                  if_cong (depth - 1 == 0) (λ e''. refl)
                    (λ e''.
                      same (depth - 1) _
                        (append_and_advance-Past l start 2 _ r more (omega arith))))
                (λ e'. same depth _ (append_raw_character-Past grant l b start r more))))

  scan_quoted_enough :
      (fuel : ℕ) (l : Lexer) (b : Builder.Builder)
      → IsReady l
      → remaining l ≤ fuel
      → scan_quoted grant start start_offset fuel l b
        ≡ scan_quoted grant start start_offset (suc fuel) l b
  unfolding scan_quoted
  scan_quoted_enough zero l b r h = rw (nothing_left l r h) refl
  scan_quoted_enough (suc fuel) l b r h =
      let same : (a : Appended)
          → (a.success ≡ true → Past l a.lexer)
          → resume (scan_quoted grant start start_offset fuel) a
            ≡ resume (scan_quoted grant start start_offset (suc fuel)) a =
        λ a p.
          resume_cong (scan_quoted grant start start_offset fuel)
            (scan_quoted grant start start_offset (suc fuel)) a
            (λ ok.
              scan_quoted_enough fuel a.lexer a.builder (IsReady-Ahead l a.lexer r (p ok).ahead)
                (remaining_fits l a.lexer fuel (p ok) h)) in
      if_cong (not (has l 1)) (λ e. refl)
        (λ full.
          let more : has l 1 ≡ true = ground (arith, full) in
          let one = advance-Past l 0 r more in
          let ready = IsReady-Ahead l (advance_bytes l 1) r one.ahead in
          if_cong (peek l 0 == 0x22) (λ e. refl)
            (λ e.
              if_cong (peek l 0 == 0x0a) (λ e'. refl)
                (λ e'.
                  if_cong (peek l 0 == 0x5c)
                    (λ e''. same _ (λ ok.
                      Past-Ahead l (advance_bytes l 1) _ one
                        (scan_escape-Ahead grant b start (advance_bytes l 1) ready)))
                    (λ e''. same _ (append_raw_character-Past grant l b start r more)))))

scan_index_enough :
    (fuel value : ℕ) (l : Lexer) (start : SourcePosition) (start_offset : ℕ)
    → IsReady l
    → remaining l ≤ fuel
    → scan_index fuel value l start start_offset ≡ scan_index (suc fuel) value l start start_offset
unfolding scan_index
scan_index_enough zero value l start start_offset r h = rw (nothing_left l r h) refl
scan_index_enough (suc fuel) value l start start_offset r h =
    if_cong (has l 1 && is_decimal_digit (peek l 0))
      (λ digit.
        let one = advance-Past l 0 r (ground (arith, digit)) in
        if_cong (ltb ((int64_max - (peek l 0 - 0x30)) / 10) value) (λ e. refl)
          (λ e.
            scan_index_enough fuel _ (advance_bytes l 1) start start_offset
              (IsReady-Ahead l (advance_bytes l 1) r one.ahead)
              (remaining_fits l (advance_bytes l 1) fuel one h)))
      (λ e. refl)

identifier_run_enough :
    (fuel : ℕ) (l : Lexer)
    → IsReady l
    → remaining l ≤ fuel
    → identifier_run fuel l ≡ identifier_run (suc fuel) l
unfolding identifier_run
identifier_run_enough zero l r h = rw (nothing_left l r h) refl
identifier_run_enough (suc fuel) l r h =
    let current = decode_at l l.offset in
    if_cong (not (has l 1)) (λ e. refl)
      (λ full.
        if_cong (not current.valid) (λ e. refl)
          (λ valid.
            if_cong (not (is_id_rest current.codepoint)) (λ e. refl)
              (λ rest.
                let wide = decode_at_width l l.offset (ground (arith, valid)) in
                let one = advance-Past_by l current.width r (ground (arith, full)) wide in
                identifier_run_enough fuel (advance_bytes l current.width)
                  (IsReady-Ahead l (advance_bytes l current.width) r one.ahead)
                  (remaining_fits l (advance_bytes l current.width) fuel one h))))

-- What stopped the loop over an identifier: the end of the text or a character that is no part of an
-- identifier, or with `false` an invalid encoding.
abbrev pub Stopped : Lexer × Bool → Type 0
Stopped (m, true) =
    (has m 1 ≡ false)
    ⊎ (((decode_at m m.offset).valid ≡ true)
        × (is_id_rest (decode_at m m.offset).codepoint ≡ false))
Stopped (m, false) = (has m 1 ≡ true) × ((decode_at m m.offset).valid ≡ false)

-- The loop over the characters of an identifier ends: with as much fuel as there are bytes left, or more,
-- it answers because one of its own tests stopped it, never because the fuel was used up. It stands at the
-- end of the text, at a valid character that is no part of an identifier, or, where it reports an
-- error, at an invalid encoding.
pub identifier_run_ends :
    (fuel : ℕ) (l : Lexer) → IsReady l → remaining l ≤ fuel → Stopped (identifier_run fuel l)
unfolding identifier_run
identifier_run_ends zero l r h = inl (nothing_left l r h)
identifier_run_ends (suc fuel) l r h =
    let current = decode_at l l.offset in
    elim (Bool-cases (has l 1)) [
      | inr over ↦ rw over (inl over)
      | inl more ↦ elim (Bool-cases current.valid) [
        | inr bad ↦ rw (more, bad) (more, bad)
        | inl valid ↦ elim (Bool-cases (is_id_rest current.codepoint)) [
          | inr other ↦ rw (more, valid, other) (inr (valid, other))
          | inl rest ↦
              let wide = decode_at_width l l.offset valid in
              let one = advance-Past_by l current.width r more wide in
              rw (more, valid, rest)
                (identifier_run_ends fuel (advance_bytes l current.width)
                  (IsReady-Ahead l (advance_bytes l current.width) r one.ahead)
                  (remaining_fits l (advance_bytes l current.width) fuel one h))
        ]
      ]
    ]
