-- ===== src/Frontend/Lexer/Next/Literals.antt =====
-- The scanner of numbers answers with a token of what it read, or fails:
-- bootstrap/src/frontend/lexer/lexer_number.c.
use sultanc.Prelude.{
  ℕ, ◌≡◌, refl, arith, Bool, true, ◌&&◌, ◌||◌, Option, none, some, List, ◌==◌, inl, inr, Bool-cases,
}
use sultanc.Core.Source.{source_slice}
use sultanc.Frontend.Token.{
  integer_payload, token_lit_int, payload_none, no_payload, token_lit_flo, payload_integer,
}
use sultanc.Frontend.Lexer.Characters.{is_decimal_digit}
use sultanc.Frontend.Lexer.Cursor.{Lexer, has, peek, matches, advance_bytes, position}
use sultanc.Frontend.Lexer.Cursor.Motion.{
  IsReady, Ahead, Ahead-refl, Ahead-trans, IsReady-Ahead, advance_bytes-Ahead,
}
use sultanc.Frontend.Lexer.Runs.{run, remaining, skip_while-Ahead, run_moves}
use sultanc.Frontend.Lexer.Numbers.{
  binary_prefix, hexadecimal_prefix, is_decimal_part, is_binary_part, is_hexadecimal_part,
  exponent_digits, scan_decimal_digits, scan_fraction, scan_sign, scan_exponent, scan_digits,
  separators_valid, take_integer, finish_number, scan_number,
}
use sultanc.Frontend.Lexer.Next.Answers.{
  Answer, fail-Answer, set_payload-Answer, Past, Past-Ahead, advance-Past,
}

pub run-Ahead : (test : ℕ → Bool) (l : Lexer) → IsReady l → Ahead l (run test l)
run-Ahead test l r = skip_while-Ahead test (remaining l) l r

pub advance-run-Ahead :
    (test : ℕ → Bool) (l : Lexer) (n : ℕ) → IsReady l → Ahead l (run test (advance_bytes l n))
advance-run-Ahead test l n r =
    let a = advance_bytes-Ahead l n r in
    Ahead-trans l (advance_bytes l n) _ a
      (run-Ahead test (advance_bytes l n) (IsReady-Ahead l (advance_bytes l n) r a))

scan_fraction-Ahead : (l : Lexer) → IsReady l → Ahead l (scan_fraction l).0
unfolding scan_fraction
scan_fraction-Ahead l r =
    elim (Bool-cases (has l 2 && peek l 0 == 0x2e && is_decimal_digit (peek l 1))) [
      | inl point ↦ rw point (advance-run-Ahead is_decimal_part l 1 r)
      | inr whole ↦ rw whole (Ahead-refl l r)
    ]

scan_sign-Ahead : (l : Lexer) → IsReady l → Ahead l (scan_sign l)
unfolding scan_sign
scan_sign-Ahead l r = elim (Bool-cases (has l 1 && (peek l 0 == 0x2b || peek l 0 == 0x2d))) [
  | inl sign ↦ rw sign (advance_bytes-Ahead l 1 r)
  | inr bare ↦ rw bare (Ahead-refl l r)
]

-- A lexer whose cursor is put back to that of `l`.
restored-Ahead :
    (l m : Lexer)
    → IsReady l
    → Ahead l m
    → Ahead l (record m { offset = l.offset; line = l.line; column = l.column })
restored-Ahead l m r a = record {
  same = a.same;
  forward = omega arith;
  within = r.inside;
  located = λ h. record {
    line_counted = rw (a.same) h.line_counted;
    column_counted = rw (a.same) h.column_counted;
  };
}

exponent_digits-Ahead :
    (l m : Lexer) (b : Bool) → IsReady l → Ahead l m → Ahead l (exponent_digits l b m).0
exponent_digits-Ahead l m b r a = elim (Bool-cases (has m 1 && is_decimal_digit (peek m 0))) [
  | inl digit ↦ rw digit (Ahead-trans l m _ a (run-Ahead is_decimal_part m (IsReady-Ahead l m r a)))
  | inr none_there ↦ rw none_there (restored-Ahead l m r a)
]

scan_exponent-Ahead : (l : Lexer) (b : Bool) → IsReady l → Ahead l (scan_exponent (l, b)).0
unfolding scan_exponent
scan_exponent-Ahead l b r = elim (Bool-cases (has l 1 && (peek l 0 == 0x65 || peek l 0 == 0x45))) [
  | inr without ↦ rw without (Ahead-refl l r)
  | inl letter ↦
      let one = advance_bytes-Ahead l 1 r in
      let r' = IsReady-Ahead l (advance_bytes l 1) r one in
      rw letter (
        exponent_digits-Ahead l (scan_sign (advance_bytes l 1)) b r
          (Ahead-trans l (advance_bytes l 1) _ one (scan_sign-Ahead (advance_bytes l 1) r')))
]

-- The scanner of a number starts at a digit, and moves past it.
scan_digits-Past :
    (l : Lexer)
    → IsReady l
    → has l 1 ≡ true
    → is_decimal_digit (peek l 0) ≡ true
    → Past l (scan_digits l).0
unfolding scan_digits
scan_digits-Past l r more digit = elim (Bool-cases (matches l binary_prefix)) [
  | inl binary ↦
      let two = advance-Past l 1 r more in
      rw binary (
        Past-Ahead l (advance_bytes l 2) _ two (
          run-Ahead is_binary_part (advance_bytes l 2)
            (IsReady-Ahead l (advance_bytes l 2) r two.ahead)))
  | inr other ↦ elim (Bool-cases (matches l hexadecimal_prefix)) [
    | inl hexadecimal ↦
        let two = advance-Past l 1 r more in
        rw (other, hexadecimal)
          (Past-Ahead l (advance_bytes l 2) _ two (
            run-Ahead is_hexadecimal_part (advance_bytes l 2)
              (IsReady-Ahead l (advance_bytes l 2) r two.ahead)))
    | inr decimal ↦
        let first = run-Ahead is_decimal_part l r in
        let m = scan_decimal_digits l in
        let r' = IsReady-Ahead l m r first in
        let point = scan_fraction-Ahead m r' in
        let n = scan_fraction m in
        let power = scan_exponent-Ahead n.0 n.1 (IsReady-Ahead m n.0 r' point) in
        rw (other, decimal)
          (Past-Ahead l m _
            (record {
              ahead = first;
              moved = run_moves is_decimal_part l r (rw (more, digit) refl);
            })
            (Ahead-trans m n.0 _ point power))
  ]
]

take_integer-Answer :
    (s m : Lexer) (spelling : List ℕ) (o : Option (ℕ × Bool))
    → Past s m
    → Answer s (take_integer m (position s) s.offset spelling o)
take_integer-Answer s m spelling none p = fail-Answer s m _ (position s) _ p.ahead
take_integer-Answer s m spelling (some (value, wide)) p =
    set_payload-Answer s m payload_integer
      (integer_payload (record { value = value; spelling = spelling; unsigned_wide = wide }))
      token_lit_int p.ahead (inr p.moved)

finish_number-Answer :
    (s m : Lexer) (b : Bool) → Past s m → Answer s (finish_number (m, b) (position s) s.offset)
unfolding finish_number
finish_number-Answer s m b p =
    elim (Bool-cases (separators_valid (source_slice m.source s.offset m.offset))) [
      | inr bad ↦ rw bad (fail-Answer s m _ (position s) _ p.ahead)
      | inl valid ↦ elim (Bool-cases b) [
        | inl float ↦
            rw (valid, float)
              (set_payload-Answer s m payload_none no_payload token_lit_flo p.ahead (inr p.moved))
        | inr integer ↦ rw (valid, integer) (take_integer-Answer s m _ _ p)
      ]
    ]

pub scan_number-Answer :
    (s : Lexer)
    → IsReady s
    → has s 1 ≡ true
    → is_decimal_digit (peek s 0) ≡ true
    → Answer s (scan_number s (position s) s.offset)
unfolding scan_number
scan_number-Answer s r more digit =
    finish_number-Answer s (scan_digits s).0 (scan_digits s).1 (scan_digits-Past s r more digit)
