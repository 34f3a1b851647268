-- ===== src/Frontend/Lexer/Next/Appends.antt =====
-- The steps of the loops over strings keep the cursor in the source:
-- bootstrap/src/frontend/lexer/lexer_escape.c and lexer_string.c.
use sultanc.Prelude.{
  ℕ, Bool, true, false, not, ◌&&◌, Option, none, some, leb, ◌==◌, inl, inr, Bool-cases, if_both,
}
use sultanc.Core.Source.{SourcePosition}
use sultanc.Support.Utf8.{decode, is_scalar}
use sultanc.Support.Builder
use sultanc.Frontend.Lexer.Cursor.{
  Lexer, has, peek, advance_bytes, WordingKey, word_bad_hex_escape, word_bad_unicode_escape,
  word_bad_escape,
}
use sultanc.Frontend.Lexer.Cursor.Motion.{
  IsReady, Ahead, Ahead-refl, Ahead-trans, IsReady-Ahead, advance_bytes-Ahead,
}
use sultanc.Frontend.Lexer.Escapes.{
  hex_digits, finish_hex_escape, parse_hex_escape, Appended, append_escape, escape_byte,
  scan_escape,
}
use sultanc.Frontend.Lexer.Strings.{append_and_advance, upcoming, append_raw_character}
use sultanc.Frontend.Lexer.Next.Answers.{fail-Ahead}

pub finish_hex_escape-Ahead :
    (l : Lexer) (n : ℕ) (o : Option ℕ) → IsReady l → Ahead l (finish_hex_escape l n o).0
finish_hex_escape-Ahead l n none r = Ahead-refl l r
finish_hex_escape-Ahead l n (some value) r = advance_bytes-Ahead l n r

pub parse_hex_escape-Ahead : (l : Lexer) (n : ℕ) → IsReady l → Ahead l (parse_hex_escape l n).0
unfolding parse_hex_escape
parse_hex_escape-Ahead l n r = elim (Bool-cases (has l n)) [
  | inr short ↦ rw short (Ahead-refl l r)
  | inl enough ↦ rw enough (finish_hex_escape-Ahead l n (hex_digits l n 0 0) r)
]

pub append_escape-Ahead :
    (grant : ℕ → Bool) (any : Bool) (b : Builder.Builder) (start : SourcePosition)
    (key : WordingKey) (l m : Lexer) (o : Option ℕ)
    → Ahead l m
    → Ahead l (append_escape grant any b start key (m, o)).lexer
append_escape-Ahead grant any b start key l m none a = fail-Ahead l m _ start key a
append_escape-Ahead grant any b start key l m (some c) a =
    elim (Bool-cases (not any && not (is_scalar c))) [
      | inl bad ↦ rw bad (fail-Ahead l m _ start key a)
      | inr good ↦ rw good a
    ]

module _ (grant : ℕ → Bool) (b : Builder.Builder) (start : SourcePosition) (l : Lexer)
    (r : IsReady l) where
  abbrev pub Keeps : Appended → Type 0
  Keeps a = Ahead l a.lexer

  pub numeric_escape-Ahead :
      (any : Bool) (key : WordingKey) (n : ℕ)
      → Keeps (append_escape grant any b start key (parse_hex_escape l n))
  numeric_escape-Ahead any key n =
      append_escape-Ahead grant any b start key l (parse_hex_escape l n).0 (parse_hex_escape l n).1
        (parse_hex_escape-Ahead l n r)

  pub escape_byte-Ahead : (escape : ℕ) → Keeps (escape_byte grant l b start escape)
  escape_byte-Ahead escape =
      let here = Ahead-refl l r in
      if_both Keeps (escape == 0x6e) here (
        if_both Keeps (escape == 0x72) here (
          if_both Keeps (escape == 0x74) here (
            if_both Keeps (escape == 0x5c) here (
              if_both Keeps (escape == 0x22) here (
                if_both Keeps (escape == 0x78) (numeric_escape-Ahead true word_bad_hex_escape 2) (
                  if_both Keeps (escape == 0x75)
                    (numeric_escape-Ahead false word_bad_unicode_escape 4)
                    (if_both Keeps (escape == 0x55)
                      (numeric_escape-Ahead false word_bad_unicode_escape 8)
                      (fail-Ahead l l _ start word_bad_escape here))))))))

pub scan_escape-Ahead :
    (grant : ℕ → Bool) (b : Builder.Builder) (start : SourcePosition) (l : Lexer)
    → IsReady l
    → Ahead l (scan_escape grant l b start).lexer
unfolding scan_escape
scan_escape-Ahead grant b start l r =
    let one = advance_bytes-Ahead l 1 r in
    if_both (λ (a : Appended). Ahead l a.lexer) (not (has l 1))
      (fail-Ahead l l _ start _ (Ahead-refl l r))
      (Ahead-trans l (advance_bytes l 1) _ one (
        escape_byte-Ahead grant b start (advance_bytes l 1)
          (IsReady-Ahead l (advance_bytes l 1) r one) (peek l 0)))

pub append_and_advance-Ahead :
    (l : Lexer) (start : SourcePosition) (n : ℕ) (o : Builder.Builder × Bool)
    → IsReady l
    → Ahead l (append_and_advance l start n o).lexer
append_and_advance-Ahead l start n (b, false) r = fail-Ahead l l _ start _ (Ahead-refl l r)
append_and_advance-Ahead l start n (b, true) r = advance_bytes-Ahead l n r

pub append_raw_character-Ahead :
    (grant : ℕ → Bool) (b : Builder.Builder) (start : SourcePosition) (l : Lexer)
    → IsReady l
    → Ahead l (append_raw_character grant l b start).lexer
unfolding append_raw_character
append_raw_character-Ahead grant b start l r =
    let keeps : Appended → Type 0 = λ a. Ahead l a.lexer in
    if_both keeps (leb 0x80 (peek l 0))
      (if_both keeps (not (decode (upcoming l)).valid) (fail-Ahead l l _ start _ (Ahead-refl l r))
        (append_and_advance-Ahead l start _ _ r))
      (append_and_advance-Ahead l start 1 _ r)
