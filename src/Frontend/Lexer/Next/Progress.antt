-- ===== src/Frontend/Lexer/Next/Progress.antt =====
-- Every call of the lexer answers with a token of what it read, behind blanks and comments, or fails:
-- bootstrap/src/frontend/lexer/lexer_next.c.
use mathlib.Core.Bool.{false≢true}
use sultanc.Prelude.{
  ℕ, zero, suc, ◌+◌, ◌<◌, ◌≡◌, refl, sym, ◌∙◌, arith, Bool, true, false, not, ◌&&◌, Option, none,
  some, List, [], ◌∷◌, length, drop, leb, ltb, ◌==◌, inl, inr, Bool-cases, if_both, if_either,
}
use sultanc.Frontend.Token.{token_eof, token_underscore_operator, payload_none, no_payload}
use sultanc.Frontend.Identity.Reading.{decode_width}
use sultanc.Frontend.Lexer.Characters.{is_decimal_digit, is_id_start, is_id_rest}
use sultanc.Frontend.Lexer.Cursor.{Lexer, has, peek, matches, advance_bytes, position}
use sultanc.Frontend.Lexer.Cursor.Motion.{IsReady, Ahead, Ahead-refl, IsReady-Ahead}
use sultanc.Frontend.Lexer.Runs.{remaining, has_one}
use sultanc.Frontend.Lexer.Operators.{
  OperatorEntry, operators, find_operator, take_operator, scan_operator,
}
use sultanc.Frontend.Lexer.Strings.{left_guillemet}
use sultanc.Frontend.Lexer.Next.{
  decode_at, skip_trivia, identifier_run, scan_plain, scan_underscore, scan_token, next,
}
use sultanc.Frontend.Lexer.Next.Answers.{Answer, set_payload-Answer, Past, Past-Ahead, advance-Past}
use sultanc.Frontend.Lexer.Next.Literals.{scan_number-Answer}
use sultanc.Frontend.Lexer.Next.Texts.{scan_string-Answer, scan_character-Answer}
use sultanc.Frontend.Lexer.Next.Words.{
  skip_trivia-Ahead, scan_index-Answer, identifier_run-Ahead, finish_word-Answer,
  scan_symbol-Answer,
}

pub decode_at_width : (l : Lexer) (n : ℕ) → (decode_at l n).valid ≡ true → 0 < (decode_at l n).width
unfolding decode_at
decode_at_width l n h = elim (Bool-cases (leb (length l.source.bytes) n)) [
  | inl past ↦ absurd (false≢true (rw past at h))
  | inr inside ↦ rw inside ((decode_width (drop n l.source.bytes) (rw inside at h)).0)
]

pub id_start-id_rest : (c : ℕ) → is_id_start c ≡ true → is_id_rest c ≡ true
unfolding is_id_rest
id_start-id_rest c h = ground (arith, h)

pub advance-Past_by :
    (s : Lexer) (n : ℕ) → IsReady s → has s 1 ≡ true → 0 < n → Past s (advance_bytes s n)
advance-Past_by s zero r h pos = elim pos [ ]
advance-Past_by s (suc n) r h pos = advance-Past s n r h

-- Every operator has a spelling.
abbrev all_spelled : List OperatorEntry → Bool
all_spelled [] = true
all_spelled (e ∷ entries) = ltb 0 (length e.spelling) && all_spelled entries

find_operator_spelled :
    (l : Lexer) (entries : List OperatorEntry) (e : OperatorEntry)
    → all_spelled entries ≡ true
    → find_operator l entries ≡ some e
    → 0 < length e.spelling
unfolding find_operator
find_operator_spelled l [] e a f = cc
find_operator_spelled l (x ∷ entries) e a f = elim (Bool-cases (matches l x.spelling)) [
  | inl here ↦
      let same : x ≡ e = cc in
      let spelled : ltb 0 (length x.spelling) ≡ true = ground (arith, a) in
      ground (arith, rw same at spelled)
  | inr later ↦ find_operator_spelled l entries e (ground (arith, a)) (rw later at f)
]

module _ (s : Lexer) (r : IsReady s) (more : has s 1 ≡ true) where
  identifier_run-Past :
      (fuel : ℕ)
      → 0 < fuel
      → (decode_at s s.offset).valid ≡ true
      → is_id_start (decode_at s s.offset).codepoint ≡ true
      → Past s (identifier_run fuel s).0
  unfolding identifier_run
  identifier_run-Past zero pos valid starts = elim pos [ ]
  identifier_run-Past (suc fuel) pos valid starts =
      let width = (decode_at s s.offset).width in
      let one = advance-Past_by s width r more (decode_at_width s s.offset valid) in
      let ready = IsReady-Ahead s (advance_bytes s width) r one.ahead in
      rw (more, valid, id_start-id_rest _ starts)
        (Past-Ahead s (advance_bytes s width) _ one (
          identifier_run-Ahead (advance_bytes s width) ready fuel (advance_bytes s width)
            (Ahead-refl (advance_bytes s width) ready)))

  take_operator-Answer :
      (o : Option OperatorEntry)
      → find_operator s operators ≡ o
      → Answer s (take_operator s o (position s) s.offset)
  take_operator-Answer none f = Ahead-refl s r
  take_operator-Answer (some e) f =
      let past =
        advance-Past_by s (length e.spelling) r more (find_operator_spelled s operators e refl f) in
      set_payload-Answer s (advance_bytes s (length e.spelling)) payload_none no_payload e.kind
        past.ahead (inr past.moved)

  scan_operator-Answer : Answer s (scan_operator s (position s) s.offset)
  unfolding scan_operator
  scan_operator-Answer = take_operator-Answer (find_operator s operators) refl

  scan_plain-Answer : Answer s (scan_plain s (position s) s.offset)
  scan_plain-Answer =
      let first = decode_at s s.offset in
      let some_left : 0 < remaining s = omega (arith, has_one s r more) in
      if_either (Answer s) (is_decimal_digit (peek s 0)) (scan_number-Answer s r more) (λ no_digit.
        if_either (Answer s) (first.valid && is_id_start first.codepoint)
          (λ word.
            finish_word-Answer s r (identifier_run (remaining s) s).0
              (identifier_run (remaining s) s).1
              (identifier_run-Past (remaining s) some_left (ground (arith, word))
                (ground (arith, word))))
          (λ no_word.
            scan_symbol-Answer s r (scan_operator s (position s) s.offset) scan_operator-Answer))

  scan_underscore-Answer : Answer s (scan_underscore s (position s) s.offset)
  scan_underscore-Answer =
      let next' = decode_at s (s.offset + 1) in
      let one = advance-Past s 0 r more in
      if_both (Answer s) (has s 2 && is_decimal_digit (peek s 1))
        (scan_index-Answer s r (remaining s) 0 (advance_bytes s 1) one)
        (if_both (Answer s) (has s 2 && (next'.valid && is_id_rest next'.codepoint))
          scan_plain-Answer
          (set_payload-Answer s (advance_bytes s 1) payload_none no_payload
            token_underscore_operator one.ahead (inr one.moved)))

scan_token-Answer : (grant : ℕ → Bool) (s : Lexer) → IsReady s → Answer s (scan_token grant s)
unfolding scan_token
scan_token-Answer grant s r =
    if_either (Answer s) (not (has s 1))
      (λ empty.
        set_payload-Answer s s payload_none no_payload token_eof (Ahead-refl s r) (inl refl))
      (λ full.
        let more : has s 1 ≡ true = ground (arith, full) in
        let one = advance-Past s 0 r more in
        if_both (Answer s) (matches s left_guillemet)
          (scan_string-Answer grant s r (advance_bytes s 2) true (advance-Past s 1 r more))
          (if_both (Answer s) (peek s 0 == 0x22)
            (scan_string-Answer grant s r (advance_bytes s 1) false one)
            (if_both (Answer s) (peek s 0 == 0x27)
              (scan_character-Answer grant s r (advance_bytes s 1) one)
              (if_both (Answer s) (peek s 0 == 0x5f) (scan_underscore-Answer s r more)
                (scan_plain-Answer s r more)))))

-- Where a token starts: behind the blanks and comments at the cursor.
abbrev pub token_start : Lexer → Lexer
token_start lexer = skip_trivia (suc (remaining lexer)) lexer

-- A call of a lexer that has not failed moves the cursor forward in the source, keeps the line and the
-- column those of the text behind it, and answers with a token or none. A token spans the source from
-- where blanks and comments end to the cursor, its lexeme is that part of the source, and it is not
-- empty unless it is the end of the file.
pub next-Answer :
    (grant : ℕ → Bool) (l : Lexer)
    → IsReady l
    → l.failed ≡ false
    → Ahead l (token_start l) × Answer (token_start l) (next grant l)
unfolding next
next-Answer grant l r sound =
    let before = skip_trivia-Ahead (suc (remaining l)) l r in
    (
      before,
      if_either (Answer (token_start l)) l.failed
          (λ failed. absurd (false≢true (sym sound ∙ failed)))
          (λ fine.
            scan_token-Answer grant (token_start l) (IsReady-Ahead l (token_start l) r before)),
    )
