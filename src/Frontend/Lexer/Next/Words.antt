-- ===== src/Frontend/Lexer/Next/Words.antt =====
-- Blanks, indices, identifiers and symbols: the parts of bootstrap/src/frontend/lexer/lexer_next.c that
-- start anywhere behind a token start.
use sultanc.Prelude.{
  ℕ, zero, suc, ◌+◌, ◌-◌, ◌*◌, ◌/◌, Bool, true, false, not, ◌&&◌, Option, none, some, [], ◌∷◌, drop,
  leb, ltb, inr, if_both, int64_max, wrap64,
}
use sultanc.Core.Source.{source_slice}
use sultanc.Support.Utf8.{decode}
use sultanc.Frontend.Token.{
  Token, token_identifier, token_underscore_with_index, payload_none, no_payload, payload_index,
  index_payload, payload_boolean, boolean_payload,
}
use sultanc.Frontend.Identity.{has_content}
use sultanc.Frontend.Lexer.Characters.{is_decimal_digit, is_id_rest}
use sultanc.Frontend.Lexer.Cursor.{
  Lexer, has, peek, matches, advance_bytes, position, fail, ErrorId, WordingKey,
}
use sultanc.Frontend.Lexer.Cursor.Motion.{
  IsReady, Ahead, Ahead-refl, Ahead-trans, IsReady-Ahead, advance_bytes-Ahead,
}
use sultanc.Frontend.Lexer.Runs.{run}
use sultanc.Frontend.Lexer.KeywordTable.{Entry}
use sultanc.Frontend.Lexer.Keywords.{keyword_lookup}
use sultanc.Frontend.Lexer.Next.{
  decode_at, is_blank, in_comment, skip_trivia, scan_index, identifier_run, is_lit_bool, take_word,
  finish_word, scan_symbol,
}
use sultanc.Frontend.Lexer.Next.Answers.{
  Answer, fail-Answer, set_payload-Answer, Past, Past-advance,
}
use sultanc.Frontend.Lexer.Next.Literals.{run-Ahead}

pub skip_trivia-Ahead : (fuel : ℕ) (l : Lexer) → IsReady l → Ahead l (skip_trivia fuel l)
unfolding skip_trivia
skip_trivia-Ahead zero l r = Ahead-refl l r
skip_trivia-Ahead (suc fuel) l r =
    let first = run-Ahead is_blank l r in
    let m = run is_blank l in
    let r' = IsReady-Ahead l m r first in
    let second = run-Ahead in_comment m r' in
    let n = run in_comment m in
    if_both (Ahead l) (matches m (0x2f ∷ 0x2f ∷ []))
      (Ahead-trans l n _ (Ahead-trans l m n first second)
        (skip_trivia-Ahead fuel n (IsReady-Ahead m n r' second)))
      first

module _ (s : Lexer) (r : IsReady s) where
  pub failed-Answer :
      (m : Lexer) (id : ErrorId) (key : WordingKey)
      → Ahead s m
      → Answer s (fail m id (position s) key)
  failed-Answer m id key a = fail-Answer s m id (position s) key a

  pub scan_index-Answer :
      (fuel value : ℕ) (m : Lexer)
      → Past s m
      → Answer s (scan_index fuel value m (position s) s.offset)
  unfolding scan_index
  scan_index-Answer zero value m p =
      set_payload-Answer s m payload_index (index_payload value) token_underscore_with_index p.ahead
        (inr p.moved)
  scan_index-Answer (suc fuel) value m p =
      let digit = peek m 0 - 0x30 in
      if_both (Answer s) (has m 1 && is_decimal_digit (peek m 0))
        (if_both (Answer s) (ltb ((int64_max - digit) / 10) value) (failed-Answer m _ _ p.ahead) (
          scan_index-Answer fuel (wrap64 (value * 10 + digit)) (advance_bytes m 1)
            (Past-advance s m 1 r p)))
        (set_payload-Answer s m payload_index (index_payload value) token_underscore_with_index
          p.ahead (inr p.moved))

  pub identifier_run-Ahead : (fuel : ℕ) (m : Lexer) → Ahead s m → Ahead s (identifier_run fuel m).0
  unfolding identifier_run
  identifier_run-Ahead zero m a = a
  identifier_run-Ahead (suc fuel) m a =
      let current = decode_at m m.offset in
      let keeps : Lexer × Bool → Type 0 = λ o. Ahead s o.0 in
      let one = advance_bytes-Ahead m current.width (IsReady-Ahead s m r a) in
      if_both keeps (not (has m 1)) a (
        if_both keeps (not current.valid) a (
          if_both keeps (not (is_id_rest current.codepoint)) a (
            identifier_run-Ahead fuel (advance_bytes m current.width)
              (Ahead-trans s m (advance_bytes m current.width) a one))))

  pub take_word-Answer :
      (m : Lexer) (o : Option Entry) → Past s m → Answer s (take_word m (position s) s.offset o)
  take_word-Answer m none p =
      set_payload-Answer s m payload_none no_payload token_identifier p.ahead (inr p.moved)
  take_word-Answer m (some keyword) p =
      if_both (Answer s) (is_lit_bool keyword.kind)
        (set_payload-Answer s m payload_boolean (boolean_payload keyword.boolean_value) keyword.kind
          p.ahead (inr p.moved))
        (set_payload-Answer s m payload_none no_payload keyword.kind p.ahead (inr p.moved))

  pub finish_word-Answer :
      (m : Lexer) (b : Bool) → Past s m → Answer s (finish_word (m, b) (position s) s.offset)
  finish_word-Answer m false p = failed-Answer m _ _ p.ahead
  finish_word-Answer m true p =
      let text = source_slice m.source s.offset m.offset in
      if_both (Answer s) (not (has_content text)) (failed-Answer m _ _ p.ahead)
        (take_word-Answer m (keyword_lookup text) p)

  pub scan_symbol-Answer :
      (o : Lexer × Option Token) → Answer s o → Answer s (scan_symbol o (position s))
  scan_symbol-Answer (m, some t) a = a
  scan_symbol-Answer (m, none) a =
      let here = IsReady-Ahead s m r a in
      if_both (Answer s) (leb 0x80 (peek m 0) && not (decode (drop m.offset m.source.bytes)).valid)
        (failed-Answer m _ _ a)
        (failed-Answer (advance_bytes m 1) _ _
          (Ahead-trans s m (advance_bytes m 1) a (advance_bytes-Ahead m 1 here)))
