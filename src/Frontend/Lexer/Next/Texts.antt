-- ===== src/Frontend/Lexer/Next/Texts.antt =====
-- The scanners of strings and characters answer with a token of what they read, or fail:
-- bootstrap/src/frontend/lexer/lexer_escape.c and lexer_string.c.
use sultanc.Prelude.{
  ℕ, zero, suc, ◌+◌, ◌-◌, Bool, not, ◌||◌, Option, none, some, List, length, take, leb, ◌==◌, inr,
  if_both,
}
use sultanc.Support.Utf8.{decode, is_scalar}
use sultanc.Support.Arena.{Arena, StoredText, copy_text}
use sultanc.Support.Builder
use sultanc.Frontend.Token.{
  Token, payload_text, payload_character, text_payload, character_payload, token_lit_str,
  token_lit_char,
}
use sultanc.Frontend.Lexer.Cursor.{
  Lexer, has, peek, matches, advance_bytes, position, fail, ErrorId, WordingKey,
}
use sultanc.Frontend.Lexer.Cursor.Motion.{IsReady, IsReady-Ahead}
use sultanc.Frontend.Lexer.Runs.{remaining}
use sultanc.Frontend.Lexer.Escapes.{parse_hex_escape, Appended}
use sultanc.Frontend.Lexer.Strings.{
  left_guillemet, right_guillemet, built_text, finish_copy, finish_string, append_and_advance,
  upcoming, append_raw_character, resume, scan_raw, scan_quoted, scan_string, finish_character,
  finish_hex, character_escape, scan_character,
}
use sultanc.Frontend.Lexer.Next.Answers.{
  Answer, fail-Answer, set_payload-Answer, Past, Past-Ahead, Past-advance,
}
use sultanc.Frontend.Lexer.Next.Appends.{
  parse_hex_escape-Ahead, scan_escape-Ahead, append_and_advance-Ahead, append_raw_character-Ahead,
}

kept : (s m : Lexer) (arena : Arena) → Past s m → Past s (record m { literal_arena = arena })
kept s m arena p = record {
  ahead = record {
    same = p.ahead.same;
    forward = p.ahead.forward;
    within = p.ahead.within;
    located = λ h.
        let there = p.ahead.located h in
        record { line_counted = there.line_counted; column_counted = there.column_counted };
  };
  moved = p.moved;
}

finish_copy-Answer :
    (s m : Lexer) (text : List ℕ) (o : Arena × Option StoredText)
    → Past s m
    → Answer s (finish_copy m (position s) s.offset text o)
finish_copy-Answer s m text (arena, none) p =
    fail-Answer s (record m { literal_arena = arena }) _ (position s) _ (kept s m arena p).ahead
finish_copy-Answer s m text (arena, some stored) p =
    set_payload-Answer s (record m { literal_arena = arena }) payload_text
      (text_payload (take (length text) stored.bytes)) token_lit_str (kept s m arena p).ahead
      (inr p.moved)

finish_string-Answer :
    (grant : ℕ → Bool) (s m : Lexer) (b : Builder.Builder)
    → Past s m
    → Answer s (finish_string grant m (position s) s.offset b)
unfolding finish_string
finish_string-Answer grant s m b p =
    finish_copy-Answer s m (built_text b) (copy_text grant m.literal_arena (built_text b)) p

-- The rest of a loop that answers well from every cursor behind `s`.
abbrev Continues : Lexer → (Lexer → Builder.Builder → Lexer × Option Token) → Type 0
Continues s continue = (m : Lexer) (b : Builder.Builder) → Past s m → Answer s (continue m b)

resume-Answer :
    (s : Lexer) (continue : Lexer → Builder.Builder → Lexer × Option Token) (a : Appended)
    → Continues s continue
    → Past s a.lexer
    → Answer s (resume continue a)
resume-Answer s continue a c p = if_both (Answer s) a.success (c a.lexer a.builder p) p.ahead

module _ (grant : ℕ → Bool) (s : Lexer) (r : IsReady s) where
  ready : (m : Lexer) → Past s m → IsReady m
  ready m p = IsReady-Ahead s m r p.ahead

  failed-Answer :
      (m : Lexer) (id : ErrorId) (key : WordingKey)
      → Past s m
      → Answer s (fail m id (position s) key)
  failed-Answer m id key p = fail-Answer s m id (position s) key p.ahead

  append_and_advance-Past :
      (m : Lexer) (n : ℕ) (o : Builder.Builder × Bool)
      → Past s m
      → Past s (append_and_advance m (position s) n o).lexer
  append_and_advance-Past m n o p =
      Past-Ahead s m _ p (append_and_advance-Ahead m (position s) n o (ready m p))

  append_raw_character-Past :
      (m : Lexer) (b : Builder.Builder)
      → Past s m
      → Past s (append_raw_character grant m b (position s)).lexer
  append_raw_character-Past m b p =
      Past-Ahead s m _ p (append_raw_character-Ahead grant b (position s) m (ready m p))

  scan_raw-Answer : (fuel depth : ℕ) → Continues s (scan_raw grant (position s) s.offset fuel depth)
  unfolding scan_raw
  scan_raw-Answer zero depth m b p = failed-Answer m _ _ p
  scan_raw-Answer (suc fuel) depth m b p =
      let next : (d : ℕ) (a : Appended)
          → Past s a.lexer
          → Answer s (resume (scan_raw grant (position s) s.offset fuel d) a) =
        λ d a q. resume-Answer s _ a (scan_raw-Answer fuel d) q in
      if_both (Answer s) (not (has m 1)) (failed-Answer m _ _ p) (
        if_both (Answer s) (matches m left_guillemet)
          (if_both (Answer s) (leb 256 depth) (failed-Answer m _ _ p)
            (next (depth + 1) _ (append_and_advance-Past m 2 _ p)))
          (if_both (Answer s) (matches m right_guillemet)
            (if_both (Answer s) (depth - 1 == 0)
              (finish_string-Answer grant s (advance_bytes m 2) b (Past-advance s m 2 r p))
              (next (depth - 1) _ (append_and_advance-Past m 2 _ p)))
            (next depth _ (append_raw_character-Past m b p))))

  scan_quoted-Answer : (fuel : ℕ) → Continues s (scan_quoted grant (position s) s.offset fuel)
  unfolding scan_quoted
  scan_quoted-Answer zero m b p = failed-Answer m _ _ p
  scan_quoted-Answer (suc fuel) m b p =
      let next : (a : Appended)
          → Past s a.lexer
          → Answer s (resume (scan_quoted grant (position s) s.offset fuel) a) =
        λ a q. resume-Answer s _ a (scan_quoted-Answer fuel) q in
      let one = Past-advance s m 1 r p in
      if_both (Answer s) (not (has m 1)) (failed-Answer m _ _ p) (
        if_both (Answer s) (peek m 0 == 0x22)
          (finish_string-Answer grant s (advance_bytes m 1) b one)
          (if_both (Answer s) (peek m 0 == 0x0a) (failed-Answer m _ _ p) (
            if_both (Answer s) (peek m 0 == 0x5c)
              (next _ (
                Past-Ahead s (advance_bytes m 1) _ one (
                  scan_escape-Ahead grant b (position s) (advance_bytes m 1)
                    (ready (advance_bytes m 1) one))))
              (next _ (append_raw_character-Past m b p)))))

  pub scan_string-Answer :
      (m : Lexer) (guillemet : Bool)
      → Past s m
      → Answer s (scan_string grant m (position s) s.offset guillemet)
  unfolding scan_string
  scan_string-Answer m guillemet p =
      if_both (Answer s) guillemet (scan_raw-Answer (suc (remaining m)) 1 m Builder.init p)
        (scan_quoted-Answer (suc (remaining m)) m Builder.init p)

  finish_character-Answer :
      (m : Lexer) (c : ℕ) → Past s m → Answer s (finish_character m (position s) s.offset c)
  finish_character-Answer m c p =
      let closed = Past-advance s m 1 r p in
      if_both (Answer s) (not (is_scalar c)) (failed-Answer m _ _ p) (
        if_both (Answer s) (not (has m 1) || not (peek m 0 == 0x27)) (failed-Answer m _ _ p) (
          set_payload-Answer s (advance_bytes m 1) payload_character (character_payload c)
            token_lit_char closed.ahead (inr closed.moved)))

  finish_hex-Answer :
      (m : Lexer) (o : Option ℕ) → Past s m → Answer s (finish_hex (m, o) (position s) s.offset)
  finish_hex-Answer m none p = failed-Answer m _ _ p
  finish_hex-Answer m (some c) p = finish_character-Answer m c p

  hex_character-Answer :
      (m : Lexer) (n : ℕ)
      → Past s m
      → Answer s (finish_hex (parse_hex_escape m n) (position s) s.offset)
  hex_character-Answer m n p =
      finish_hex-Answer (parse_hex_escape m n).0 (parse_hex_escape m n).1
        (Past-Ahead s m _ p (parse_hex_escape-Ahead m n (ready m p)))

  character_escape-Answer :
      (m : Lexer) (escape : ℕ)
      → Past s m
      → Answer s (character_escape m (position s) s.offset escape)
  character_escape-Answer m escape p =
      let plain : (c : ℕ) → Answer s (finish_character m (position s) s.offset c) =
        λ c. finish_character-Answer m c p in
      if_both (Answer s) (escape == 0x6e) (plain 0x0a) (
        if_both (Answer s) (escape == 0x72) (plain 0x0d) (
          if_both (Answer s) (escape == 0x74) (plain 0x09) (
            if_both (Answer s) (escape == 0x5c) (plain 0x5c) (
              if_both (Answer s) (escape == 0x27) (plain 0x27) (
                if_both (Answer s) (escape == 0x78) (hex_character-Answer m 2 p) (
                  if_both (Answer s) (escape == 0x75) (hex_character-Answer m 4 p) (
                    if_both (Answer s) (escape == 0x55) (hex_character-Answer m 8 p)
                      (failed-Answer m _ _ p))))))))

  pub scan_character-Answer :
      (m : Lexer) → Past s m → Answer s (scan_character m (position s) s.offset)
  unfolding scan_character
  scan_character-Answer m p =
      let behind = Past-advance s m 1 r p in
      if_both (Answer s) (not (has m 1)) (failed-Answer m _ _ p) (
        if_both (Answer s) (peek m 0 == 0x5c)
          (if_both (Answer s) (not (has (advance_bytes m 1) 1))
            (failed-Answer (advance_bytes m 1) _ _ behind)
            (character_escape-Answer (advance_bytes (advance_bytes m 1) 1)
              (peek (advance_bytes m 1) 0) (Past-advance s (advance_bytes m 1) 1 r behind)))
          (if_both (Answer s) (not (decode (upcoming m)).valid) (failed-Answer m _ _ p) (
            finish_character-Answer (advance_bytes m (decode (upcoming m)).width) _
              (Past-advance s m _ r p))))
