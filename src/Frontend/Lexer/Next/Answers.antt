-- ===== src/Frontend/Lexer/Next/Answers.antt =====
-- What a scanning function may answer, and that the ways to answer keep to it:
-- bootstrap/src/frontend/lexer/lexer_cursor_set_token.c and lexer_cursor_fail.c.
use sultanc.Prelude.{
  suc, Bool-cases, ℕ, ◌<◌, ◌≡◌, refl, ap, ◌⊎◌, inl, inr, arith, true, Option, none, some,
}
use sultanc.Core.Source.{SourceFile, SourcePosition, source_slice}
use sultanc.Frontend.Token.{TokenKind, PayloadKind, payload_kind_of, Payload, Token, token_eof}
use sultanc.Frontend.Lexer.Cursor.{
  has, advance_bytes, Lexer, ErrorId, WordingKey, position, fail, is_payload_kind, set_payload,
}
use sultanc.Frontend.Lexer.Cursor.Motion.{
  IsReady, Ahead, Ahead-trans, IsReady-Ahead, IsLocated, advance_bytes-Ahead, advance_bytes_moves,
}

-- The token spans the source from the start `s` to the cursor of `m`, and is not empty unless it is the
-- end of the file.
pub record IsTokenOf (s m : Lexer) (t : Token) : Type 0 where
  pub starts : t.span.start ≡ position s
  pub ends : t.span.end ≡ position m
  pub lexeme_is : t.lexeme ≡ source_slice s.source s.offset m.offset
  pub consumed : (t.kind ≡ token_eof) ⊎ (s.offset < m.offset)

-- A scan from `s` leaves the cursor at or behind `s`, in the same source; a token is one of what it read.
abbrev pub Answer : Lexer → Lexer × Option Token → Type 0
Answer s (m, none) = Ahead s m
Answer s (m, some t) = Ahead s m × IsTokenOf s m t

IsLocated-fail :
    (m : Lexer) (id : ErrorId) (start : SourcePosition) (key : WordingKey)
    → IsLocated m
    → IsLocated (fail m id start key).0
IsLocated-fail m id start key h = record {
  line_counted = h.line_counted;
  column_counted = h.column_counted;
}

pub fail-Ahead :
    (s m : Lexer) (id : ErrorId) (start : SourcePosition) (key : WordingKey)
    → Ahead s m
    → Ahead s (fail m id start key).0
fail-Ahead s m id start key a = record {
  same = a.same;
  forward = a.forward;
  within = a.within;
  located = λ h. IsLocated-fail m id start key (a.located h);
}

pub fail-Answer :
    (s m : Lexer) (id : ErrorId) (start : SourcePosition) (key : WordingKey)
    → Ahead s m
    → Answer s (fail m id start key)
fail-Answer s m id start key a = fail-Ahead s m id start key a

pub set_payload-Answer :
    (s m : Lexer) (expected : PayloadKind) (p : Payload) (kind : TokenKind)
    → Ahead s m
    → (kind ≡ token_eof) ⊎ (s.offset < m.offset)
    → Answer s (set_payload expected p m kind (position s) s.offset)
set_payload-Answer s m expected p kind a read =
    elim (Bool-cases (is_payload_kind (payload_kind_of kind) expected)) [
      | inl takes ↦ rw takes (
        a,
        record {
          starts = refl;
          ends = refl;
          lexeme_is = ap (λ (f : SourceFile). source_slice f s.offset m.offset) a.same;
          consumed = read;
        },
      )
      | inr mismatch ↦ rw mismatch (fail-Ahead s m _ (position s) _ a)
    ]

-- An answer of a scan that starts behind `s` is one of a scan from `s`, where no token is given.
pub give_up : (s : Lexer) (r : Lexer × Option Token) → Answer s r → Answer s (r.0, none)
give_up s (m, none) a = a
give_up s (m, some t) a = a.0

-- The cursor of `m` stands behind that of `s`.
pub record Past (s m : Lexer) : Type 0 where
  pub ahead : Ahead s m
  pub moved : s.offset < m.offset

pub Past-Ahead : (s m n : Lexer) → Past s m → Ahead m n → Past s n
Past-Ahead s m n p a = record {
  ahead = Ahead-trans s m n p.ahead a;
  moved = omega (arith, p.moved, a.forward);
}

pub Past-advance : (s m : Lexer) (n : ℕ) → IsReady s → Past s m → Past s (advance_bytes m n)
Past-advance s m n r p = Past-Ahead s m _ p (advance_bytes-Ahead m n (IsReady-Ahead s m r p.ahead))

pub advance-Past :
    (s : Lexer) (n : ℕ) → IsReady s → has s 1 ≡ true → Past s (advance_bytes s (suc n))
advance-Past s n r h = record {
  ahead = advance_bytes-Ahead s (suc n) r;
  moved = advance_bytes_moves s n r h;
}
