-- ===== src/Frontend/Lexer/Next/Stream.antt =====
-- Calling the lexer until it gives the end of the file or no token, as the parser does:
-- bootstrap/src/frontend/lexer/lexer_next.c.
use mathlib.Core.Bool.{false≢true}
use mathlib.Core.Option.{none-ne-some}
use sultanc.Prelude.{
  ℕ, zero, suc, ◌<◌, ◌≡◌, ◌≢◌, refl, sym, ap, ◌∙◌, arith, Bool, true, false, Option, none, some,
  List, [], ◌∷◌, if◌then◌else◌, inl, inr, Bool-cases,
}
use sultanc.Frontend.Token.{Token, TokenKind, token_eof}
use sultanc.Frontend.Lexer.Cursor.{Lexer}
use sultanc.Frontend.Lexer.Cursor.Motion.{IsReady, Ahead, Ahead-trans, IsReady-Ahead}
use sultanc.Frontend.Lexer.Runs.{remaining}
use sultanc.Frontend.Lexer.Next.{next}
use sultanc.Frontend.Lexer.Next.Answers.{Answer, IsTokenOf, Past}
use sultanc.Frontend.Lexer.Next.Progress.{token_start, next-Answer}
use sultanc.Frontend.Lexer.Next.Fuel.{remaining_less}

-- How a run of calls ends.
pub data End : Type 0 where
  end_of_file no_token out_of_fuel : End

abbrev pub is_eof : TokenKind → Bool
is_eof token_eof = true
is_eof _ = false

-- The token in front of the later ones, unless it is the last.
abbrev pub add_token : Token → List Token × End → List Token × End
add_token token rest =
    if is_eof token.kind then (token ∷ [], end_of_file) else (token ∷ rest.0, rest.1)

abbrev pub add_answer : Option Token → List Token × End → List Token × End
add_answer none rest = ([], no_token)
add_answer (some token) rest = add_token token rest

-- All tokens up to the end of the file or the first call without one.
unfoldable pub lex_all : (ℕ → Bool) → ℕ → Lexer → List Token × End
lex_all grant zero lexer = ([], out_of_fuel)
lex_all grant (suc fuel) lexer =
    let answer = next grant lexer in
    let rest = lex_all grant fuel answer.0 in add_answer answer.1 rest

eof_is : (kind : TokenKind) → kind ≡ token_eof → is_eof kind ≡ true
eof_is kind h = ap is_eof h

add_token_ends :
    (t : Token) (rest : List Token × End)
    → (is_eof t.kind ≡ false → rest.1 ≢ out_of_fuel)
    → (add_token t rest).1 ≢ out_of_fuel
add_token_ends t rest h = elim (Bool-cases (is_eof t.kind)) [
  | inl last ↦ rw last (λ e. cc)
  | inr more ↦ rw more (h more)
]

add_answer_ends :
    (o : Option Token) (rest : List Token × End)
    → ((t : Token) → o ≡ some t → is_eof t.kind ≡ false → rest.1 ≢ out_of_fuel)
    → (add_answer o rest).1 ≢ out_of_fuel
add_answer_ends none rest h = λ e. cc
add_answer_ends (some t) rest h = add_token_ends t rest (h t refl)

failed_call : (grant : ℕ → Bool) (l : Lexer) → l.failed ≡ true → (next grant l).1 ≡ none
unfolding next
failed_call grant l h = rw h refl

Answer-token :
    (s : Lexer) (r : Lexer × Option Token) (t : Token)
    → Answer s r
    → r.1 ≡ some t
    → Ahead s r.0 × IsTokenOf s r.0 t
Answer-token s (m, none) t a e = absurd (none-ne-some t e)
Answer-token s (m, some t') t a e = let same : t' ≡ t = cc in rw same at a

-- A call that gives a token which is not the end of the file moves the cursor.
token_moves :
    (grant : ℕ → Bool) (l : Lexer) (t : Token)
    → IsReady l
    → (next grant l).1 ≡ some t
    → is_eof t.kind ≡ false
    → Past l (next grant l).0
token_moves grant l t r e more = elim (Bool-cases l.failed) [
  | inl failed ↦ absurd (none-ne-some t (sym (failed_call grant l failed) ∙ e))
  | inr sound ↦
      let (before, answer) = next-Answer grant l r sound in
      let (ahead, token) = Answer-token (token_start l) (next grant l) t answer e in
      elim token.consumed [
        | inl last ↦ absurd (false≢true (sym more ∙ eof_is t.kind last))
        | inr moved ↦ record {
          ahead = Ahead-trans l (token_start l) _ before ahead;
          moved = omega (arith, before.forward, moved);
        }
      ]
]

-- Calling the lexer again and again comes to the end of the file or to a call without a token, within as
-- many calls as there are bytes left and one more.
pub lex_all_ends :
    (grant : ℕ → Bool) (fuel : ℕ) (l : Lexer)
    → IsReady l
    → remaining l < fuel
    → (lex_all grant fuel l).1 ≢ out_of_fuel
unfolding lex_all
lex_all_ends grant zero l r h = elim h [ ]
lex_all_ends grant (suc fuel) l r h =
    add_answer_ends (next grant l).1 (lex_all grant fuel (next grant l).0) (λ t given more.
      let past = token_moves grant l t r given more in
      let less = remaining_less l (next grant l).0 past in
      lex_all_ends grant fuel (next grant l).0 (IsReady-Ahead l (next grant l).0 r past.ahead)
        (omega (arith, less, h)))
