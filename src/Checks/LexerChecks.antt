-- ===== src/Checks/LexerChecks.antt =====
-- The theorems on the lexer at concrete inputs: bootstrap/src/frontend/lexer.
use sultanc.Prelude.{
  ℕ, ◌≤◌, ◌≡◌, ◌≢◌, ◌↔◌, refl, arith, Bool, true, false, some, List, [], ◌∷◌, length, ltb,
  int64_max,
}
use sultanc.Frontend.Token.{token_right_shift_operator, token_greater_than_operator}
use sultanc.Frontend.Lexer.Cursor.{Lexer, init, matches}
use sultanc.Frontend.Lexer.Cursor.Motion.{IsReady, Ahead}
use sultanc.Frontend.Lexer.Numbers.{parse_integer_value}
use sultanc.Frontend.Lexer.Numbers.Literal.{IsIntegerOf, parse_integer_value_iff}
use sultanc.Frontend.Lexer.Operators.{OperatorEntry, find_operator}
use sultanc.Frontend.Lexer.Operators.Longest.{find_operator-longest}
use sultanc.Frontend.Lexer.Next.{identifier_run, next}
use sultanc.Frontend.Lexer.Next.Answers.{Answer}
use sultanc.Frontend.Lexer.Next.Progress.{token_start, next-Answer}
use sultanc.Frontend.Lexer.Next.Fuel.{Stopped, identifier_run_ends}
use sultanc.Frontend.Lexer.Next.Stream.{lex_all, out_of_fuel, lex_all_ends}

abbrev grants_all : ℕ → Bool
grants_all bytes = true

-- `x:=0x1F//c`
abbrev assignment : List ℕ
assignment = 0x78 ∷ 0x3a ∷ 0x3d ∷ 0x30 ∷ 0x78 ∷ 0x31 ∷ 0x46 ∷ 0x2f ∷ 0x2f ∷ 0x63 ∷ []

abbrev lexer_of : List ℕ → Lexer
unfolding init
lexer_of bytes = init (record { name = []; bytes = bytes })

assignment-IsReady : IsReady (lexer_of assignment)
unfolding lexer_of
assignment-IsReady = record { inside = omega arith; small = omega arith }

next-Answer_example :
    Ahead (lexer_of assignment) (token_start (lexer_of assignment))
    × Answer (token_start (lexer_of assignment)) (next grants_all (lexer_of assignment))
unfolding lexer_of
next-Answer_example = next-Answer grants_all (lexer_of assignment) assignment-IsReady refl

lex_all_ends_example : (lex_all grants_all 11 (lexer_of assignment)).1 ≢ out_of_fuel
unfolding lexer_of
lex_all_ends_example =
    lex_all_ends grants_all 11 (lexer_of assignment) assignment-IsReady (omega arith)

identifier_run_ends_example : Stopped (identifier_run 10 (lexer_of assignment))
unfolding lexer_of
identifier_run_ends_example =
    identifier_run_ends 10 (lexer_of assignment) assignment-IsReady (omega arith)

-- `0x1_F`
abbrev thirty_one : List ℕ
thirty_one = 0x30 ∷ 0x78 ∷ 0x31 ∷ 0x5f ∷ 0x46 ∷ []

parse_integer_value_iff_example :
    (parse_integer_value thirty_one ≡ some (31, false))
    ↔ (IsIntegerOf thirty_one 31 × (false ≡ ltb int64_max 31))
parse_integer_value_iff_example = parse_integer_value_iff thirty_one 31 false

abbrev right_shift : OperatorEntry
right_shift = record { spelling = 0x3e ∷ 0x3e ∷ []; kind = token_right_shift_operator }

abbrev greater_than : OperatorEntry
greater_than = record { spelling = 0x3e ∷ []; kind = token_greater_than_operator }

-- `>>1`
abbrev shift : Lexer
shift = lexer_of (0x3e ∷ 0x3e ∷ 0x31 ∷ [])

find_operator-longest_example :
    (matches shift right_shift.spelling ≡ true)
    × (length greater_than.spelling ≤ length right_shift.spelling)
unfolding find_operator matches lexer_of
find_operator-longest_example =
    find_operator-longest shift 19 right_shift greater_than refl refl refl
