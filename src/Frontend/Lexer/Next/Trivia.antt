-- ===== src/Frontend/Lexer/Next/Trivia.antt =====
-- Blanks and comments are all skipped: bootstrap/src/frontend/lexer/lexer_next.c.
use sultanc.Prelude.{ℕ, List, [], ◌∷◌}
use sultanc.Frontend.Lexer.Cursor.{Lexer}

-- `//`
abbrev pub comment_mark : List ℕ
comment_mark = 0x2f ∷ 0x2f ∷ []
