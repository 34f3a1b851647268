-- ===== src/Frontend/Lexer/Keywords.antt =====
-- Keyword lookup: bootstrap/src/frontend/lexer/keyword.c. The result's found flag is the option.
pub mod Spellings
use sultanc.Prelude.{ℕ, Bool, Option, none, some, List, [], ◌∷◌, if◌then◌else◌}
use sultanc.Frontend.Identity.{equals}
use sultanc.Frontend.Lexer.KeywordTable.{Entry, keyword_entries}

-- The loop of `__Keyword_Lookup__`.
unfoldable pub lookup_in : List ℕ → List Entry → Option Entry
lookup_in text [] = none
lookup_in text (entry ∷ entries) =
    let rest = lookup_in text entries in if equals text entry.alias_bytes then some entry else rest

-- `__Keyword_Lookup__`
unfoldable pub keyword_lookup : List ℕ → Option Entry
unfolding lookup_in
keyword_lookup text = lookup_in text keyword_entries
