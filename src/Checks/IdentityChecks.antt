-- ===== src/Checks/IdentityChecks.antt =====
-- The theorems on identifiers and keywords at concrete inputs: bootstrap/src/frontend/identifier_identity.c
-- and bootstrap/src/frontend/lexer/keyword.c.
use sultanc.Prelude.{ℕ, ◌≡◌, ◌↔◌, refl, true, false, some, List, [], ◌∷◌}
use sultanc.Frontend.Token.{token_if}
use sultanc.Frontend.Identity.{equals}
use sultanc.Frontend.Identity.Equality.{SameReading, equals-SameReading}
use sultanc.Frontend.Lexer.KeywordTable.{Entry, entry}
use sultanc.Frontend.Lexer.Keywords.{keyword_lookup}
use sultanc.Frontend.Lexer.Keywords.Spellings.{keyword_lookup_iff}

-- The letter alef with a hamza above it, the bare letter, and the bare letter with a tatweel behind it.
abbrev alef_hamza : List ℕ
alef_hamza = 0xd8 ∷ 0xa3 ∷ []

abbrev alef : List ℕ
alef = 0xd8 ∷ 0xa7 ∷ []

abbrev alef_tatweel : List ℕ
alef_tatweel = 0xd8 ∷ 0xa7 ∷ 0xd9 ∷ 0x80 ∷ []

equals-SameReading_example :
    (equals alef_hamza alef_tatweel ≡ true) ↔ SameReading alef_hamza alef_tatweel
equals-SameReading_example = equals-SameReading alef_hamza alef_tatweel

-- The Arabic spelling of `if`, with a tatweel between its letters.
abbrev stretched_if : List ℕ
stretched_if = 0xd9 ∷ 0x84 ∷ 0xd9 ∷ 0x80 ∷ 0xd9 ∷ 0x88 ∷ []

abbrev if_entry : Entry
if_entry = entry (0xd9 ∷ 0x84 ∷ 0xd9 ∷ 0x88 ∷ []) token_if false

keyword_lookup_iff_example :
    (keyword_lookup stretched_if ≡ some if_entry) ↔ SameReading stretched_if if_entry.alias_bytes
keyword_lookup_iff_example = keyword_lookup_iff stretched_if 29 if_entry refl
