-- ===== src/Frontend/Identity.antt =====
-- Identity of identifiers: bootstrap/src/frontend/identifier_identity.c. A text is the list of its
-- bytes; a reading offset is the list of the bytes that remain.
pub mod Reading
pub mod Equality
use sultanc.Prelude.{
  ℕ, zero, suc, Bool, true, false, not, ◌&&◌, List, [], ◌∷◌, length, drop, ◌==◌, if◌then◌else◌,
}
use sultanc.Support.Utf8.{DecodeResult, decode}

-- `__Identifier_Identity_Ignores_Scalar__`: the tatweel.
abbrev pub ignores_scalar : ℕ → Bool
ignores_scalar scalar = scalar == 0x640

-- `__Identifier_Identity_Normalize_Scalar__`: the forms of alef.
abbrev pub normalize_scalar : ℕ → ℕ
normalize_scalar scalar =
    if scalar == 0x622
    then 0x627
    else if scalar == 0x623
    then 0x627
    else if scalar == 0x625
    then 0x627
    else scalar

-- What `__Identifier_Next_Semantic_Scalar__` answers: -1, 0, or 1 with a scalar and what remains.
pub data NextScalar : Type 0 where
  bad_text : NextScalar
  exhausted : NextScalar
  found : ℕ → List ℕ → NextScalar

-- `__Identifier_Next_Semantic_Scalar__`. Each round reads at least one byte, so as many rounds as there
-- are bytes are enough.
unfoldable pub next_semantic_scalar : ℕ → List ℕ → NextScalar
next_semantic_scalar fuel [] = exhausted
next_semantic_scalar zero (byte ∷ bytes) = bad_text
next_semantic_scalar (suc fuel) (byte ∷ bytes) =
    let decoded = decode (byte ∷ bytes) in
    let remaining = drop decoded.width (byte ∷ bytes) in
    let rest = next_semantic_scalar fuel remaining in
    if not decoded.valid
    then bad_text
    else if ignores_scalar decoded.codepoint
    then rest
    else found (normalize_scalar decoded.codepoint) remaining

abbrev pub next_scalar : List ℕ → NextScalar
next_scalar bytes = next_semantic_scalar (length bytes) bytes

-- `__Identifier_Identity_Has_Content__`
unfoldable pub has_content : List ℕ → Bool
unfolding next_semantic_scalar
has_content bytes = elim (next_scalar bytes) [ found scalar rest ↦ true | _ ↦ false ]

-- The loop of `__Identifier_Identity_Equals__`. Each round reads at least one byte of each text.
unfoldable pub equals_on : ℕ → NextScalar → NextScalar → Bool
unfolding next_semantic_scalar
equals_on fuel bad_text right = false
equals_on fuel exhausted exhausted = true
equals_on fuel exhausted right = false
equals_on fuel (found scalar rest) bad_text = false
equals_on fuel (found scalar rest) exhausted = false
equals_on zero (found scalar rest) (found other rest') = false
equals_on (suc fuel) (found scalar rest) (found other rest') =
    let later = equals_on fuel (next_scalar rest) (next_scalar rest') in
    if not (scalar == other) then false else later

-- `__Identifier_Identity_Equals__`, and `__Identifier_Identity_Equals_Cstr__` on the bytes before the
-- closing zero.
unfoldable pub equals : List ℕ → List ℕ → Bool
unfolding next_semantic_scalar equals_on
equals left right = equals_on (length left) (next_scalar left) (next_scalar right)
