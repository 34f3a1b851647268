-- ===== src/Frontend/Lexer/Keywords/Spellings.antt =====
-- Every keyword spelling is found, in every form that reads the same.
use mathlib.Core.Bool.{false≢true}
use sultanc.Prelude.{
  ◌↔◌, ℕ, zero, suc, ◌≡◌, refl, sym, ◌∙◌, arith, Bool, true, false, not, ◌&&◌, some, List, [], ◌∷◌,
  get_elem?, inl, inr, Bool-cases,
}
use sultanc.Support.Utf8.{
  decode, lead, continue_bytes, is_continuation_byte, accept, shift_in, is_scalar,
}
use sultanc.Frontend.Identity.{equals, equals_on, next_semantic_scalar}
use sultanc.Frontend.Identity.Equality.{equals-SameReading, SameReading, equals_trans}
use sultanc.Frontend.Lexer.KeywordTable.{Entry, keyword_entries}
use sultanc.Frontend.Lexer.Keywords.{lookup_in, keyword_lookup}

-- No entry of the list is the same identifier as the text.
abbrev apart_from : List ℕ → List Entry → Bool
apart_from text [] = true
apart_from text (e ∷ entries) = not (equals text e.alias_bytes) && apart_from text entries

abbrev distinct : List Entry → Bool
distinct [] = true
distinct (e ∷ entries) = apart_from e.alias_bytes entries && distinct entries

keyword_entries-distinct : distinct keyword_entries ≡ true
unfolding equals equals_on next_semantic_scalar decode lead continue_bytes is_continuation_byte
    accept shift_in is_scalar
keyword_entries-distinct = refl

equals_sym : (a b : List ℕ) → equals a b ≡ true → equals b a ≡ true
equals_sym a b h =
    let (s, l, r) = (equals-SameReading a b).0 h in (equals-SameReading b a).1 (s, r, l)

apart_from-at :
    (text : List ℕ) (entries : List Entry) (i : ℕ) (e : Entry)
    → apart_from text entries ≡ true
    → get_elem? entries i ≡ some e
    → equals text e.alias_bytes ≡ false
apart_from-at text [] i e d at = cc
apart_from-at text (x ∷ entries) zero e d at =
    let same : x ≡ e = cc in rw (← same) (ground (arith, d))
apart_from-at text (x ∷ entries) (suc i) e d at =
    apart_from-at text entries i e (ground (arith, d)) at

lookup_in-at :
    (text : List ℕ) (entries : List Entry) (i : ℕ) (e : Entry)
    → distinct entries ≡ true
    → get_elem? entries i ≡ some e
    → equals text e.alias_bytes ≡ true
    → lookup_in text entries ≡ some e
unfolding lookup_in
lookup_in-at text [] i e d at h = cc
lookup_in-at text (x ∷ entries) zero e d at h = let same : x ≡ e = cc in rw (same, h) refl
lookup_in-at text (x ∷ entries) (suc i) e d at h =
    let apart = apart_from-at x.alias_bytes entries i e (ground (arith, d)) at in
    elim (Bool-cases (equals text x.alias_bytes)) [
      | inl earlier ↦ absurd (
          false≢true (
            sym apart
            ∙ equals_trans x.alias_bytes text e.alias_bytes (equals_sym text x.alias_bytes earlier)
                h))
      | inr later ↦ rw later (lookup_in-at text entries i e (ground (arith, d)) at h)
    ]

lookup_in-found :
    (text : List ℕ) (entries : List Entry) (e : Entry)
    → lookup_in text entries ≡ some e
    → equals text e.alias_bytes ≡ true
unfolding lookup_in
lookup_in-found text [] e h = cc
lookup_in-found text (x ∷ entries) e h = elim (Bool-cases (equals text x.alias_bytes)) [
  | inl here ↦ let same : x ≡ e = cc in rw same at here
  | inr later ↦ lookup_in-found text entries e (rw later at h)
]

-- A text is looked up as an entry of the keyword table exactly when it reads as the spelling of that
-- entry: no spelling hides another, in either language.
pub keyword_lookup_iff :
    (text : List ℕ) (i : ℕ) (e : Entry)
    → get_elem? keyword_entries i ≡ some e
    → (keyword_lookup text ≡ some e) ↔ SameReading text e.alias_bytes
unfolding keyword_lookup
keyword_lookup_iff text i e at = (
  λ h. (equals-SameReading text e.alias_bytes).0 (lookup_in-found text keyword_entries e h),
  λ r.
      lookup_in-at text keyword_entries i e keyword_entries-distinct at
        ((equals-SameReading text e.alias_bytes).1 r),
)
