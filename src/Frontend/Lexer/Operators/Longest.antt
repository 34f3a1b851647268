-- ===== src/Frontend/Lexer/Operators/Longest.antt =====
-- The operator table is in the order that makes the first match the longest.
use sultanc.Prelude.{
  ℕ, zero, suc, ◌≤◌, ◌≡◌, refl, arith, Bool, true, ◌&&◌, some, List, [], ◌∷◌, length, get_elem?,
  leb, inl, inr, Bool-cases,
}
use sultanc.Frontend.Lexer.Cursor.{Lexer, matches}
use sultanc.Frontend.Lexer.Operators.{OperatorEntry, operators, find_operator}

-- No spelling is longer than the one before it, nor than the bound.
abbrev sorted : ℕ → List OperatorEntry → Bool
sorted bound [] = true
sorted bound (entry ∷ entries) =
    leb (length entry.spelling) bound && sorted (length entry.spelling) entries

sorted_bound :
    (bound i : ℕ) (entries : List OperatorEntry) (e : OperatorEntry)
    → sorted bound entries ≡ true
    → get_elem? entries i ≡ some e
    → length e.spelling ≤ bound
sorted_bound bound i [] e s at = cc
sorted_bound bound zero (x ∷ entries) e s at = ground (arith, at)
sorted_bound bound (suc i) (x ∷ entries) e s at =
    let rest = sorted_bound (length x.spelling) i entries e (ground (arith, s)) at in
    ground (arith, s, rest)

find_operator-longest_from :
    (l : Lexer) (bound i : ℕ) (entries : List OperatorEntry) (e other : OperatorEntry)
    → sorted bound entries ≡ true
    → find_operator l entries ≡ some e
    → get_elem? entries i ≡ some other
    → matches l other.spelling ≡ true
    → (matches l e.spelling ≡ true) × (length other.spelling ≤ length e.spelling)
unfolding find_operator
find_operator-longest_from l bound i [] e other s f at m = cc
find_operator-longest_from l bound zero (x ∷ entries) e other s f at m =
    let same : x ≡ other = cc in
    let first : matches l x.spelling ≡ true = rw (← same) at m in
    let found : x ≡ e = cc in (rw (found) at first, rw (← found, ← same) (omega arith))
find_operator-longest_from l bound (suc i) (x ∷ entries) e other s f at m =
    elim (Bool-cases (matches l x.spelling)) [
      | inl first ↦
          let found : x ≡ e = cc in
          (
            rw found at first,
            rw (← found) (sorted_bound (length x.spelling) i entries other (ground (arith, s)) at),
          )
      | inr later ↦
          find_operator-longest_from l (length x.spelling) i entries e other (ground (arith, s))
            (rw later at f) at m
    ]

-- The operator that the lexer takes matches the source at the cursor, and no operator of the table that
-- matches there is longer.
pub find_operator-longest :
    (l : Lexer) (i : ℕ) (e other : OperatorEntry)
    → find_operator l operators ≡ some e
    → get_elem? operators i ≡ some other
    → matches l other.spelling ≡ true
    → (matches l e.spelling ≡ true) × (length other.spelling ≤ length e.spelling)
find_operator-longest l i e other f at m =
    find_operator-longest_from l 3 i operators e other refl f at m
