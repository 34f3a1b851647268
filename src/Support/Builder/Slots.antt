-- ===== src/Support/Builder/Slots.antt =====
-- Writing a run of bytes into a buffer.
use mathlib.Core.List.{append_assoc, append-nil}
use sultanc.Prelude.{
  ℕ, zero, suc, ◌+◌, ◌≤◌, ◌<◌, ◌≡◌, refl, ap, ◌∙◌, arith, Option, some, List, [], ◌∷◌, ◌++◌, map,
  length, get_elem?, set, take, length-set, take-set_end,
}
use sultanc.Support.Builder.{copy_at}

pub length-copy_at :
    (bytes : List ℕ) (slots : List (Option ℕ)) (start : ℕ)
    → length (copy_at slots start bytes) ≡ length slots
unfolding copy_at
length-copy_at [] slots start = refl
length-copy_at (x ∷ bytes) slots start =
    length-copy_at bytes (set slots start (some x)) (start + 1) ∙ length-set slots start (some x)

pub take-copy_at :
    (bytes : List ℕ) (slots : List (Option ℕ)) (start : ℕ)
    → start + length bytes ≤ length slots
    → take (start + length bytes) (copy_at slots start bytes) ≡ take start slots ++ map some bytes
unfolding copy_at
take-copy_at [] slots start h = let e : start + 0 ≡ start = omega arith in rw (e, append-nil)
take-copy_at (x ∷ bytes) slots start h =
    let e : start + suc (length bytes) ≡ start + 1 + length bytes = omega arith in
    let next : start + 1 ≡ suc start = omega arith in
    let fits : start + 1 + length bytes ≤ length (set slots start (some x)) =
      omega (arith, length-set slots start (some x)) in
    rw e (
      take-copy_at bytes (set slots start (some x)) (start + 1) fits
      ∙ ap (λ (k : ℕ). take k (set slots start (some x)) ++ map some bytes) next
      ∙ ap (λ (ys : List (Option ℕ)). ys ++ map some bytes)
          (take-set_end start slots (some x) (omega arith))
      ∙ append_assoc (take start slots) (some x ∷ []) (map some bytes))

pub take-set_self :
    (n : ℕ) (slots : List (Option ℕ)) (v : Option ℕ) → take n (set slots n v) ≡ take n slots
take-set_self zero slots v = refl
take-set_self (suc n) [] v = refl
take-set_self (suc n) (x ∷ slots) v = ap (◌∷◌ x) (take-set_self n slots v)

pub get_elem?-set_self :
    (n : ℕ) (slots : List (Option ℕ)) (v : Option ℕ)
    → n < length slots
    → get_elem? (set slots n v) n ≡ some v
get_elem?-set_self n [] v h = elim h [ ]
get_elem?-set_self zero (x ∷ slots) v h = refl
get_elem?-set_self (suc n) (x ∷ slots) v h = get_elem?-set_self n slots v (omega arith)

pub map-some-append : (xs ys : List ℕ) → map some xs ++ map some ys ≡ map some (xs ++ ys)
map-some-append [] ys = refl
map-some-append (x ∷ xs) ys = ap (◌∷◌ (some x)) (map-some-append xs ys)
