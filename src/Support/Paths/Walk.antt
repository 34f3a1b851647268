-- ===== src/Support/Paths/Walk.antt =====
-- A relative import escapes exactly when it once stands above the root.
use sultanc.Prelude.{
  ℕ, zero, suc, ◌+◌, ◌-◌, ◌^◌, ◌≤◌, ◌<◌, ◌≡◌, ◌↔◌, refl, arith, false, List, [], ◌∷◌, length, take,
  ◌==◌, if◌then◌else◌, inl, inr, Bool-cases, wrap64,
}
use sultanc.Support.Paths.{stays_put, goes_up, walk_escapes}

-- The steps up, and the steps down, of a walk.
abbrev pub ups : List (List ℕ) → ℕ
ups [] = 0
ups (part ∷ parts) =
    if stays_put part then ups parts else if goes_up part then suc (ups parts) else ups parts

abbrev pub downs : List (List ℕ) → ℕ
downs [] = 0
downs (part ∷ parts) =
    if stays_put part then downs parts else if goes_up part then downs parts else suc (downs parts)

-- At no point has the walk gone up more often than the depth and the steps down allow.
abbrev pub StaysBelow : ℕ → List (List ℕ) → Type 0
StaysBelow depth parts = (n : ℕ) → ups (take n parts) ≤ depth + downs (take n parts)

-- A walk from behind its first part, as one from in front of it.
extend :
    (depth depth' : ℕ) (part : List ℕ) (parts : List (List ℕ))
    → StaysBelow depth' parts
    → ((n : ℕ)
        → ups (take n parts) ≤ depth' + downs (take n parts)
        → ups (part ∷ take n parts) ≤ depth + downs (part ∷ take n parts))
    → StaysBelow depth (part ∷ parts)
extend depth depth' part parts later step zero = omega arith
extend depth depth' part parts later step (suc n) = step n (later n)

-- From a depth below the root the loop finds an escape exactly when the import does not stay below the
-- root at every point of its walk, as long as the depth cannot wrap.
pub walk_escapes_iff :
    (depth : ℕ) (parts : List (List ℕ))
    → depth + length parts < 2 ^ 64
    → (walk_escapes depth parts ≡ false) ↔ StaysBelow depth parts
unfolding walk_escapes
walk_escapes_iff depth [] small = (λ e. by, λ s. refl)
  where
    by : (n : ℕ) → ups (take n []) ≤ depth + downs (take n [])
    by zero = omega arith
    by (suc n) = omega arith
walk_escapes_iff depth (part ∷ parts) small = elim (Bool-cases (stays_put part)) [
  | inl still ↦
      let later = walk_escapes_iff depth parts (omega arith) in
      rw still (
        λ e. extend depth depth part parts (later.0 e) (λ n h. ground (arith, still)),
        λ s. later.1 (λ n. let here = s (suc n) in ground (arith, still, here)),
      )
  | inr moves ↦ elim (Bool-cases (goes_up part)) [
    | inr down ↦
        let deeper : wrap64 (depth + 1) ≡ depth + 1 = omega arith in
        let later = walk_escapes_iff (depth + 1) parts (omega arith) in
        rw (moves, down, deeper)
          (
            λ e.
                extend depth (depth + 1) part parts (later.0 e)
                  (λ n h. ground (arith, moves, down)),
            λ s. later.1 (λ n. let here = s (suc n) in ground (arith, moves, down, here)),
          )
    | inl up ↦ elim (Bool-cases (depth == 0)) [
      | inl top ↦
          rw (moves, up, top)
            (λ e. cc, λ s. let here = s 1 in absurd (ground (arith, moves, up, top, here)))
      | inr below ↦
          let later = walk_escapes_iff (depth - 1) parts (omega arith) in
          rw (moves, up, below)
            (
              λ e.
                  extend depth (depth - 1) part parts (later.0 e)
                    (λ n h. ground (arith, moves, up, below)),
              λ s. later.1 (λ n. let here = s (suc n) in ground (arith, moves, up, below, here)),
            )
    ]
  ]
]
