-- ===== src/Frontend/Lexer/Runs.antt =====
-- The loops `while (__Lexer_Has__(lexer, 1U) && test(__Lexer_Peek__(lexer, 0U)))` that advance by one
-- byte a round: bootstrap/src/frontend/lexer/lexer_number.c and lexer_next.c. Each round moves the cursor
-- towards the end, so as many rounds as there are bytes left are enough.
use sultanc.Prelude.{
  ℕ, zero, suc, ◌+◌, ◌-◌, ◌≤◌, ◌<◌, ◌≡◌, arith, Bool, true, false, ◌&&◌, length, if◌then◌else◌, inl,
  inr, Bool-cases,
}
use sultanc.Frontend.Lexer.Cursor.{Lexer, has, peek, advance_bytes}
use sultanc.Frontend.Lexer.Cursor.Motion.{
  IsReady, Ahead, Ahead-refl, Ahead-trans, IsReady-Ahead, has_iff_within, advance_bytes-Ahead,
  advance_bytes_offset, advance_bytes_moves,
}

unfoldable pub skip_while : (ℕ → Bool) → ℕ → Lexer → Lexer
skip_while test zero lexer = lexer
skip_while test (suc fuel) lexer =
    let rest = skip_while test fuel (advance_bytes lexer 1) in
    if has lexer 1 && test (peek lexer 0) then rest else lexer

-- The number of bytes left.
abbrev pub remaining : Lexer → ℕ
remaining lexer = length lexer.source.bytes - lexer.offset

abbrev pub run : (ℕ → Bool) → Lexer → Lexer
run test lexer = skip_while test (remaining lexer) lexer

pub has_one : (l : Lexer) → IsReady l → has l 1 ≡ true → l.offset + 1 ≤ length l.source.bytes
has_one l r h = let e = has_iff_within l 1 r (omega arith) in ground (arith, h, e)

pub skip_while-Ahead :
    (test : ℕ → Bool) (fuel : ℕ) (l : Lexer) → IsReady l → Ahead l (skip_while test fuel l)
unfolding skip_while
skip_while-Ahead test zero l r = Ahead-refl l r
skip_while-Ahead test (suc fuel) l r = elim (Bool-cases (has l 1 && test (peek l 0))) [
  | inl more ↦
      let one = advance_bytes-Ahead l 1 r in
      rw more (
        Ahead-trans l (advance_bytes l 1) _ one (
          skip_while-Ahead test fuel (advance_bytes l 1)
            (IsReady-Ahead l (advance_bytes l 1) r one)))
  | inr stop ↦ rw stop (Ahead-refl l r)
]

-- The loop ends where its test fails.
pub skip_while-stops :
    (test : ℕ → Bool) (fuel : ℕ) (l : Lexer)
    → IsReady l
    → remaining l ≤ fuel
    → (has (skip_while test fuel l) 1 && test (peek (skip_while test fuel l) 0)) ≡ false
unfolding skip_while
skip_while-stops test zero l r h =
    let e = has_iff_within l 1 r (omega arith) in ground (arith, e, r.inside)
skip_while-stops test (suc fuel) l r h = elim (Bool-cases (has l 1 && test (peek l 0))) [
  | inl more ↦
      let one = advance_bytes-Ahead l 1 r in
      let within = has_one l r (ground (arith, more)) in
      let moved = advance_bytes_offset l 1 r within in
      rw more (
        skip_while-stops test fuel (advance_bytes l 1) (IsReady-Ahead l (advance_bytes l 1) r one)
          (rw one.same (omega (arith, moved, h, within))))
  | inr stop ↦ rw stop stop
]

skip_while_moves :
    (test : ℕ → Bool) (fuel : ℕ) (l : Lexer)
    → IsReady l
    → (has l 1 && test (peek l 0)) ≡ true
    → 0 < fuel
    → l.offset < (skip_while test fuel l).offset
unfolding skip_while
skip_while_moves test zero l r more h = elim h [ ]
skip_while_moves test (suc fuel) l r more h =
    let one = advance_bytes-Ahead l 1 r in
    let moved = advance_bytes_moves l 0 r (ground (arith, more)) in
    let rest =
      skip_while-Ahead test fuel (advance_bytes l 1) (IsReady-Ahead l (advance_bytes l 1) r one) in
    rw more (omega (arith, moved, rest.forward))

-- Where the test holds the loop moves the cursor.
pub run_moves :
    (test : ℕ → Bool) (l : Lexer)
    → IsReady l
    → (has l 1 && test (peek l 0)) ≡ true
    → l.offset < (run test l).offset
run_moves test l r more =
    skip_while_moves test (remaining l) l r more (omega (arith, has_one l r (ground (arith, more))))
