-- ===== src/Support/TextEquality.antt =====
-- Equality of texts: bootstrap/src/support/text/equality.c and
-- bootstrap/src/core/source_text_equals_cstr.c. A C string is the list of the bytes before its zero.
use sultanc.Prelude.{
  ℕ, ◌≡◌, refl, ◌↔◌, arith, Bool, true, false, not, ◌&&◌, List, [], ◌∷◌, length, ◌==◌,
  if◌then◌else◌, starts_with,
}

-- `__Text_Slice_Equals__`
unfoldable pub text_slice_equals : List ℕ → List ℕ → Bool
text_slice_equals left right =
    if not (length left == length right)
    then false
    else if length left == 0
    then true
    else starts_with left right

-- `__Text_Equals_Cstr__`
unfoldable pub text_equals_cstr : List ℕ → List ℕ → Bool
text_equals_cstr text cstr = length text == length cstr && starts_with text cstr

starts_with_self : (text : List ℕ) → starts_with text text ≡ true
starts_with_self [] = refl
starts_with_self (b ∷ bytes) = ground (arith, starts_with_self bytes)

starts_with-length :
    (text other : List ℕ)
    → length text ≡ length other
    → starts_with text other ≡ true
    → text ≡ other
starts_with-length [] [] e h = refl
starts_with-length [] (c ∷ other) e h = absurd (omega arith)
starts_with-length (b ∷ text) [] e h = absurd (omega arith)
starts_with-length (b ∷ text) (c ∷ other) e h =
    ground (arith, starts_with-length text other (omega arith))

-- The two tests are equality of the bytes.
pub text_slice_equals_iff :
    (left right : List ℕ) → (text_slice_equals left right ≡ true) ↔ (left ≡ right)
unfolding text_slice_equals
text_slice_equals_iff [] [] = (λ h. refl, λ e. refl)
text_slice_equals_iff [] (c ∷ right) = (λ h. ground arith, λ e. cc)
text_slice_equals_iff (b ∷ left) right = (
  λ h. starts_with-length (b ∷ left) right (ground arith) (ground arith),
  λ e. rw (← e) (ground (arith, starts_with_self left)),
)
