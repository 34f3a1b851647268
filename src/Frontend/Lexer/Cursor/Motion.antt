-- ===== src/Frontend/Lexer/Cursor/Motion.antt =====
-- The cursor moves forward inside the source, and its line and column are those of the bytes behind it.
use sultanc.Prelude.{
  ℕ, zero, suc, ◌+◌, ◌^◌, ◌≤◌, ◌<◌, ◌≡◌, refl, ap, ◌∙◌, arith, true, false, not, List, [], ◌∷◌,
  ◌++◌, length, take, get_or, leb, ◌==◌, if◌then◌else◌, inl, inr, Bool-cases, wrap64, wrap32,
}
use sultanc.Core.Source.{SourceFile}
use sultanc.Support.Utf8.{is_continuation_byte}
use sultanc.Frontend.Lexer.Cursor.{Lexer, init, has, peek, advance_one, advance_bytes}

-- The number of line ends in a text.
abbrev pub newlines : List ℕ → ℕ
newlines [] = 0
newlines (byte ∷ bytes) = let later = newlines bytes in if byte == 0x0a then suc later else later

-- The number of characters behind the last line end of a text, `before` of them ahead of it.
abbrev pub columns : ℕ → List ℕ → ℕ
columns before [] = before
columns before (byte ∷ bytes) =
    if byte == 0x0a
    then columns 0 bytes
    else if not (is_continuation_byte byte)
    then columns (before + 1) bytes
    else columns before bytes

-- The line and the column are those of the text behind the cursor.
pub record IsLocated (l : Lexer) : Type 0 where
  pub line_counted : l.line ≡ wrap32 (1 + newlines (take l.offset l.source.bytes))
  pub column_counted : l.column ≡ wrap32 (columns 0 (take l.offset l.source.bytes))

-- The cursor is inside a source that fits half of the address space.
pub record IsReady (l : Lexer) : Type 0 where
  pub inside : l.offset ≤ length l.source.bytes
  pub small : length l.source.bytes < 2 ^ 63

-- The cursor of `m` stands in the same source, at or behind that of `l`.
pub record Ahead (l m : Lexer) : Type 0 where
  pub same : m.source ≡ l.source
  pub forward : l.offset ≤ m.offset
  pub within : m.offset ≤ length l.source.bytes
  pub located : IsLocated l → IsLocated m

pub Ahead-refl : (l : Lexer) → IsReady l → Ahead l l
Ahead-refl l r = record { same = refl; forward = omega arith; within = r.inside; located = λ h. h }

pub Ahead-trans : (l m n : Lexer) → Ahead l m → Ahead m n → Ahead l n
Ahead-trans l m n a b = record {
  same = b.same ∙ a.same;
  forward = omega (arith, a.forward, b.forward);
  within = rw (← a.same) b.within;
  located = λ h. b.located (a.located h);
}

pub IsReady-Ahead : (l m : Lexer) → IsReady l → Ahead l m → IsReady m
IsReady-Ahead l m r a = record { inside = rw (a.same) a.within; small = rw (a.same) r.small }

pub has_iff_within :
    (l : Lexer) (n : ℕ)
    → IsReady l
    → n < 2 ^ 63
    → has l n ≡ leb (l.offset + n) (length l.source.bytes)
unfolding has
has_iff_within l n r h =
    let exact : wrap64 (l.offset + n) ≡ l.offset + n = omega (arith, r.inside, r.small) in
    ap (λ (x : ℕ). leb x (length l.source.bytes)) exact

take_next :
    (n : ℕ) (bytes : List ℕ)
    → n < length bytes
    → take (suc n) bytes ≡ take n bytes ++ get_or bytes n 0 ∷ []
take_next n [] h = elim h [ ]
take_next zero (b ∷ bytes) h = refl
take_next (suc n) (b ∷ bytes) h = ap (λ (t : List ℕ). b ∷ t) (take_next n bytes (omega arith))

newlines-append :
    (xs : List ℕ) (b : ℕ)
    → newlines (xs ++ b ∷ []) ≡ (if b == 0x0a then suc (newlines xs) else newlines xs)
newlines-append [] b = refl
newlines-append (x ∷ xs) b = ground (arith, newlines-append xs b)

columns-append :
    (n : ℕ) (xs : List ℕ) (b : ℕ)
    → columns n (xs ++ b ∷ []) ≡ (
        if b == 0x0a
        then 0
        else if not (is_continuation_byte b)
        then columns n xs + 1
        else columns n xs)
columns-append n [] b = refl
columns-append n (x ∷ xs) b =
    ground (arith, columns-append 0 xs b, columns-append (n + 1) xs b, columns-append n xs b)

module _ (l : Lexer) (r : IsReady l) (h : has l 1 ≡ true) where
  next_exact : wrap64 (l.offset + 1) ≡ l.offset + 1
  next_exact = omega (arith, r.inside, r.small)

  next_within : l.offset + 1 ≤ length l.source.bytes
  unfolding has
  next_within = ground (arith, h, next_exact)

  peek_byte : peek l 0 ≡ get_or l.source.bytes l.offset 0
  unfolding peek
  peek_byte = rw h (ap (λ (n : ℕ). get_or l.source.bytes n 0) (omega arith))

  advance_one_offset : (advance_one l).offset ≡ l.offset + 1
  unfolding advance_one
  advance_one_offset = ground (arith, next_exact)

  advance_one_source : (advance_one l).source ≡ l.source
  unfolding advance_one
  advance_one_source = ground arith

  next_prefix :
      take (advance_one l).offset (advance_one l).source.bytes
      ≡ take l.offset l.source.bytes ++ peek l 0 ∷ []
  next_prefix =
      let offset' : (advance_one l).offset ≡ suc l.offset = omega (arith, advance_one_offset) in
      rw (offset', advance_one_source, peek_byte)
        (take_next l.offset l.source.bytes (omega (arith, next_within)))

  advance_one_line :
      l.line ≡ wrap32 (1 + newlines (take l.offset l.source.bytes))
      → (advance_one l).line ≡ wrap32 (1 + newlines (take l.offset l.source.bytes ++ peek l 0 ∷ []))
  unfolding advance_one
  advance_one_line e = ground (arith, e, newlines-append (take l.offset l.source.bytes) (peek l 0))

  advance_one_column :
      l.column ≡ wrap32 (columns 0 (take l.offset l.source.bytes))
      → (advance_one l).column ≡ wrap32 (columns 0 (take l.offset l.source.bytes ++ peek l 0 ∷ []))
  unfolding advance_one
  advance_one_column e =
      ground (arith, e, columns-append 0 (take l.offset l.source.bytes) (peek l 0))

  advance_one-Ahead : Ahead l (advance_one l)
  advance_one-Ahead = record {
    same = advance_one_source;
    forward = omega (arith, advance_one_offset);
    within = omega (arith, advance_one_offset, next_within);
    located = λ e. record {
      line_counted = rw next_prefix (advance_one_line e.line_counted);
      column_counted = rw next_prefix (advance_one_column e.column_counted);
    };
  }

advance_bytes_more :
    (l : Lexer) (n : ℕ) → has l 1 ≡ true → advance_bytes l (suc n) ≡ advance_bytes (advance_one l) n
unfolding advance_bytes
advance_bytes_more l n h = rw h refl

advance_bytes_end : (l : Lexer) (n : ℕ) → has l 1 ≡ false → advance_bytes l (suc n) ≡ l
unfolding advance_bytes
advance_bytes_end l n h = rw h refl

pub advance_bytes-Ahead : (l : Lexer) (n : ℕ) → IsReady l → Ahead l (advance_bytes l n)
unfolding advance_bytes
advance_bytes-Ahead l zero r = Ahead-refl l r
advance_bytes-Ahead l (suc n) r = elim (Bool-cases (has l 1)) [
  | inl more ↦
      let one = advance_one-Ahead l r more in
      rw (advance_bytes_more l n more) (
        Ahead-trans l (advance_one l) _ one
          (advance_bytes-Ahead (advance_one l) n (IsReady-Ahead l (advance_one l) r one)))
  | inr end ↦ rw (advance_bytes_end l n end) (Ahead-refl l r)
]

-- Where there are that many bytes left, the cursor moves by just that many.
pub advance_bytes_offset :
    (l : Lexer) (n : ℕ)
    → IsReady l
    → l.offset + n ≤ length l.source.bytes
    → (advance_bytes l n).offset ≡ l.offset + n
unfolding advance_bytes
advance_bytes_offset l zero r h = omega arith
advance_bytes_offset l (suc n) r h =
    let more : has l 1 ≡ true = rw (has_iff_within l 1 r (omega arith)) (ground (arith, h)) in
    let one = advance_one-Ahead l r more in
    let moved = advance_one_offset l r more in
    let rest =
      advance_bytes_offset (advance_one l) n (IsReady-Ahead l (advance_one l) r one)
        (rw (one.same) (omega (arith, moved, h))) in
    rw (advance_bytes_more l n more) (omega (arith, rest, moved))

-- From where a byte is left, advancing by one or more moves the cursor.
pub advance_bytes_moves :
    (l : Lexer) (n : ℕ) → IsReady l → has l 1 ≡ true → l.offset < (advance_bytes l (suc n)).offset
advance_bytes_moves l n r more =
    let one = advance_one-Ahead l r more in
    let moved = advance_one_offset l r more in
    let rest = advance_bytes-Ahead (advance_one l) n (IsReady-Ahead l (advance_one l) r one) in
    rw (advance_bytes_more l n more) (omega (arith, rest.forward, moved))

-- A lexer starts at the first line and column.
pub init-IsLocated : (source : SourceFile) → IsLocated (init source)
unfolding init
init-IsLocated source = record { line_counted = refl; column_counted = refl }
