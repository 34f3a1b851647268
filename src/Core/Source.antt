-- ===== src/Core/Source.antt =====
-- Source files, positions and slices: bootstrap/include/public/core/source.h and
-- bootstrap/src/core/source_slice.c. A text slice is the list of its bytes.
use sultanc.Prelude.{ℕ, ◌-◌, ◌||◌, List, [], length, take, drop, ltb, if◌then◌else◌}

-- `__Source_File__`; the length that it stores is that of its bytes.
pub record SourceFile : Type 0 where
  pub name : List ℕ
  pub bytes : List ℕ

-- `__Source_Position__`
pub record SourcePosition : Type 0 where
  pub source : SourceFile
  pub offset : ℕ
  pub line : ℕ
  pub column : ℕ

-- `__Source_Span__`
pub record SourceSpan : Type 0 where
  pub start : SourcePosition
  pub end : SourcePosition

-- `__Source_Slice__`: empty where the bounds are not in order or not in the file.
unfoldable pub source_slice : SourceFile → ℕ → ℕ → List ℕ
source_slice source start end =
    if ltb end start || ltb (length source.bytes) end
    then []
    else take (end - start) (drop start source.bytes)
