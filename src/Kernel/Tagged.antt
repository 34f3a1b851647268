-- ===== src/Kernel/Tagged.antt =====
-- The constructors of options and results: bootstrap/src/kernel/type/type_tagged.c, with the names of
-- bootstrap/include/private/kernel/type/type_contextual.generated.h. A constructor that is not given,
-- the answer 0, is `none`.
use sultanc.Prelude.{
  ℕ, Bool, true, false, ◌||◌, Option, none, some, List, [], ◌∷◌, ltb, ◌==◌, if◌then◌else◌,
}
use sultanc.Support.TextEquality.{text_equals_cstr}
use sultanc.Frontend.Ast.{AstType, missing, option, result}
use sultanc.Kernel.Types.{unwrap_mutable}

-- `__Type_Tagged_Constructor__`
pub record TaggedConstructor : Type 0 where
  pub tag : ℕ
  pub payload_count : ℕ
  pub payload_type : AstType

-- The two tagged nodes in `__Type_Tagged_Fill__`, and 0 for others.
unfoldable pub tagged_fill_base : AstType → ℕ → Option TaggedConstructor
tagged_fill_base (option t) tag =
    if ltb 1 tag
    then none
    else if tag == 1
    then some (record { tag = tag; payload_count = 1; payload_type = t })
    else some (record { tag = tag; payload_count = 0; payload_type = missing })
tagged_fill_base (result ok error) tag =
    if ltb 1 tag
    then none
    else some
        (record { tag = tag; payload_count = 1; payload_type = if tag == 0 then ok else error })
tagged_fill_base _ tag = none

-- `__Type_Tagged_Fill__`, and `__Type_Tagged_Constructor_At__` that calls it.
unfoldable pub tagged_constructor_at : AstType → ℕ → Option TaggedConstructor
unfolding unwrap_mutable tagged_fill_base
tagged_constructor_at t tag = tagged_fill_base (unwrap_mutable t) tag

abbrev pub is_tagged_node : AstType → Bool
is_tagged_node (option t) = true
is_tagged_node (result ok error) = true
is_tagged_node _ = false

-- `__Type_Is_Builtin_Tagged__`
unfoldable pub is_builtin_tagged : AstType → Bool
unfolding unwrap_mutable
is_builtin_tagged t = is_tagged_node (unwrap_mutable t)

-- `__Type_Tagged_Constructor_Count__`
unfoldable pub tagged_constructor_count : AstType → ℕ
unfolding is_builtin_tagged
tagged_constructor_count t = if is_builtin_tagged t then 2 else 0

is_none_name : List ℕ → Bool
unfolding text_equals_cstr
is_none_name name =
    text_equals_cstr name (b'n' ∷ b'o' ∷ b'n' ∷ b'e' ∷ [])
    || (text_equals_cstr name (b'N' ∷ b'o' ∷ b'n' ∷ b'e' ∷ [])
        || (text_equals_cstr name
            (0xd9 ∷ 0x84 ∷ 0xd8 ∷ 0xa7 ∷ 0x5f ∷ 0xd8 ∷ 0xb4 ∷ 0xd9 ∷ 0x8a ∷ 0xd8 ∷ 0xa1 ∷ [])))

is_some_name : List ℕ → Bool
unfolding text_equals_cstr
is_some_name name =
    text_equals_cstr name (b's' ∷ b'o' ∷ b'm' ∷ b'e' ∷ [])
    || (text_equals_cstr name (b'S' ∷ b'o' ∷ b'm' ∷ b'e' ∷ [])
        || (text_equals_cstr name (0xd8 ∷ 0xa8 ∷ 0xd8 ∷ 0xb9 ∷ 0xd8 ∷ 0xb6 ∷ [])))

is_ok_name : List ℕ → Bool
unfolding text_equals_cstr
is_ok_name name =
    text_equals_cstr name (b'o' ∷ b'k' ∷ [])
    || (text_equals_cstr name (b'O' ∷ b'k' ∷ [])
        || (text_equals_cstr name (0xd9 ∷ 0x86 ∷ 0xd8 ∷ 0xac ∷ 0xd8 ∷ 0xad ∷ [])))

is_err_name : List ℕ → Bool
unfolding text_equals_cstr
is_err_name name =
    text_equals_cstr name (b'e' ∷ b'r' ∷ b'r' ∷ [])
    || (text_equals_cstr name (b'E' ∷ b'r' ∷ b'r' ∷ [])
        || (text_equals_cstr name (0xd8 ∷ 0xae ∷ 0xd8 ∷ 0xb7 ∷ 0xd8 ∷ 0xa3 ∷ [])))

-- `__Type_Tagged_Find_Constructor__` on a base.
unfoldable pub find_in_base : AstType → List ℕ → Option TaggedConstructor
unfolding tagged_fill_base is_none_name is_some_name is_ok_name is_err_name
find_in_base (option t) name =
    if is_none_name name
    then tagged_fill_base (option t) 0
    else if is_some_name name
    then tagged_fill_base (option t) 1
    else none
find_in_base (result ok error) name =
    if is_ok_name name
    then tagged_fill_base (result ok error) 0
    else if is_err_name name
    then tagged_fill_base (result ok error) 1
    else none
find_in_base _ name = none

-- `__Type_Tagged_Find_Constructor__`
unfoldable pub tagged_find_constructor : AstType → List ℕ → Option TaggedConstructor
unfolding unwrap_mutable find_in_base
tagged_find_constructor t name = find_in_base (unwrap_mutable t) name

-- `__Type_Contextual_Name_Is_OPTION__`
abbrev pub is_option_name : List ℕ → Bool
is_option_name name =
    text_equals_cstr name (b'o' ∷ b'p' ∷ b't' ∷ b'i' ∷ b'o' ∷ b'n' ∷ [])
    || (text_equals_cstr name
        (0xd8 ∷ 0xa7 ∷ 0xd8 ∷ 0xae ∷ 0xd8 ∷ 0xaa ∷ 0xd9 ∷ 0x8a ∷ 0xd8 ∷ 0xa7 ∷ 0xd8 ∷ 0xb1 ∷ []))

-- `__Type_Contextual_Name_Is_RESULT__`
abbrev pub is_result_name : List ℕ → Bool
is_result_name name =
    text_equals_cstr name (b'r' ∷ b'e' ∷ b's' ∷ b'u' ∷ b'l' ∷ b't' ∷ [])
    || (text_equals_cstr name
        (0xd9 ∷ 0x86 ∷ 0xd8 ∷ 0xaa ∷ 0xd9 ∷ 0x8a ∷ 0xd8 ∷ 0xac ∷ 0xd8 ∷ 0xa9 ∷ []))

abbrev pub base_name_matches : AstType → List ℕ → Bool
base_name_matches (option t) name = is_option_name name
base_name_matches (result ok error) name = is_result_name name
base_name_matches _ name = false

-- `__Type_Tagged_Name_Matches__`
unfoldable pub tagged_name_matches : AstType → List ℕ → Bool
unfolding unwrap_mutable text_equals_cstr
tagged_name_matches t name = base_name_matches (unwrap_mutable t) name
