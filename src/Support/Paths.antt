-- ===== src/Support/Paths.antt =====
-- Import paths: bootstrap/src/support/path/source_import_path.c, path_directory.c and path_join_text.c.
-- A path is the list of its bytes before the closing zero. Parameters: `grant` is whether `malloc` grants
-- a request of that many bytes, `exists` is `__Path_Exists__` and `canonical` `__Source_Path_Canonical__`, which
-- ask the file system. Path pointers are not null, and an empty import is the source's null or empty one.
pub mod Walk
pub mod Under
pub mod Containment
use sultanc.Prelude.{
  ℕ, zero, suc, ◌+◌, ◌-◌, ◌%◌, ◌^◌, Bool, true, false, not, ◌&&◌, ◌||◌, Option, none, some, List,
  [], ◌∷◌, ◌++◌, length, take, drop, ltb, ◌==◌, if◌then◌else◌, starts_with, wrap64,
}

-- `text[0] == byte`
abbrev pub first_is : ℕ → List ℕ → Bool
first_is byte [] = false
first_is byte (b ∷ bytes) = b == byte

-- The path cut off at `strrchr(path, '/')`, the last slash; `none` without one.
abbrev pub before_last_slash : List ℕ → Option (List ℕ)
before_last_slash [] = none
before_last_slash (b ∷ bytes) = elim (before_last_slash bytes) [
  | some start ↦ some (b ∷ start)
  | none ↦ if b == 0x2f then some [] else none
]

abbrev pub copied : (ℕ → Bool) → List ℕ → Option (List ℕ)
copied grant text = if grant (wrap64 (length text + 1)) then some text else none

-- `__Source_Path_Directory__`
unfoldable pub source_path_directory : (ℕ → Bool) → List ℕ → Option (List ℕ)
source_path_directory grant path = elim (before_last_slash path) [
  | none ↦ copied grant (0x2e ∷ [])
  | some [] ↦ copied grant (0x2f ∷ [])
  | some (b ∷ bytes) ↦ copied grant (b ∷ bytes)
]

abbrev pub last_is_slash : List ℕ → Bool
last_is_slash [] = true
last_is_slash (b ∷ []) = b == 0x2f
last_is_slash (b ∷ c ∷ bytes) = last_is_slash (c ∷ bytes)

-- `__Path_Join_Text__`
unfoldable pub path_join_text : (ℕ → Bool) → List ℕ → List ℕ → Option (List ℕ)
path_join_text grant directory relative =
    copied grant
      (if last_is_slash directory then directory ++ relative else directory ++ 0x2f ∷ relative)

-- `__Import_Has_Prefix__`
abbrev pub import_has_prefix : List ℕ → List ℕ → Bool
import_has_prefix import_text prefix =
    ltb (length prefix) (length import_text) && starts_with import_text prefix

abbrev pub at_boundary : List ℕ → Bool
at_boundary [] = true
at_boundary (b ∷ bytes) = b == 0x2f

-- `__Path_Is_Under__`
unfoldable pub path_is_under : List ℕ → List ℕ → Bool
path_is_under path root =
    if length root == 1 && first_is 0x2f root
    then first_is 0x2f path
    else starts_with path root && at_boundary (drop (length root) path)

-- The number of components of a path: the two inner loops are the flag, which says whether the byte in
-- front belongs to a component.
abbrev pub count_components : Bool → List ℕ → ℕ
count_components inside [] = 0
count_components inside (b ∷ bytes) =
    let later = count_components (not (b == 0x2f)) bytes in
    if b == 0x2f || inside then later else suc later

-- `__Path_Depth_Below_Root__`; `none` is SIZE_MAX.
unfoldable pub path_depth_below_root : List ℕ → List ℕ → Option ℕ
unfolding path_is_under
path_depth_below_root path root =
    if not (path_is_under path root)
    then none
    else some (count_components false (drop (length root) path))

abbrev pub add_byte : ℕ → List (List ℕ) → List (List ℕ)
add_byte b [] = (b ∷ []) ∷ []
add_byte b (part ∷ parts) = (b ∷ part) ∷ parts

-- The parts of a path between its slashes, the empty ones too.
abbrev pub parts_of : List ℕ → List (List ℕ)
parts_of [] = [] ∷ []
parts_of (b ∷ bytes) = let rest = parts_of bytes in if b == 0x2f then [] ∷ rest else add_byte b rest

-- The tests on a component.
abbrev pub stays_put : List ℕ → Bool
stays_put [] = true
stays_put (b ∷ []) = b == 0x2e
stays_put (b ∷ c ∷ bytes) = false

abbrev pub goes_up : List ℕ → Bool
goes_up (b ∷ c ∷ []) = b == 0x2e && c == 0x2e
goes_up _ = false

-- The loop of `__Relative_Import_Escapes_Root__` over the components of the import.
unfoldable pub walk_escapes : ℕ → List (List ℕ) → Bool
walk_escapes depth [] = false
walk_escapes depth (part ∷ parts) =
    let level = walk_escapes depth parts in
    let higher = walk_escapes (depth - 1) parts in
    let deeper = walk_escapes (wrap64 (depth + 1)) parts in
    if stays_put part
    then level
    else if goes_up part
    then if depth == 0 then true else higher
    else deeper

-- `__Relative_Import_Escapes_Root__`
unfoldable pub relative_import_escapes_root : (ℕ → Bool) → List ℕ → List ℕ → List ℕ → Bool
relative_import_escapes_root grant importer root import_text =
    elim (source_path_directory grant importer) [
      | none ↦ true
      | some directory ↦ elim (path_depth_below_root directory root) [
        | none ↦ true
        | some depth ↦ walk_escapes depth (parts_of import_text)
      ]
    ]

-- `library/std` and `std/`
abbrev pub std_root : List ℕ
std_root = 0x6c ∷ 0x69 ∷ 0x62 ∷ 0x72 ∷ 0x61 ∷ 0x72 ∷ 0x79 ∷ 0x2f ∷ 0x73 ∷ 0x74 ∷ 0x64 ∷ []

abbrev pub std_prefix : List ℕ
std_prefix = 0x73 ∷ 0x74 ∷ 0x64 ∷ 0x2f ∷ []

-- `__Relative_Import_Root__`
unfoldable pub relative_import_root :
    (ℕ → Bool) → (List ℕ → Option (List ℕ)) → List ℕ → List ℕ → Option (List ℕ)
relative_import_root grant canonical importer project_root =
    elim (path_join_text grant project_root std_root) [
      | none ↦ canonical project_root
      | some base ↦ if path_is_under importer base then some base else canonical project_root
    ]

-- `__Resolve_Logical_Import__`
unfoldable pub resolve_logical_import : (ℕ → Bool) → List ℕ → List ℕ → List ℕ → Option (List ℕ)
resolve_logical_import grant importer project_root import_text =
    elim (path_join_text grant project_root std_root) [
      | none ↦ none
      | some base ↦
          if import_has_prefix import_text std_prefix
          then path_join_text grant base (drop (length std_prefix) import_text)
          else if path_is_under importer base
          then path_join_text grant base import_text
          else path_join_text grant project_root import_text
    ]

-- The tests on the candidate of a logical import.
abbrev pub accept_logical : (List ℕ → Bool) → Option (List ℕ) → Option (List ℕ) × Bool
accept_logical exists none = (none, false)
accept_logical exists (some candidate) =
    if not (exists candidate) then (none, false) else (some candidate, false)

-- The test on the canonical form of the candidate of a relative import.
abbrev pub accept_canonical : List ℕ → List ℕ → Option (List ℕ) → Option (List ℕ) × Bool
accept_canonical root candidate none = (none, true)
accept_canonical root candidate (some c) =
    if not (path_is_under c root) then (none, true) else (some candidate, false)

-- The tests on the candidate of a relative import.
abbrev pub accept_relative :
    (List ℕ → Bool) → (List ℕ → Option (List ℕ)) → List ℕ → Option (List ℕ) → Option (List ℕ) × Bool
accept_relative exists canonical root none = (none, false)
accept_relative exists canonical root (some candidate) =
    if not (exists candidate)
    then (none, false)
    else accept_canonical root candidate (canonical candidate)

-- The candidate of a relative import.
abbrev pub relative_candidate : (ℕ → Bool) → List ℕ → Option (List ℕ) → Option (List ℕ)
relative_candidate grant import_text none = none
relative_candidate grant import_text (some directory) = path_join_text grant directory import_text

-- The relative part of `__Source_Path_Resolve_Import__`, from the root on.
abbrev pub resolve_relative :
    (ℕ → Bool)
    → (List ℕ → Bool)
    → (List ℕ → Option (List ℕ))
    → List ℕ
    → List ℕ
    → Option (List ℕ)
    → Option (List ℕ) × Bool
resolve_relative grant exists canonical importer import_text none = (none, false)
resolve_relative grant exists canonical importer import_text (some root) =
    if relative_import_escapes_root grant importer root import_text
    then (none, true)
    else accept_relative exists canonical root
        (relative_candidate grant import_text (source_path_directory grant importer))

-- `__Source_Path_Resolve_Import__`: the path or null, and `*Escapes_Root`.
unfoldable pub source_path_resolve_import :
    (ℕ → Bool)
    → (List ℕ → Bool)
    → (List ℕ → Option (List ℕ))
    → List ℕ
    → List ℕ
    → Bool
    → List ℕ
    → Option (List ℕ) × Bool
source_path_resolve_import grant exists canonical importer project_root logical import_text =
    if length import_text == 0 || first_is 0x2f import_text
    then (none, false)
    else if logical
    then accept_logical exists (resolve_logical_import grant importer project_root import_text)
    else resolve_relative grant exists canonical importer import_text
        (relative_import_root grant canonical importer project_root)
