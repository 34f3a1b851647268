-- ===== src/Checks/PathChecks.antt =====
-- The theorems on bootstrap/src/support/path at concrete inputs.
use sultanc.Prelude.{ℕ, ◌≡◌, ◌↔◌, refl, arith, Bool, true, false, Option, some, List, [], ◌∷◌}
use sultanc.Support.Paths.{
  walk_escapes, source_path_resolve_import, source_path_directory, path_join_text, path_is_under,
  path_depth_below_root, relative_import_escapes_root, relative_import_root,
}
use sultanc.Support.Paths.Walk.{StaysBelow, walk_escapes_iff}

abbrev grants_all : ℕ → Bool
grants_all bytes = true

abbrev all_exist : List ℕ → Bool
all_exist path = true

abbrev plain : List ℕ → Option (List ℕ)
plain path = some path

-- `..` and `a`
abbrev up_and_down : List (List ℕ)
up_and_down = (0x2e ∷ 0x2e ∷ []) ∷ (0x61 ∷ []) ∷ []

walk_escapes_iff_example : (walk_escapes 1 up_and_down ≡ false) ↔ StaysBelow 1 up_and_down
walk_escapes_iff_example = walk_escapes_iff 1 up_and_down (omega arith)

-- `/p/a`, `/p`, `b` and `/p/b`
abbrev importer : List ℕ
importer = 0x2f ∷ 0x70 ∷ 0x2f ∷ 0x61 ∷ []

abbrev project : List ℕ
project = 0x2f ∷ 0x70 ∷ []

abbrev imported : List ℕ
imported = 0x62 ∷ []

abbrev resolved : List ℕ
resolved = 0x2f ∷ 0x70 ∷ 0x2f ∷ 0x62 ∷ []

-- The file beside the importer is found.
beside_found :
    source_path_resolve_import grants_all all_exist plain importer project false imported
    ≡ (some resolved, false)
unfolding source_path_resolve_import source_path_directory path_join_text path_is_under
    path_depth_below_root relative_import_escapes_root relative_import_root walk_escapes
beside_found = refl
