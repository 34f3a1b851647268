-- ===== src/Support/Paths/Containment.antt =====
-- A relative import resolves exactly to the existing files under the root that owns its importer.
use sultanc.Prelude.{ℕ, ◌≡◌, Bool, true, false, Option, some, List, length, drop}
use sultanc.Support.Paths.{
  path_is_under, count_components, parts_of, source_path_directory, path_join_text,
  relative_candidate, relative_import_escapes_root, relative_import_root,
}
use sultanc.Support.Paths.Walk.{StaysBelow}
use sultanc.Support.Paths.Under.{IsBelow}

-- The path that a relative import means: the importer stands in a directory below the root that owns it,
-- the import's walk from there never stands above the root, the path is the import behind that
-- directory, it exists, and its canonical form, links followed, is below the root too.
pub record IsContained (grant : ℕ → Bool) (exists : List ℕ → Bool)
    (canonical : List ℕ → Option (List ℕ)) (importer project_root import_text path : List ℕ)
    : Type 0 where
  pub root : List ℕ
  pub directory : List ℕ
  pub canonical_path : List ℕ
  pub owned : relative_import_root grant canonical importer project_root ≡ some root
  pub stands_in : source_path_directory grant importer ≡ some directory
  pub starts_below : IsBelow directory root
  pub stays_below :
      StaysBelow (count_components false (drop (length root) directory)) (parts_of import_text)
  pub spelled : path_join_text grant directory import_text ≡ some path
  pub there : exists path ≡ true
  pub resolved : canonical path ≡ some canonical_path
  pub under : IsBelow canonical_path root

-- The same by the tests of the code.
record IsAccepted (grant : ℕ → Bool) (exists : List ℕ → Bool) (canonical : List ℕ → Option (List ℕ))
    (importer project_root import_text path : List ℕ) : Type 0 where
  root : List ℕ
  canonical_path : List ℕ
  owned : relative_import_root grant canonical importer project_root ≡ some root
  stays : relative_import_escapes_root grant importer root import_text ≡ false
  spelled : relative_candidate grant import_text (source_path_directory grant importer) ≡ some path
  there : exists path ≡ true
  resolved : canonical path ≡ some canonical_path
  under : path_is_under canonical_path root ≡ true
