-- ===== src/Support/Paths/Under.antt =====
-- What "under a directory" means for paths, and the bounds on their parts.
use sultanc.Prelude.{
  ℕ, zero, suc, ◌+◌, ◌≤◌, ◌≡◌, ◌↔◌, refl, ap, ◌∙◌, arith, Bool, true, not, ◌&&◌, Option, none, some,
  List, [], ◌∷◌, ◌++◌, length, drop, ◌==◌, if◌then◌else◌, starts_with, ◌⊎◌, inl, inr, Bool-cases,
  wrap64,
}
use sultanc.Support.Paths.{
  first_is, at_boundary, path_is_under, count_components, add_byte, parts_of, before_last_slash,
  copied, source_path_directory,
}

-- A path that begins with a slash.
abbrev pub OpensWithSlash : List ℕ → Type 0
OpensWithSlash path = (rest : List ℕ) × (path ≡ 0x2f ∷ rest)

-- A path below a directory: everything that begins with a slash below `/`, and below any other the
-- directory itself and what continues its spelling by a slash.
abbrev pub IsBelow : List ℕ → List ℕ → Type 0
IsBelow path root =
    ((root ≡ 0x2f ∷ []) × OpensWithSlash path)
    ⊎ ((rest : List ℕ) × (path ≡ root ++ rest) × ((rest ≡ []) ⊎ OpensWithSlash rest))

starts_with-split :
    (path root : List ℕ) → starts_with path root ≡ true → path ≡ root ++ drop (length root) path
starts_with-split path [] h = refl
starts_with-split [] (c ∷ cs) h = cc
starts_with-split (b ∷ path) (c ∷ cs) h =
    let later = starts_with-split path cs (ground (arith, h)) in
    let same : b ≡ c = ground (arith, h) in rw (← later, same) refl

starts_with-join : (root rest : List ℕ) → starts_with (root ++ rest) root ≡ true
starts_with-join [] rest = refl
starts_with-join (c ∷ cs) rest = let later = starts_with-join cs rest in ground (arith, later)

drop-join : (root rest : List ℕ) → drop (length root) (root ++ rest) ≡ rest
drop-join [] rest = refl
drop-join (c ∷ cs) rest = drop-join cs rest

at_boundary_iff : (rest : List ℕ) → (at_boundary rest ≡ true) ↔ ((rest ≡ []) ⊎ OpensWithSlash rest)
at_boundary_iff [] = (λ e. inl refl, λ s. refl)
at_boundary_iff (b ∷ rest) = (
  λ e. let same : b ≡ 0x2f = ground (arith, e) in inr (rest, rw same refl),
  λ s. elim s [ inl e ↦ cc | inr (more, e) ↦ ap at_boundary e ],
)

first_is_iff : (path : List ℕ) → (first_is 0x2f path ≡ true) ↔ OpensWithSlash path
first_is_iff [] = (λ e. cc, λ (rest, e). cc)
first_is_iff (b ∷ path) = (
  λ e. let same : b ≡ 0x2f = ground (arith, e) in (path, rw same refl),
  λ (rest, e). ap (first_is 0x2f) e,
)

slash_only : (root : List ℕ) → (length root == 1 && first_is 0x2f root) ≡ true → root ≡ 0x2f ∷ []
slash_only [] h = cc
slash_only (b ∷ []) h = let same : b ≡ 0x2f = ground (arith, h) in rw same refl
slash_only (b ∷ c ∷ root) h = absurd (ground (arith, h))

-- `path_is_under` answers yes exactly for the paths below the directory.
pub path_is_under_iff : (path root : List ℕ) → (path_is_under path root ≡ true) ↔ IsBelow path root
unfolding path_is_under
path_is_under_iff path root = elim (Bool-cases (length root == 1 && first_is 0x2f root)) [
  | inl top ↦
      let root_is = slash_only root top in
      rw top (
        λ e. inl (root_is, (first_is_iff path).0 e),
        λ s. elim s [
          | inl (e, opens) ↦ (first_is_iff path).1 opens
          | inr (rest, e, next) ↦ (first_is_iff path).1 (rest, e ∙ rw root_is refl)
        ],
      )
  | inr other ↦ rw other (
    λ e.
        let starts : starts_with path root ≡ true = ground (arith, e) in
        let ends : at_boundary (drop (length root) path) ≡ true = ground (arith, e) in
        inr
          (drop (length root) path, starts_with-split path root starts, (at_boundary_iff _).0 ends),
    λ s. elim s [
      | inl (e, opens) ↦ let other' = rw e at other in cc
      | inr (rest, e, next) ↦
          rw (e, starts_with-join root rest, drop-join root rest) ((at_boundary_iff rest).1 next)
    ],
  )
]

-- A path has at most as many components as bytes.
pub count_components_bound :
    (inside : Bool) (path : List ℕ) → count_components inside path ≤ length path
count_components_bound inside [] = omega arith
count_components_bound inside (b ∷ path) =
    let later = count_components_bound (not (b == 0x2f)) path in ground (arith, later)

add_byte-length :
    (b n : ℕ) (parts : List (List ℕ)) → length parts ≤ suc n → length (add_byte b parts) ≤ suc n
add_byte-length b n [] h = omega arith
add_byte-length b n (part ∷ parts) h = h

pub parts_of_bound : (path : List ℕ) → length (parts_of path) ≤ suc (length path)
parts_of_bound [] = omega arith
parts_of_bound (b ∷ path) =
    let later = parts_of_bound path in
    let added = add_byte-length b (length path) (parts_of path) later in
    ground (arith, later, added)

pub drop_bound : (n : ℕ) (path : List ℕ) → length (drop n path) ≤ length path
drop_bound zero path = omega arith
drop_bound (suc n) [] = omega arith
drop_bound (suc n) (b ∷ path) = let later = drop_bound n path in omega (arith, later)

abbrev Short : ℕ → Option (List ℕ) → Type 0
Short n none = Unit {0}
Short n (some path) = length path ≤ n

before_last_slash_bound : (path : List ℕ) → Short (length path) (before_last_slash path)
before_last_slash_bound [] = tt
before_last_slash_bound (b ∷ path) = longer (before_last_slash path) (before_last_slash_bound path)
  where
    longer :
        (o : Option (List ℕ))
        → Short (length path) o
        → Short
            (suc (length path))
            (elim o [ some start ↦ some (b ∷ start) | none ↦ if b == 0x2f then some [] else none ])
    longer (some start) h = omega (arith, h)
    longer none h = elim (Bool-cases (b == 0x2f)) [
      | inl slash ↦ rw slash (omega arith)
      | inr other ↦ rw other tt
    ]

copied-same : (grant : ℕ → Bool) (text path : List ℕ) → copied grant text ≡ some path → text ≡ path
copied-same grant text path h = elim (Bool-cases (grant (wrap64 (length text + 1)))) [
  | inl granted ↦ let h' = rw granted at h in cc
  | inr refused ↦ let h' = rw refused at h in cc
]

pub source_path_directory_bound :
    (grant : ℕ → Bool) (path directory : List ℕ)
    → source_path_directory grant path ≡ some directory
    → length directory ≤ suc (length path)
unfolding source_path_directory
source_path_directory_bound grant path directory h =
    bounded (before_last_slash path) (before_last_slash_bound path) h
  where
    bounded :
        (o : Option (List ℕ))
        → Short (length path) o
        → elim o [
          | none ↦ copied grant (0x2e ∷ [])
          | some [] ↦ copied grant (0x2f ∷ [])
          | some (b ∷ bytes) ↦ copied grant (b ∷ bytes)
        ]
          ≡ some directory
        → length directory ≤ suc (length path)
    bounded none s e = rw (← (copied-same grant (0x2e ∷ []) directory e)) (omega arith)
    bounded (some []) s e = rw (← (copied-same grant (0x2f ∷ []) directory e)) (omega arith)
    bounded (some (b ∷ bytes)) s e =
        rw (← (copied-same grant (b ∷ bytes) directory e)) (omega (arith, s))
