-- ===== src/Kernel/Units/Aliases.antt =====
-- The bound of `__Name_Resolve_Module_Alias_Name__` in bootstrap/src/kernel/name/name_lookup.c.
use sultanc.Prelude.{
  ℕ, zero, suc, ◌≤◌, ◌<◌, ◌≡◌, refl, sym, ◌∙◌, ◌↔◌, ◌⊎◌, inl, inr, arith, Bool, true, false, leb,
  ◌==◌, Bool-cases, Option-cases, Option, none, some, List, [], ◌∷◌, length, if◌then◌else◌,
}
use mathlib.Core.Path.{subst}
use sultanc.Frontend.Identity.{equals}
use sultanc.Kernel.Units.{
  ModuleItem, function_item, type_item, inline_item, global_item, alias_item, NameContext, unit_at,
  alias_target, find_alias, follow_aliases, resolve_module_alias_name,
}

-- The name that a name stands for: aliases are followed until there is none for the name.
pub data StandsFor (items : List ModuleItem) (out : List ℕ) : List ℕ → Type 0 where
  last_name : find_alias items out ≡ none → StandsFor items out out
  by_alias :
      (name target : List ℕ)
      → find_alias items name ≡ some target
      → StandsFor items out target
      → StandsFor items out name

-- An item that leads to a name.
abbrev Leads : ModuleItem → List ℕ → Type 0
Leads (alias_item a) t = a.target_name ≡ t
Leads _ t = ⊥

abbrev HasTarget : List ModuleItem → List ℕ → Type 0
HasTarget [] t = ⊥
HasTarget (item ∷ items) t = Leads item t ⊎ HasTarget items t

alias_target-Leads :
    (item : ModuleItem) (name t : List ℕ) → alias_target item name ≡ some t → Leads item t
alias_target-Leads (alias_item a) name t h = elim (Bool-cases (length a.destination_parent == 0)) [
  | inr no_root ↦ let h' = rw no_root at h in cc
  | inl root ↦ elim (Bool-cases (equals a.destination_name name)) [
    | inl same ↦ let h' = rw (root, same) at h in cc
    | inr other ↦ let h' = rw (root, other) at h in cc
  ]
]
alias_target-Leads function_item name t h = cc
alias_target-Leads type_item name t h = cc
alias_target-Leads inline_item name t h = cc
alias_target-Leads global_item name t h = cc

find_alias-HasTarget :
    (items : List ModuleItem) (name t : List ℕ) → find_alias items name ≡ some t → HasTarget items t
unfolding find_alias
find_alias-HasTarget [] name t h = cc
find_alias-HasTarget (item ∷ items) name t h = elim (Option-cases (alias_target item name)) [
  | inl missed ↦ inr (find_alias-HasTarget items name t (rw (missed, find_alias) at h))
  | inr (target, met) ↦
      let same : some target ≡ some t = rw (met, find_alias) at h in
      inl (alias_target-Leads item name t (met ∙ same))
]

module _ (items : List ModuleItem) where
  follow_aliases-none :
      (rounds : ℕ) (name : List ℕ)
      → find_alias items name ≡ none
      → follow_aliases (suc rounds) items name ≡ some name
  unfolding follow_aliases
  follow_aliases-none rounds name h = rw (h, follow_aliases) refl

  follow_aliases-some :
      (rounds : ℕ) (name t : List ℕ)
      → find_alias items name ≡ some t
      → follow_aliases (suc rounds) items name ≡ follow_aliases rounds items t
  unfolding follow_aliases
  follow_aliases-some rounds name t h = rw (h, follow_aliases) refl

  follow_aliases-StandsFor :
      (rounds : ℕ) (name out : List ℕ)
      → follow_aliases rounds items name ≡ some out
      → StandsFor items out name
  unfolding follow_aliases
  follow_aliases-StandsFor zero name out h = cc
  follow_aliases-StandsFor (suc rounds) name out h = elim (Option-cases (find_alias items name)) [
    | inl last ↦
        let same : some name ≡ some out = sym (follow_aliases-none rounds name last) ∙ h in
        let meet : name ≡ out = cc in
        subst (λ (o : List ℕ). StandsFor items o name) meet (last_name last)
    | inr (t, next) ↦
        by_alias name t next
          (follow_aliases-StandsFor rounds t out (sym (follow_aliases-some rounds name t next) ∙ h))
  ]

  follow_aliases_more :
      (rounds : ℕ) (name out : List ℕ)
      → follow_aliases rounds items name ≡ some out
      → follow_aliases (suc rounds) items name ≡ some out
  unfolding follow_aliases
  follow_aliases_more zero name out h = cc
  follow_aliases_more (suc rounds) name out h = elim (Option-cases (find_alias items name)) [
    | inl last ↦
        follow_aliases-none (suc rounds) name last ∙ sym (follow_aliases-none rounds name last) ∙ h
    | inr (t, next) ↦
        follow_aliases-some (suc rounds) name t next
        ∙ follow_aliases_more rounds t out (sym (follow_aliases-some rounds name t next) ∙ h)
  ]

  -- The rounds that a name takes: one more than the aliases that are followed.
  abbrev Takes : ℕ → List ℕ → List ℕ → Type 0
  Takes k name out =
      (follow_aliases (suc k) items name ≡ some out) × (follow_aliases k items name ≡ none)

  StandsFor-Takes : (out name : List ℕ) → StandsFor items out name → (k : ℕ) × Takes k name out
  unfolding follow_aliases
  StandsFor-Takes out _ (last_name h) = (0, (follow_aliases-none 0 out h, refl))
  StandsFor-Takes out name (by_alias _ t next rest) =
      let (k, (now, before)) = StandsFor-Takes out t rest in
      (
        suc k,
        (follow_aliases-some (suc k) name t next ∙ now, follow_aliases-some k name t next ∙ before),
      )

  abbrev is_found : Option (List ℕ) → Bool
  is_found none = false
  is_found (some out) = true

  abbrev is_done : ℕ → ModuleItem → Bool
  is_done rounds (alias_item a) = is_found (follow_aliases rounds items a.target_name)
  is_done rounds _ = false

  -- How many items lead to names that the rounds are enough for.
  abbrev count_done : ℕ → List ModuleItem → ℕ
  count_done rounds [] = 0
  count_done rounds (item ∷ rest) =
      let n = count_done rounds rest in if is_done rounds item then suc n else n

  count_done-length : (rounds : ℕ) (rest : List ModuleItem) → count_done rounds rest ≤ length rest
  count_done-length rounds [] = omega arith
  count_done-length rounds (item ∷ rest) = ground (arith, count_done-length rounds rest)

  is_done_more :
      (rounds : ℕ) (item : ModuleItem)
      → is_done rounds item ≡ true
      → is_done (suc rounds) item ≡ true
  is_done_more rounds (alias_item a) h =
      elim (Option-cases (follow_aliases rounds items a.target_name)) [
        | inl missed ↦ let h' = rw missed at h in cc
        | inr (out, met) ↦ rw (follow_aliases_more rounds a.target_name out met) refl
      ]
  is_done_more rounds function_item h = cc
  is_done_more rounds type_item h = cc
  is_done_more rounds inline_item h = cc
  is_done_more rounds global_item h = cc

  count_done_more :
      (rounds : ℕ) (rest : List ModuleItem) → count_done rounds rest ≤ count_done (suc rounds) rest
  count_done_more rounds [] = omega arith
  count_done_more rounds (item ∷ rest) = elim (Bool-cases (is_done rounds item)) [
    | inl now ↦ ground (arith, now, is_done_more rounds item now, count_done_more rounds rest)
    | inr later ↦ ground (arith, later, count_done_more rounds rest)
  ]

  -- An item that leads to a name of k aliases is done with one round more, not before.
  Takes-is_done :
      (k : ℕ) (item : ModuleItem) (t out : List ℕ)
      → Leads item t
      → Takes k t out
      → (is_done k item ≡ false) × (is_done (suc k) item ≡ true)
  Takes-is_done k (alias_item a) t out same (now, before) =
      (rw (same, before) refl, rw (same, now) refl)
  Takes-is_done k function_item t out same h = absurd same
  Takes-is_done k type_item t out same h = absurd same
  Takes-is_done k inline_item t out same h = absurd same
  Takes-is_done k global_item t out same h = absurd same

  Takes-count_done :
      (k : ℕ) (rest : List ModuleItem) (t out : List ℕ)
      → HasTarget rest t
      → Takes k t out
      → count_done k rest < count_done (suc k) rest
  Takes-count_done k [] t out has takes = absurd has
  Takes-count_done k (item ∷ rest) t out (inl leads) takes =
      let (before, now) = Takes-is_done k item t out leads takes in
      ground (arith, before, now, count_done_more k rest)
  Takes-count_done k (item ∷ rest) t out (inr has) takes = elim (Bool-cases (is_done k item)) [
    | inl now ↦
        ground (arith, now, is_done_more k item now, Takes-count_done k rest t out has takes)
    | inr later ↦ ground (arith, later, Takes-count_done k rest t out has takes)
  ]

  Takes-le : (k : ℕ) (name out : List ℕ) → Takes k name out → k ≤ count_done k items
  unfolding follow_aliases
  Takes-le zero name out takes = omega arith
  Takes-le (suc k) name out (now, before) = elim (Option-cases (find_alias items name)) [
    | inl last ↦
        let impossible : some name ≡ none = sym (follow_aliases-none k name last) ∙ before in cc
    | inr (t, next) ↦
        let takes : Takes k t out = (
          sym (follow_aliases-some (suc k) name t next) ∙ now,
          sym (follow_aliases-some k name t next) ∙ before,
        ) in
        omega (
          arith,
          Takes-le k t out takes,
          Takes-count_done k items t out (find_alias-HasTarget items name t next) takes,
        )
  ]

  follow_aliases_within :
      (n rounds : ℕ) (name out : List ℕ)
      → rounds ≤ n
      → follow_aliases rounds items name ≡ some out
      → follow_aliases n items name ≡ some out
  follow_aliases_within zero rounds name out le h =
      let meet : rounds ≡ 0 = omega arith in
      subst (λ (r : ℕ). follow_aliases r items name ≡ some out) meet h
  follow_aliases_within (suc n) rounds name out le h = elim (Bool-cases (leb rounds n)) [
    | inl less ↦
        follow_aliases_more n name out (follow_aliases_within n rounds name out (ground arith) h)
    | inr more ↦
        let meet : rounds ≡ suc n = ground arith in
        subst (λ (r : ℕ). follow_aliases r items name ≡ some out) meet h
  ]

  StandsFor-follow_aliases :
      (name out : List ℕ)
      → StandsFor items out name
      → follow_aliases (suc (length items)) items name ≡ some out
  StandsFor-follow_aliases name out h =
      let (k, takes) = StandsFor-Takes out name h in
      let short : k ≤ length items =
        omega (arith, Takes-le k name out takes, count_done-length k items) in
      follow_aliases_within (suc (length items)) (suc k) name out (omega arith) takes.0

-- The aliases of a unit are followed to the end exactly where there is one: the answer for a name is
-- the name that it stands for by the first alias of each name, however long the chain is, and only a
-- chain that never ends is refused.
pub resolve_module_alias_name_iff :
    (c : NameContext) (u : ℕ) (name out : List ℕ)
    → (resolve_module_alias_name c (some u) name ≡ some out)
      ↔ StandsFor (unit_at c u).items out name
unfolding resolve_module_alias_name
resolve_module_alias_name_iff c u name out = (
  follow_aliases-StandsFor (unit_at c u).items (suc (length (unit_at c u).items)) name out,
  StandsFor-follow_aliases (unit_at c u).items name out,
)
