-- ===== src/Kernel/Lookup/Imports.antt =====
-- The loop over the imports of a unit in bootstrap/src/kernel/name/name_lookup.c.
use sultanc.Prelude.{
  ℕ, ◌≡◌, refl, sym, ap, ◌∙◌, ◌↔◌, ◌⊎◌, inl, inr, arith, Bool, true, false, Bool-cases,
  Option-cases, Option, none, some, List, [], ◌∷◌,
}
use mathlib.Core.Path.{subst}
use sultanc.Kernel.Units.{DeclaredEntry}
use sultanc.Kernel.Lookup.{
  Lookup, lookup_ambiguous, is_public_entry, finish_lookup, is_other_match, scan_imports,
}
use sultanc.Kernel.Lookup.Choice.{Imported, Chosen, Chosen-map, Chosen-unique}

module _ (entries : List DeclaredEntry) (find : ℕ → Option ℕ) where
  -- An entry that is found in one of the imported units.
  abbrev pub Offers : List ℕ → ℕ → Type 0
  Offers imports e = (i : ℕ) × Imported i imports × (find i ≡ some e)

  abbrev pub PublicOffer : List ℕ → ℕ → Type 0
  PublicOffer imports e = Offers imports e × (is_public_entry entries e ≡ true)

  abbrev pub HiddenOffer : List ℕ → Type 0
  HiddenOffer imports = (e : ℕ) × Offers imports e × (is_public_entry entries e ≡ false)

  -- The same with what the loop has met before.
  abbrev Matched : Option ℕ → List ℕ → ℕ → Type 0
  Matched match imports e = (match ≡ some e) ⊎ PublicOffer imports e

  abbrev Refused : Bool → List ℕ → Type 0
  Refused is_private imports = (is_private ≡ true) ⊎ HiddenOffer imports

  finish_lookup-Chosen :
      (match : Option ℕ) (is_private : Bool)
      → Chosen (Matched match []) (Refused is_private []) (finish_lookup match is_private)
  finish_lookup-Chosen (some e) is_private =
      (inl refl, λ e' h. elim h [ inl same ↦ cc | inr ((i, among, f), p) ↦ absurd among ])
  finish_lookup-Chosen none true =
      (inl refl, λ e h. elim h [ inl same ↦ cc | inr ((i, among, f), p) ↦ absurd among ])
  finish_lookup-Chosen none false = (
    λ h. elim h [ inl same ↦ cc | inr (e, (i, among, f), p) ↦ absurd among ],
    λ e h. elim h [ inl same ↦ cc | inr ((i, among, f), p) ↦ absurd among ],
  )

  -- What holds of the imports behind the first one holds of all.
  Offers-later : (i : ℕ) (rest : List ℕ) (e : ℕ) → Offers rest e → Offers (i ∷ rest) e
  Offers-later i rest e (j, among, f) = (j, inr among, f)

  Offers-head :
      (i : ℕ) (rest : List ℕ) (e : ℕ) → Offers (i ∷ rest) e → (find i ≡ some e) ⊎ Offers rest e
  Offers-head i rest e (j, inl same, f) = inl (ap find (sym same) ∙ f)
  Offers-head i rest e (j, inr among, f) = inr (j, among, f)

  module _ (i : ℕ) (rest : List ℕ) (is_private : Bool) where
    later_Refused : Refused is_private rest → Refused is_private (i ∷ rest)
    later_Refused (inl h) = inl h
    later_Refused (inr (e, offer, p)) = inr (e, Offers-later i rest e offer, p)

    Matched-missed :
        find i ≡ none
        → (match : Option ℕ) (e : ℕ) → Matched match rest e ↔ Matched match (i ∷ rest) e
    Matched-missed missed match e = (
      λ h. elim h [ inl m ↦ inl m | inr (offer, p) ↦ inr (Offers-later i rest e offer, p) ],
      λ h. elim h [
        | inl m ↦ inl m
        | inr (offer, p) ↦ elim (Offers-head i rest e offer) [
          | inl f ↦ cc
          | inr later ↦ inr (later, p)
        ]
      ],
    )

    Refused-missed : find i ≡ none → Refused is_private rest ↔ Refused is_private (i ∷ rest)
    Refused-missed missed = (
      later_Refused,
      λ h. elim h [
        | inl m ↦ inl m
        | inr (e, offer, p) ↦ elim (Offers-head i rest e offer) [
          | inl f ↦ cc
          | inr later ↦ inr (e, later, p)
        ]
      ],
    )

    module _ (e : ℕ) (met : find i ≡ some e) where
      Matched-hidden :
          is_public_entry entries e ≡ false
          → (match : Option ℕ) (e' : ℕ) → Matched match rest e' ↔ Matched match (i ∷ rest) e'
      Matched-hidden hidden match e' = (
        λ h. elim h [ inl m ↦ inl m | inr (offer, p) ↦ inr (Offers-later i rest e' offer, p) ],
        λ h. elim h [
          | inl m ↦ inl m
          | inr (offer, p) ↦ elim (Offers-head i rest e' offer) [
            | inl f ↦ cc
            | inr later ↦ inr (later, p)
          ]
        ],
      )

      Refused-hidden :
          is_public_entry entries e ≡ false → Refused true rest ↔ Refused is_private (i ∷ rest)
      Refused-hidden hidden = (
        λ h. elim h [
          | inl m ↦ inr (e, (i, inl refl, met), hidden)
          | inr (e', offer, p) ↦ inr (e', Offers-later i rest e' offer, p)
        ],
        λ h. inl refl,
      )

      module _ (clear : is_public_entry entries e ≡ true) where
        Matched-same :
            (match : Option ℕ)
            → is_other_match match e ≡ false
            → (e' : ℕ) → Matched (some e) rest e' ↔ Matched match (i ∷ rest) e'
        Matched-same match same e' = (
          λ h. elim h [
            | inl m ↦ inr ((i, inl refl, met ∙ m), cc)
            | inr (offer, p) ↦ inr (Offers-later i rest e' offer, p)
          ],
          λ h. elim h [
            | inl m ↦ inl (same_match match e' same m)
            | inr (offer, p) ↦ elim (Offers-head i rest e' offer) [
              | inl f ↦ inl cc
              | inr later ↦ inr (later, p)
            ]
          ],
        )
          where
            same_match :
                (match : Option ℕ) (e' : ℕ)
                → is_other_match match e ≡ false
                → match ≡ some e'
                → some e ≡ some e'
            same_match none e' same m = cc
            same_match (some a) e' same m =
                let meet : a ≡ e = ground arith in sym (ap some meet) ∙ m

        Refused-shown : Refused is_private rest ↔ Refused is_private (i ∷ rest)
        Refused-shown = (
          later_Refused,
          λ h. elim h [
            | inl m ↦ inl m
            | inr (e', offer, p) ↦ elim (Offers-head i rest e' offer) [
              | inl f ↦ cc
              | inr later ↦ inr (e', later, p)
            ]
          ],
        )

        other-Chosen :
            (match : Option ℕ)
            → is_other_match match e ≡ true
            → Chosen (Matched match (i ∷ rest)) (Refused is_private (i ∷ rest)) lookup_ambiguous
        other-Chosen none other = cc
        other-Chosen (some a) other =
            (a, e, inl refl, inr ((i, inl refl, met), clear), λ same. ground arith)

  scan_imports-Chosen :
      (imports : List ℕ) (match : Option ℕ) (is_private : Bool)
      → Chosen
          (Matched match imports)
          (Refused is_private imports)
          (scan_imports entries find imports match is_private)
  unfolding scan_imports
  scan_imports-Chosen [] match is_private = finish_lookup-Chosen match is_private
  scan_imports-Chosen (i ∷ rest) match is_private = elim (Option-cases (find i)) [
    | inl missed ↦
        carry (scan_imports entries find rest match is_private) (rw (missed, scan_imports) refl) (
          Chosen-map (Matched-missed i rest is_private missed match)
            (Refused-missed i rest is_private missed)
            (scan_imports entries find rest match is_private)
            (scan_imports-Chosen rest match is_private))
    | inr (e, met) ↦ elim (Bool-cases (is_public_entry entries e)) [
      | inr hidden ↦
          carry (scan_imports entries find rest match true) (rw (met, hidden, scan_imports) refl) (
            Chosen-map (Matched-hidden i rest is_private e met hidden match)
              (Refused-hidden i rest is_private e met hidden)
              (scan_imports entries find rest match true) (scan_imports-Chosen rest match true))
      | inl clear ↦ elim (Bool-cases (is_other_match match e)) [
        | inl other ↦
            carry lookup_ambiguous (rw (met, clear, other, scan_imports) refl)
              (other-Chosen i rest is_private e met clear match other)
        | inr same ↦
            carry (scan_imports entries find rest (some e) is_private)
              (rw (met, clear, same, scan_imports) refl)
              (Chosen-map (Matched-same i rest is_private e met clear match same)
                (Refused-shown i rest is_private e met clear)
                (scan_imports entries find rest (some e) is_private)
                (scan_imports-Chosen rest (some e) is_private))
      ]
    ]
  ]
    where
      carry :
          (r : Lookup)
          → scan_imports entries find (i ∷ rest) match is_private ≡ r
          → Chosen (Matched match (i ∷ rest)) (Refused is_private (i ∷ rest)) r
          → Chosen
              (Matched match (i ∷ rest))
              (Refused is_private (i ∷ rest))
              (scan_imports entries find (i ∷ rest) match is_private)
      carry r same h =
          subst
            (λ (r' : Lookup). Chosen (Matched match (i ∷ rest)) (Refused is_private (i ∷ rest)) r')
            (sym same) h

  -- The loop from its start chooses among the offers of the imports, and nothing else fits.
  pub scan_imports_iff :
      (imports : List ℕ) (r : Lookup)
      → (scan_imports entries find imports none false ≡ r)
        ↔ Chosen (PublicOffer imports) (HiddenOffer imports) r
  scan_imports_iff imports r =
      let answer = scan_imports entries find imports none false in
      let chosen : Chosen (PublicOffer imports) (HiddenOffer imports) answer =
        Chosen-map (λ e. (λ h. elim h [ inl m ↦ cc | inr offer ↦ offer ], λ offer. inr offer))
          (λ h. elim h [ inl m ↦ cc | inr offer ↦ offer ], λ offer. inr offer) answer
          (scan_imports-Chosen imports none false) in
      (
        λ same.
            subst (λ (r' : Lookup). Chosen (PublicOffer imports) (HiddenOffer imports) r') same
              chosen,
        λ h. Chosen-unique (PublicOffer imports) (HiddenOffer imports) answer r chosen h,
      )

  Offers-order :
      (imports others : List ℕ)
      → ((i : ℕ) → Imported i imports → Imported i others)
      → (e : ℕ) → Offers imports e
      → Offers others e
  Offers-order imports others among e (i, m, f) = (i, among i m, f)

  -- Imports with the same members, in whatever order and however often, give the same answer.
  scan_imports_order :
      (imports others : List ℕ)
      → ((i : ℕ) → Imported i imports ↔ Imported i others)
      → scan_imports entries find imports none false ≡ scan_imports entries find others none false
  scan_imports_order imports others same =
      let answer = scan_imports entries find imports none false in
      let there = Offers-order imports others (λ i. (same i).0) in
      let back = Offers-order others imports (λ i. (same i).1) in
      sym (
        (scan_imports_iff others answer).1 (
          Chosen-map (λ e. (λ (offer, p). (there e offer, p), λ (offer, p). (back e offer, p)))
            (λ (e, offer, p). (e, there e offer, p), λ (e, offer, p). (e, back e offer, p)) answer
            ((scan_imports_iff imports answer).0 refl)))
