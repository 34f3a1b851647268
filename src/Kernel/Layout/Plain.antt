-- ===== src/Kernel/Layout/Plain.antt =====
-- The layout of a type by the declarations alone, with no context: each named type is replaced by what
-- its declaration says, up to a depth. A type that contains itself has no such layout at any depth.
use sultanc.Prelude.{ℕ, zero, suc, ◌+◌, ◌≡◌, refl, arith, Option, none, some, List, [], ◌∷◌, wrap64}
use sultanc.Support.Alignment.{align_up}
use sultanc.Frontend.Ast.{
  AstType, missing, machine, string, option, result, named, vector, mutable_of, void,
  EnumConstructor, DeclarationBody, struct_of, enum_of, alias_of, TypeDeclaration,
}
use sultanc.Kernel.Names.{Names}
use sultanc.Kernel.Layout.{larger, machine_size, tagged_size, slot_types}
use sultanc.Kernel.Layout.Known.{SizeAndAlignment, ◌>>>◌, Stays, >>>-Stays}

abbrev pub plain_name : (ℕ → Option SizeAndAlignment) → Option ℕ → Option SizeAndAlignment
plain_name entry none = none
plain_name entry (some e) = entry e

-- The layout of a type, from the layouts of the entries.
unfoldable pub plain_type :
    (ℕ → Option SizeAndAlignment) → Names → AstType → Option SizeAndAlignment
plain_type entry names missing = none
plain_type entry names (option t) = plain_type entry names t >>> λ s a.
    some (tagged_size (larger s 0) (larger a 1), larger (larger a 1) 8)
plain_type entry names (result ok error) = plain_type entry names ok >>> λ s a.
    plain_type entry names error >>> λ s' a'. some (
      tagged_size (larger s' (larger s 0)) (larger a' (larger a 1)),
      larger (larger a' (larger a 1)) 8,
    )
plain_type entry names (named address name arguments) =
    plain_name entry (names.resolve_named_entry (named address name arguments))
plain_type entry names (mutable_of t) = plain_type entry names t
plain_type entry names string = some (24, 8)
plain_type entry names (vector t) = some (24, 8)
plain_type entry names void = some (0, 1)
plain_type entry names (machine m) = some (machine_size m, machine_size m)
plain_type entry names _ = some (8, 8)

unfoldable pub plain_slots :
    (AstType → Option SizeAndAlignment) → List AstType → ℕ → ℕ → Option SizeAndAlignment
plain_slots node [] size alignment = some (size, alignment)
plain_slots node (t ∷ ts) size alignment =
    node t >>> λ s a. plain_slots node ts (wrap64 (align_up size a + s)) (larger a alignment)

unfoldable pub plain_constructors :
    (AstType → Option SizeAndAlignment) → List EnumConstructor → ℕ → ℕ → Option SizeAndAlignment
plain_constructors node [] size alignment = some (size, alignment)
plain_constructors node (k ∷ ks) size alignment = plain_slots node k.payload_slots 0 1 >>> λ s a.
    plain_constructors node ks (larger (align_up s a) size) (larger a alignment)

-- The layout of a declaration, from the layouts of the types in it.
unfoldable pub plain_body :
    (AstType → Option SizeAndAlignment) → DeclarationBody → Option SizeAndAlignment
plain_body node (alias_of target) = node target
plain_body node (struct_of fields) =
    plain_slots node (slot_types fields) 0 1 >>> λ s a. some (align_up s a, a)
plain_body node (enum_of constructors) =
    plain_constructors node constructors 0 1 >>> λ s a. some (tagged_size s a, larger a 8)

abbrev pub plain_declaration :
    (AstType → Option SizeAndAlignment) → Option TypeDeclaration → Option SizeAndAlignment
plain_declaration node none = none
plain_declaration node (some d) = plain_body node d.body

-- The layout of a declared type with at most so many declarations inside one another.
unfoldable pub plain_entry : ℕ → Names → ℕ → Option SizeAndAlignment
plain_entry zero names e = none
plain_entry (suc depth) names e =
    plain_declaration (plain_type (plain_entry depth names) names) (names.declaration e)

abbrev pub plain : ℕ → Names → AstType → Option SizeAndAlignment
plain depth names t = plain_type (plain_entry depth names) names t

-- What a rule gives comes from what its first part gives.
pub >>>-inverse :
    (x : Option SizeAndAlignment) (k : ℕ → ℕ → Option SizeAndAlignment) (p : SizeAndAlignment)
    → (x >>> k) ≡ some p
    → (s : ℕ) × (a : ℕ) × (x ≡ some (s, a)) × (k s a ≡ some p)
>>>-inverse none k p h = cc
>>>-inverse (some (s, a)) k p h = (s, a, refl, h)

module _ (node node' : AstType → Option SizeAndAlignment)
    (stays : (t : AstType) → Stays (node t) (node' t)) where
  pub plain_slots-Stays :
      (ts : List AstType) (size alignment : ℕ)
      → Stays (plain_slots node ts size alignment) (plain_slots node' ts size alignment)
  unfolding plain_slots
  plain_slots-Stays [] size alignment = λ p h. h
  plain_slots-Stays (t ∷ ts) size alignment =
      >>>-Stays _ _ _ _ (stays t)
        (λ s a. plain_slots-Stays ts (wrap64 (align_up size a + s)) (larger a alignment))

  pub plain_constructors-Stays :
      (ks : List EnumConstructor) (size alignment : ℕ)
      → Stays
          (plain_constructors node ks size alignment)
          (plain_constructors node' ks size alignment)
  unfolding plain_constructors
  plain_constructors-Stays [] size alignment = λ p h. h
  plain_constructors-Stays (k ∷ ks) size alignment =
      >>>-Stays _ _ _ _ (plain_slots-Stays k.payload_slots 0 1)
        (λ s a. plain_constructors-Stays ks (larger (align_up s a) size) (larger a alignment))

  plain_body-Stays : (body : DeclarationBody) → Stays (plain_body node body) (plain_body node' body)
  unfolding plain_body
  plain_body-Stays (alias_of target) = stays target
  plain_body-Stays (struct_of fields) =
      >>>-Stays _ _ _ _ (plain_slots-Stays (slot_types fields) 0 1) (λ s a p h. h)
  plain_body-Stays (enum_of constructors) =
      >>>-Stays _ _ _ _ (plain_constructors-Stays constructors 0 1) (λ s a p h. h)

  plain_declaration-Stays :
      (o : Option TypeDeclaration) → Stays (plain_declaration node o) (plain_declaration node' o)
  plain_declaration-Stays none = λ p h. h
  plain_declaration-Stays (some d) = plain_body-Stays d.body

module _ (names : Names) where
  module _ (entry entry' : ℕ → Option SizeAndAlignment)
      (stays : (e : ℕ) → Stays (entry e) (entry' e)) where
    plain_name-Stays : (o : Option ℕ) → Stays (plain_name entry o) (plain_name entry' o)
    plain_name-Stays none = λ p h. h
    plain_name-Stays (some e) = stays e

    plain_type-Stays : (t : AstType) → Stays (plain_type entry names t) (plain_type entry' names t)
    unfolding plain_type
    plain_type-Stays missing = λ p h. h
    plain_type-Stays (option t) = >>>-Stays _ _ _ _ (plain_type-Stays t) (λ s a p h. h)
    plain_type-Stays (result ok error) =
        >>>-Stays _ _ _ _ (plain_type-Stays ok)
          (λ s a. >>>-Stays _ _ _ _ (plain_type-Stays error) (λ s' a' p h. h))
    plain_type-Stays (named address name arguments) =
        plain_name-Stays (names.resolve_named_entry (named address name arguments))
    plain_type-Stays (mutable_of t) = plain_type-Stays t
    plain_type-Stays _ = λ p h. h

  -- A greater depth gives the same layouts.
  pub plain_entry-deeper : (n m e : ℕ) → Stays (plain_entry n names e) (plain_entry (n + m) names e)
  unfolding plain_entry
  plain_entry-deeper zero m e = λ p h. cc
  plain_entry-deeper (suc n) m e =
      let next : suc n + m ≡ suc (n + m) = omega arith in
      rw next (
        plain_declaration-Stays (plain_type (plain_entry n names) names)
          (plain_type (plain_entry (n + m) names) names)
          (plain_type-Stays (plain_entry n names) (plain_entry (n + m) names)
            (plain_entry-deeper n m))
          (names.declaration e))

  pub plain-deeper : (n m : ℕ) (t : AstType) → Stays (plain n names t) (plain (n + m) names t)
  plain-deeper n m =
      plain_type-Stays (plain_entry n names) (plain_entry (n + m) names) (plain_entry-deeper n m)

  pub plain-deeper_left : (n m : ℕ) (t : AstType) → Stays (plain m names t) (plain (n + m) names t)
  plain-deeper_left n m t = let swap : n + m ≡ m + n = omega arith in rw swap (plain-deeper m n t)
