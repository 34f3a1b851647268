-- ===== src/Kernel/Layout/Known.antt =====
-- What the entries of a context say of the layout of a type, with no visit: the sizes that the rules of
-- the language give from those of the parts.
use sultanc.Prelude.{ℕ, ◌+◌, ◌≡◌, refl, Option, none, some, List, [], ◌∷◌, wrap64}
use sultanc.Support.Alignment.{align_up}
use sultanc.Frontend.Ast.{
  AstType, missing, machine, string, option, result, named, vector, mutable_of, void,
  EnumConstructor, DeclarationBody, struct_of, enum_of, alias_of,
}
use sultanc.Kernel.Names.{Names}
use sultanc.Kernel.Layout.{
  LayoutState, unknown, visiting, ready, LayoutEntry, LayoutContext, entry_at, larger, machine_size,
  tagged_size, slot_types,
}

abbrev pub SizeAndAlignment : Type 0
SizeAndAlignment = ℕ × ℕ

infixl 5 ◌>>>◌
abbrev pub ◌>>>◌ :
    Option SizeAndAlignment → (ℕ → ℕ → Option SizeAndAlignment) → Option SizeAndAlignment
none >>> k = none
some (size, alignment) >>> k = k size alignment

abbrev pub known_entry : LayoutEntry → LayoutState → Option SizeAndAlignment
known_entry x unknown = none
known_entry x visiting = none
known_entry x ready = some (x.size, x.alignment)

abbrev pub known_name : LayoutContext → Option ℕ → Option SizeAndAlignment
known_name c none = none
known_name c (some e) = known_entry (entry_at c e) (entry_at c e).state

-- The layout of a type from the entries that are ready.
unfoldable pub known : Names → LayoutContext → AstType → Option SizeAndAlignment
known names c missing = none
known names c (option t) =
    known names c t >>> λ s a. some (tagged_size (larger s 0) (larger a 1), larger (larger a 1) 8)
known names c (result ok error) = known names c ok >>> λ s a. known names c error >>> λ s' a'.
    some (
      tagged_size (larger s' (larger s 0)) (larger a' (larger a 1)),
      larger (larger a' (larger a 1)) 8,
    )
known names c (named address name arguments) =
    known_name c (names.resolve_named_entry (named address name arguments))
known names c (mutable_of t) = known names c t
known names c string = some (24, 8)
known names c (vector t) = some (24, 8)
known names c void = some (0, 1)
known names c (machine m) = some (machine_size m, machine_size m)
known names c _ = some (8, 8)

unfoldable pub known_slots : Names → LayoutContext → List AstType → ℕ → ℕ → Option SizeAndAlignment
known_slots names c [] size alignment = some (size, alignment)
known_slots names c (t ∷ ts) size alignment = known names c t >>> λ s a.
    known_slots names c ts (wrap64 (align_up size a + s)) (larger a alignment)

unfoldable pub known_constructors :
    Names → LayoutContext → List EnumConstructor → ℕ → ℕ → Option SizeAndAlignment
known_constructors names c [] size alignment = some (size, alignment)
known_constructors names c (x ∷ ks) size alignment =
    known_slots names c x.payload_slots 0 1 >>> λ s a.
    known_constructors names c ks (larger (align_up s a) size) (larger a alignment)

-- The layout of a declaration from the entries that are ready.
unfoldable pub known_body : Names → LayoutContext → DeclarationBody → Option SizeAndAlignment
known_body names c (alias_of target) = known names c target
known_body names c (struct_of fields) =
    known_slots names c (slot_types fields) 0 1 >>> λ s a. some (align_up s a, a)
known_body names c (enum_of constructors) =
    known_constructors names c constructors 0 1 >>> λ s a. some (tagged_size s a, larger a 8)

-- The entries that are ready stay as they are.
abbrev pub Extends : LayoutContext → LayoutContext → Type 0
Extends c c' = (e : ℕ) → (entry_at c e).state ≡ ready → entry_at c' e ≡ entry_at c e

-- What is known stays known.
abbrev pub Stays : Option SizeAndAlignment → Option SizeAndAlignment → Type 0
Stays x y = (p : SizeAndAlignment) → x ≡ some p → y ≡ some p

pub >>>-Stays :
    (x y : Option SizeAndAlignment) (k l : ℕ → ℕ → Option SizeAndAlignment)
    → Stays x y
    → ((s a : ℕ) → Stays (k s a) (l s a))
    → Stays (x >>> k) (y >>> l)
>>>-Stays none y k l h next = λ p e. cc
>>>-Stays (some (s, a)) y k l h next = λ p e. rw (h (s, a) refl) (next s a p e)

module _ (names : Names) (c c' : LayoutContext) (extends : Extends c c') where
  known_entry-Stays :
      (e : ℕ) (state : LayoutState)
      → (entry_at c e).state ≡ state
      → Stays (known_entry (entry_at c e) state) (known_entry (entry_at c' e) (entry_at c' e).state)
  known_entry-Stays e unknown is = λ p h. cc
  known_entry-Stays e visiting is = λ p h. cc
  known_entry-Stays e ready is = λ p h. rw (extends e is, is) h

  known_name-Stays : (found : Option ℕ) → Stays (known_name c found) (known_name c' found)
  known_name-Stays none = λ p h. h
  known_name-Stays (some e) = known_entry-Stays e (entry_at c e).state refl

  pub known-Stays : (t : AstType) → Stays (known names c t) (known names c' t)
  unfolding known
  known-Stays missing = λ p h. h
  known-Stays (option t) = >>>-Stays _ _ _ _ (known-Stays t) (λ s a p h. h)
  known-Stays (result ok error) =
      >>>-Stays _ _ _ _ (known-Stays ok)
        (λ s a. >>>-Stays _ _ _ _ (known-Stays error) (λ s' a' p h. h))
  known-Stays (named address name arguments) =
      known_name-Stays (names.resolve_named_entry (named address name arguments))
  known-Stays (mutable_of t) = known-Stays t
  known-Stays _ = λ p h. h

  pub known_slots-Stays :
      (ts : List AstType) (s a : ℕ)
      → Stays (known_slots names c ts s a) (known_slots names c' ts s a)
  unfolding known_slots
  known_slots-Stays [] s a = λ p h. h
  known_slots-Stays (t ∷ ts) s a =
      >>>-Stays _ _ _ _ (known-Stays t)
        (λ s' a'. known_slots-Stays ts (wrap64 (align_up s a' + s')) (larger a' a))

  pub known_constructors-Stays :
      (ks : List EnumConstructor) (s a : ℕ)
      → Stays (known_constructors names c ks s a) (known_constructors names c' ks s a)
  unfolding known_constructors
  known_constructors-Stays [] s a = λ p h. h
  known_constructors-Stays (x ∷ ks) s a =
      >>>-Stays _ _ _ _ (known_slots-Stays x.payload_slots 0 1)
        (λ s' a'. known_constructors-Stays ks (larger (align_up s' a') s) (larger a' a))

  pub known_body-Stays :
      (body : DeclarationBody) → Stays (known_body names c body) (known_body names c' body)
  unfolding known_body
  known_body-Stays (alias_of target) = known-Stays target
  known_body-Stays (struct_of fields) =
      >>>-Stays _ _ _ _ (known_slots-Stays (slot_types fields) 0 1) (λ s a p h. h)
  known_body-Stays (enum_of constructors) =
      >>>-Stays _ _ _ _ (known_constructors-Stays constructors 0 1) (λ s a p h. h)
