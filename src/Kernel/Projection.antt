-- ===== src/Kernel/Projection.antt =====
-- Offsets of fields and the storage of enums: bootstrap/src/kernel/layout/layout_projection.c up to
-- `__Layout_Tagged_Entry_Storage__`; Payloads has the rest. The loops over the
-- payloads of one constructor and over the constructors of an enum are those of the layout itself.
pub mod Memo
pub mod Storage
pub mod Rooms
pub mod Fields
use sultanc.Prelude.{
  ℕ, zero, suc, ◌+◌, ◌-◌, Bool, true, false, not, ◌&&◌, ◌||◌, Option, none, some, List, [], ◌∷◌,
  get_elem?, length, leb, ◌==◌, if◌then◌else◌, wrap64,
}
use sultanc.Support.Alignment.{align_up}
use sultanc.Support.TextEquality.{text_slice_equals}
use sultanc.Frontend.Ast.{
  AstType, StructField, EnumConstructor, DeclarationBody, struct_of, enum_of, alias_of,
  TypeDeclaration,
}
use sultanc.Kernel.Names.{Names}
use sultanc.Kernel.Types.{
  ResolvedType, enum_kind, kind_value, unwrap_mutable, is_missing, Resolution, unresolved, resolved,
  resolve,
}
use sultanc.Kernel.Tagged.{
  TaggedConstructor, is_builtin_tagged, tagged_constructor_count, tagged_constructor_at,
}
use sultanc.Kernel.Layout.{
  LayoutContext, LayoutAnswer, no_layout, out_of_fuel, laid_out, LayoutStep, larger, ◌>>=◌,
  tagged_size, layout_slots, layout_constructors, layout_named_entry, layout_type,
}

-- What a call answers: 0, or 1 with what it found.
pub data Projection (A : Type 0) : Type 0 where
  no_projection projection_out_of_fuel : Projection A
  projected : A → Projection A

-- `if (!__Layout_Type__(…)) return 0;` and what follows.
infixl 5 ◌>>>=◌
abbrev pub ◌>>>=◌ :
    {A : Type 0}
    → LayoutStep
    → (LayoutContext → ℕ → ℕ → LayoutContext × Projection A)
    → LayoutContext × Projection A
(c, no_layout) >>>= k = (c, no_projection)
(c, out_of_fuel) >>>= k = (c, projection_out_of_fuel)
(c, laid_out size alignment) >>>= k = k c size alignment

-- `if (!f(…)) return 0;` on a projection.
infixl 5 ◌>>>>=◌
abbrev pub ◌>>>>=◌ :
    {A B : Type 0}
    → LayoutContext × Projection A
    → (LayoutContext → A → LayoutContext × Projection B)
    → LayoutContext × Projection B
(c, no_projection) >>>>= k = (c, no_projection)
(c, projection_out_of_fuel) >>>>= k = (c, projection_out_of_fuel)
(c, projected a) >>>>= k = k c a

-- An offset and a type.
pub record Place : Type 0 where
  pub offset : ℕ
  pub place_type : AstType

-- The loop of `__Layout_Struct_Field__`.
unfoldable pub find_field :
    (LayoutContext → AstType → LayoutStep)
    → LayoutContext
    → List StructField
    → List ℕ
    → ℕ
    → LayoutContext × Projection Place
unfolding text_slice_equals
find_field node c [] name offset = (c, no_projection)
find_field node c (field ∷ fields) name offset = node c field.slot >>>= λ c' size alignment.
    if text_slice_equals field.name name
    then (c', projected (record { offset = align_up offset alignment; place_type = field.slot }))
    else find_field node c' fields name (wrap64 (align_up offset alignment + size))

unfoldable pub field_of_body :
    (LayoutContext → AstType → LayoutStep)
    → LayoutContext
    → DeclarationBody
    → List ℕ
    → LayoutContext × Projection Place
unfolding find_field
field_of_body node c (struct_of fields) name = find_field node c fields name 0
field_of_body node c (enum_of constructors) name = (c, no_projection)
field_of_body node c (alias_of target) name = (c, no_projection)

unfoldable pub field_of_declaration :
    (LayoutContext → AstType → LayoutStep)
    → LayoutContext
    → Option TypeDeclaration
    → List ℕ
    → LayoutContext × Projection Place
unfolding field_of_body
field_of_declaration node c none name = (c, no_projection)
field_of_declaration node c (some declaration) name = field_of_body node c declaration.body name

-- `__Layout_Struct_Field__` on the entry with an address.
unfoldable pub layout_struct_field :
    ℕ → Names → LayoutContext → ℕ → List ℕ → LayoutContext × Projection Place
unfolding field_of_declaration
layout_struct_field fuel names c e name =
    field_of_declaration (layout_type fuel names) c (names.declaration e) name

-- The four out-parameters of the storage functions.
pub record TaggedStorage : Type 0 where
  pub tag_size : ℕ
  pub payload_offset : ℕ
  pub payload_size : ℕ
  pub alignment : ℕ

abbrev pub storage_of : ℕ → ℕ → TaggedStorage
storage_of payload_max payload_alignment = record {
  tag_size = 8;
  payload_offset = align_up 8 payload_alignment;
  payload_size = payload_max;
  alignment = larger payload_alignment 8;
}

-- The comparison of the projected layout with the canonical one, at the end of both functions.
abbrev pub check_storage : LayoutStep → ℕ → ℕ → LayoutContext × Projection TaggedStorage
check_storage canonical payload_max payload_alignment = canonical >>>= λ c size alignment.
    if not (size == tagged_size payload_max payload_alignment)
      || not (alignment == larger payload_alignment 8)
    then (c, no_projection)
    else (c, projected (storage_of payload_max payload_alignment))

unfoldable pub storage_of_body :
    ℕ → Names → LayoutContext → ℕ → DeclarationBody → LayoutContext × Projection TaggedStorage
unfolding layout_constructors tagged_size
storage_of_body fuel names c e (enum_of constructors) =
    layout_constructors (layout_type fuel names) c constructors 0 1 >>>= λ c' m a.
    check_storage (layout_named_entry fuel names c' e) m a
storage_of_body fuel names c e (struct_of fields) = (c, no_projection)
storage_of_body fuel names c e (alias_of target) = (c, no_projection)

unfoldable pub storage_of_declaration :
    ℕ
    → Names
    → LayoutContext
    → ℕ
    → Option TypeDeclaration
    → LayoutContext × Projection TaggedStorage
unfolding storage_of_body
storage_of_declaration fuel names c e none = (c, no_projection)
storage_of_declaration fuel names c e (some declaration) =
    storage_of_body fuel names c e declaration.body

-- `__Layout_Tagged_Entry_Storage__`
unfoldable pub layout_tagged_entry_storage :
    ℕ → Names → LayoutContext → ℕ → LayoutContext × Projection TaggedStorage
unfolding storage_of_declaration
layout_tagged_entry_storage fuel names c e =
    storage_of_declaration fuel names c e (names.declaration e)
