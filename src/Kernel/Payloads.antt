-- ===== src/Kernel/Payloads.antt =====
-- Storage and payloads of tagged values: the second half of bootstrap/src/kernel/layout/layout_projection.c,
-- from `__Layout_Tagged_Constructor_View__` on.
use sultanc.Prelude.{
  ℕ, zero, suc, ◌+◌, Option, none, some, List, [], ◌∷◌, get_elem?, length, leb, ◌==◌, if◌then◌else◌,
  wrap64,
}
use sultanc.Support.Alignment.{align_up}
use sultanc.Frontend.Ast.{AstType, EnumConstructor, struct_of, enum_of, alias_of, TypeDeclaration}
use sultanc.Kernel.Names.{Names}
use sultanc.Kernel.Types.{
  enum_kind, kind_value, unwrap_mutable, Resolution, unresolved, resolved, resolve,
}
use sultanc.Kernel.Tagged.{
  TaggedConstructor, is_builtin_tagged, tagged_constructor_count, tagged_constructor_at,
}
use sultanc.Kernel.Layout.{LayoutContext, LayoutStep, larger, layout_slots, layout_type}
use sultanc.Kernel.Projection.{
  Projection, no_projection, projection_out_of_fuel, projected, ◌>>>=◌, ◌>>>>=◌, Place,
  TaggedStorage, check_storage, layout_tagged_entry_storage,
}

abbrev pub slots_of_constructor : Option TaggedConstructor → Projection (List AstType)
slots_of_constructor none = no_projection
slots_of_constructor (some k) = projected (if k.payload_count == 0 then [] else k.payload_type ∷ [])

abbrev pub slots_at : List EnumConstructor → ℕ → Projection (List AstType)
slots_at constructors index = elim (get_elem? constructors index) [
  | none ↦ no_projection
  | some k ↦ projected k.payload_slots
]

abbrev pub slots_of_body : Option TypeDeclaration → ℕ → Projection (List AstType)
slots_of_body none index = no_projection
slots_of_body (some declaration) index = elim declaration.body [
  | enum_of constructors ↦ slots_at constructors index
  | struct_of fields ↦ no_projection
  | alias_of target ↦ no_projection
]

abbrev pub slots_of_entry : Names → Option ℕ → ℕ → Projection (List AstType)
slots_of_entry names none index = no_projection
slots_of_entry names (some e) index = slots_of_body (names.declaration e) index

-- `__Layout_Tagged_Constructor_View__`: the types of the payloads of one constructor.
unfoldable pub constructor_view : ℕ → Names → AstType → ℕ → Projection (List AstType)
unfolding unwrap_mutable is_builtin_tagged tagged_constructor_at
constructor_view fuel names t index =
    let base = unwrap_mutable t in
    elim (resolve fuel names base) [
      | unresolved ↦ no_projection
      | Resolution.out_of_fuel ↦ projection_out_of_fuel
      | resolved r ↦
          if is_builtin_tagged base
          then slots_of_constructor (tagged_constructor_at base index)
          else if kind_value r.kind == kind_value enum_kind
          then slots_of_entry names r.named_entry index
          else no_projection
    ]

-- The loop of `__Layout_Tagged_Storage__` over the constructors of an option or a result.
unfoldable pub storage_constructors :
    ℕ → Names → AstType → LayoutContext → List ℕ → ℕ → ℕ → LayoutContext × Projection (ℕ × ℕ)
unfolding layout_slots constructor_view
storage_constructors fuel names base c [] payload_max payload_alignment =
    (c, projected (payload_max, payload_alignment))
storage_constructors fuel names base c (index ∷ rest) payload_max payload_alignment =
    (c, constructor_view fuel names base index) >>>>= λ c' slots.
    layout_slots (layout_type fuel names) c' slots 0 1 >>>= λ c'' size alignment.
    storage_constructors fuel names base c'' rest (larger (align_up size alignment) payload_max)
      (larger alignment payload_alignment)

-- The indices of the constructors, in the order of the loop.
abbrev pub constructor_indices : AstType → List ℕ
constructor_indices t = if tagged_constructor_count t == 2 then 0 ∷ 1 ∷ [] else []

abbrev pub storage_of_constructors :
    ℕ
    → Names
    → AstType
    → LayoutContext × Projection (ℕ × ℕ)
    → LayoutContext × Projection TaggedStorage
storage_of_constructors fuel names base step =
    step >>>>= λ c (m, a). check_storage (layout_type fuel names c base) m a

abbrev pub storage_of_entry :
    ℕ → Names → LayoutContext → Option ℕ → LayoutContext × Projection TaggedStorage
storage_of_entry fuel names c none = (c, no_projection)
storage_of_entry fuel names c (some e) = layout_tagged_entry_storage fuel names c e

-- `__Layout_Tagged_Storage__`
unfoldable pub layout_tagged_storage :
    ℕ → Names → LayoutContext → AstType → LayoutContext × Projection TaggedStorage
unfolding unwrap_mutable is_builtin_tagged tagged_constructor_count layout_tagged_entry_storage
    storage_constructors
layout_tagged_storage fuel names c t =
    let base = unwrap_mutable t in
    elim (resolve fuel names base) [
      | unresolved ↦ (c, no_projection)
      | Resolution.out_of_fuel ↦ (c, projection_out_of_fuel)
      | resolved r ↦
          if is_builtin_tagged base
          then storage_of_constructors fuel names base
              (storage_constructors fuel names base c (constructor_indices base) 0 1)
          else if kind_value r.kind == kind_value enum_kind
          then storage_of_entry fuel names c r.named_entry
          else (c, no_projection)
    ]

-- The loop of `__Layout_Tagged_Payload__`, up to the payload with an index.
unfoldable pub find_payload :
    (LayoutContext → AstType → LayoutStep)
    → LayoutContext
    → List AstType
    → ℕ
    → ℕ
    → ℕ
    → LayoutContext × Projection Place
find_payload node c [] index payload_base offset = (c, no_projection)
find_payload node c (t ∷ ts) zero payload_base offset = node c t >>>= λ c' size alignment. (
  c',
  projected (record { offset = wrap64 (payload_base + align_up offset alignment); place_type = t }),
)
find_payload node c (t ∷ ts) (suc index) payload_base offset = node c t >>>= λ c' size alignment.
    find_payload node c' ts index payload_base (wrap64 (align_up offset alignment + size))

-- `__Layout_Tagged_Payload__`
unfoldable pub layout_tagged_payload :
    ℕ → Names → LayoutContext → AstType → ℕ → ℕ → LayoutContext × Projection Place
unfolding layout_tagged_storage constructor_view find_payload
layout_tagged_payload fuel names c t constructor_index payload_index =
    layout_tagged_storage fuel names c t >>>>= λ c' storage.
    (c', constructor_view fuel names t constructor_index) >>>>= λ c'' slots.
    if leb (length slots) payload_index
    then (c'', no_projection)
    else find_payload (layout_type fuel names) c'' slots payload_index storage.payload_offset 0

-- `__Layout_String_Data_Offset__`, `__Layout_String_Length_Offset__`, `__Layout_String_Capacity_Offset__`,
-- and the same of a vector.
abbrev pub string_data_offset : ℕ
string_data_offset = 0

abbrev pub string_length_offset : ℕ
string_length_offset = 8

abbrev pub string_capacity_offset : ℕ
string_capacity_offset = 16

abbrev pub vector_data_offset : ℕ
vector_data_offset = 0

abbrev pub vector_length_offset : ℕ
vector_length_offset = 8

abbrev pub vector_capacity_offset : ℕ
vector_capacity_offset = 16
