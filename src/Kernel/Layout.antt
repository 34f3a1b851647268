-- ===== src/Kernel/Layout.antt =====
-- Sizes and alignments of types: bootstrap/src/kernel/layout/layout_type.c. The fields
-- `__Layout_State__`, `__Size__` and `__Alignment__` of the entries and the first error of the semantic
-- context (bootstrap/src/semantic/context_fail.c) are the state; the entry with address n is the n-th.
-- The fuel bounds the named entries that are visited inside one another.
pub mod Sizes
pub mod Shapes
pub mod Termination
pub mod Known
pub mod Refinement
pub mod Visits
pub mod Entries
pub mod Plain
pub mod Grounded
pub mod Soundness
pub mod Depths
pub mod Parts
pub mod Completeness
use sultanc.Prelude.{
  ℕ, zero, suc, ◌+◌, Option, none, some, List, [], ◌∷◌, map, get_or, set, ltb, if◌then◌else◌,
  wrap64,
}
use sultanc.Support.Alignment.{align_up}
use sultanc.Frontend.Ast.{
  MachineType, machine_i8, machine_i16, machine_i32, machine_i64, machine_u8, machine_u16,
  machine_u32, machine_u64, machine_f32, machine_f64, AstType, missing, any, boolean, machine,
  integer, unsigned_integer, character, string, box, option, result, function, named, pointer,
  reference, vector, mutable_of, void, StructField, EnumConstructor, DeclarationBody, struct_of,
  enum_of, alias_of, TypeDeclaration,
}
use sultanc.Kernel.Names.{Names}

-- The values 0, 1 and 2 of `__Layout_State__`.
pub data LayoutState : Type 0 where
  unknown visiting ready : LayoutState

pub record LayoutEntry : Type 0 where
  pub state : LayoutState
  pub size : ℕ
  pub alignment : ℕ

abbrev pub fresh_entry : LayoutEntry
fresh_entry = record { state = unknown; size = 0; alignment = 0 }

-- `__E0409_Unresolved_Type__`, `__E0308_Infinite_Recursive_Type__`, and the error of a failed lookup.
pub data LayoutError : Type 0 where
  unresolved_type infinite_recursive_type failed_lookup : LayoutError

pub record LayoutContext : Type 0 where
  pub entries : List LayoutEntry
  pub error : Option LayoutError

-- What a call answers: 0, or 1 with a size and an alignment.
pub data LayoutAnswer : Type 0 where
  no_layout out_of_fuel : LayoutAnswer
  laid_out : ℕ → ℕ → LayoutAnswer

abbrev pub LayoutStep : Type 0
LayoutStep = LayoutContext × LayoutAnswer

abbrev pub first_error : Option LayoutError → LayoutError → Option LayoutError
first_error none e = some e
first_error (some first) e = some first

-- `__Semantic_Fail__`: the first error stays.
unfoldable pub semantic_fail : LayoutContext → LayoutError → LayoutStep
semantic_fail c e = (record c { error = first_error c.error e }, no_layout)

abbrev pub entry_at : LayoutContext → ℕ → LayoutEntry
entry_at c e = get_or c.entries e fresh_entry

abbrev pub set_entry : LayoutContext → ℕ → LayoutEntry → LayoutContext
set_entry c e v = record c { entries = set c.entries e v }

-- `if (!__Layout_Type__(…)) return 0;` and what follows with its results.
infixl 5 ◌>>=◌
abbrev pub ◌>>=◌ : LayoutStep → (LayoutContext → ℕ → ℕ → LayoutStep) → LayoutStep
(c, no_layout) >>= k = (c, no_layout)
(c, out_of_fuel) >>= k = (c, out_of_fuel)
(c, laid_out size alignment) >>= k = k c size alignment

-- `if (x > y) y = x;`
abbrev pub larger : ℕ → ℕ → ℕ
larger x y = if ltb y x then x else y

-- The end of a tagged layout: the tag, then the largest payload.
unfoldable pub tagged_size : ℕ → ℕ → ℕ
tagged_size payload_max payload_alignment =
    align_up (wrap64 (align_up 8 payload_alignment + payload_max)) (larger payload_alignment 8)

abbrev pub finish_tagged : LayoutContext → ℕ → ℕ → LayoutStep
finish_tagged c payload_max payload_alignment =
    (c, laid_out (tagged_size payload_max payload_alignment) (larger payload_alignment 8))

abbrev pub machine_size : MachineType → ℕ
machine_size machine_i8 = 1
machine_size machine_u8 = 1
machine_size machine_i16 = 2
machine_size machine_u16 = 2
machine_size machine_i32 = 4
machine_size machine_u32 = 4
machine_size machine_f32 = 4
machine_size machine_i64 = 8
machine_size machine_u64 = 8
machine_size machine_f64 = 8

-- The named case of `__Layout_Type__`; `enter` is `__Layout_Named_Entry__`.
unfoldable pub layout_name :
    (LayoutContext → ℕ → LayoutStep) → LayoutContext → Option ℕ → LayoutStep
unfolding semantic_fail
layout_name enter c none = semantic_fail c failed_lookup
layout_name enter c (some e) = enter c e

-- `__Layout_Type__`, which passes over the mutable nodes first.
unfoldable pub layout_node :
    (LayoutContext → ℕ → LayoutStep) → Names → LayoutContext → AstType → LayoutStep
unfolding semantic_fail tagged_size layout_name
layout_node enter names c missing = semantic_fail c unresolved_type
layout_node enter names c any = (c, laid_out 8 8)
layout_node enter names c integer = (c, laid_out 8 8)
layout_node enter names c unsigned_integer = (c, laid_out 8 8)
layout_node enter names c (pointer t) = (c, laid_out 8 8)
layout_node enter names c (reference t) = (c, laid_out 8 8)
layout_node enter names c (box t) = (c, laid_out 8 8)
layout_node enter names c (function parameters output) = (c, laid_out 8 8)
layout_node enter names c boolean = (c, laid_out 8 8)
layout_node enter names c character = (c, laid_out 8 8)
layout_node enter names c string = (c, laid_out 24 8)
layout_node enter names c (vector t) = (c, laid_out 24 8)
layout_node enter names c (option t) = layout_node enter names c t >>= λ c' size alignment.
    finish_tagged c' (larger size 0) (larger alignment 1)
layout_node enter names c (result ok error) = layout_node enter names c ok >>= λ c' size alignment.
    layout_node enter names c' error >>= λ c'' size' alignment'.
    finish_tagged c'' (larger size' (larger size 0)) (larger alignment' (larger alignment 1))
layout_node enter names c void = (c, laid_out 0 1)
layout_node enter names c (machine m) = (c, laid_out (machine_size m) (machine_size m))
layout_node enter names c (named address name arguments) =
    layout_name enter c (names.resolve_named_entry (named address name arguments))
layout_node enter names c (mutable_of t) = layout_node enter names c t

-- The loop over the fields of a struct, and the one over the payloads of a constructor: each is put
-- behind the ones before it.
unfoldable pub layout_slots :
    (LayoutContext → AstType → LayoutStep) → LayoutContext → List AstType → ℕ → ℕ → LayoutStep
layout_slots node c [] size alignment = (c, laid_out size alignment)
layout_slots node c (t ∷ ts) size alignment = node c t >>= λ c' field_size field_alignment.
    layout_slots node c' ts (wrap64 (align_up size field_alignment + field_size))
      (larger field_alignment alignment)

-- The loop over the constructors of an enum.
unfoldable pub layout_constructors :
    (LayoutContext → AstType → LayoutStep)
    → LayoutContext
    → List EnumConstructor
    → ℕ
    → ℕ
    → LayoutStep
unfolding layout_slots
layout_constructors node c [] payload_max payload_alignment =
    (c, laid_out payload_max payload_alignment)
layout_constructors node c (k ∷ ks) payload_max payload_alignment =
    layout_slots node c k.payload_slots 0 1 >>= λ c' size alignment.
    layout_constructors node c' ks (larger (align_up size alignment) payload_max)
      (larger alignment payload_alignment)

-- The end of `__Layout_Named_Entry__`.
abbrev pub store_layout : ℕ → LayoutContext → ℕ → ℕ → LayoutStep
store_layout e c size alignment = (
  set_entry c e (record { state = ready; size = size; alignment = alignment }),
  laid_out size alignment,
)

-- An alias that fails may be asked for again.
abbrev pub store_alias : ℕ → LayoutStep → LayoutStep
store_alias e (c, no_layout) =
    (set_entry c e (record (entry_at c e) { state = unknown }), no_layout)
store_alias e (c, out_of_fuel) = (c, out_of_fuel)
store_alias e (c, laid_out size alignment) = store_layout e c size alignment

abbrev pub slot_types : List StructField → List AstType
slot_types fields = map (λ (field : StructField). field.slot) fields

-- `__Layout_Named_Entry__` on an entry that it has marked as visited.
unfoldable pub layout_body :
    (LayoutContext → AstType → LayoutStep) → LayoutContext → ℕ → DeclarationBody → LayoutStep
unfolding layout_slots layout_constructors tagged_size
layout_body node c e (alias_of target) = store_alias e (node c target)
layout_body node c e (struct_of fields) =
    layout_slots node c (slot_types fields) 0 1 >>= λ c' size alignment.
    store_layout e c' (align_up size alignment) alignment
layout_body node c e (enum_of constructors) =
    layout_constructors node c constructors 0 1 >>= λ c' payload_max payload_alignment.
    store_layout e c' (tagged_size payload_max payload_alignment) (larger payload_alignment 8)

-- The tests of `__Layout_Named_Entry__` on the state of the entry.
unfoldable pub layout_visit :
    (LayoutContext → AstType → LayoutStep)
    → LayoutContext
    → ℕ
    → DeclarationBody
    → LayoutEntry
    → LayoutState
    → LayoutStep
unfolding semantic_fail layout_body
layout_visit node c e body entry ready = (c, laid_out entry.size entry.alignment)
layout_visit node c e body entry visiting = semantic_fail c infinite_recursive_type
layout_visit node c e body entry unknown =
    layout_body node (set_entry c e (record entry { state = visiting })) e body

unfoldable pub layout_entry :
    (LayoutContext → AstType → LayoutStep) → LayoutContext → ℕ → Option TypeDeclaration → LayoutStep
unfolding semantic_fail layout_visit
layout_entry node c e none = semantic_fail c unresolved_type
layout_entry node c e (some declaration) =
    layout_visit node c e declaration.body (entry_at c e) (entry_at c e).state

-- `__Layout_Named_Entry__`
unfoldable pub layout_named_entry : ℕ → Names → LayoutContext → ℕ → LayoutStep
unfolding layout_entry layout_node
layout_named_entry zero names c e = (c, out_of_fuel)
layout_named_entry (suc fuel) names c e =
    layout_entry (layout_node (layout_named_entry fuel names) names) c e (names.declaration e)

-- `__Layout_Type__`
unfoldable pub layout_type : ℕ → Names → LayoutContext → AstType → LayoutStep
unfolding layout_named_entry layout_node
layout_type fuel names c t = layout_node (layout_named_entry fuel names) names c t
