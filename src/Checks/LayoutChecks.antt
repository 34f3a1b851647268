-- ===== src/Checks/LayoutChecks.antt =====
-- The theorems on bootstrap/src/kernel/layout at concrete inputs.
use sultanc.Prelude.{
  ℕ, zero, suc, ◌+◌, ◌%◌, ◌≤◌, ◌<◌, ◌≡◌, ◌≢◌, ◌↔◌, refl, ap, get_or, arith, Option, none, some,
  List, [], ◌∷◌,
}
use sultanc.Support.Alignment.{align_up}
use sultanc.Frontend.Ast.{
  machine_i8, machine_i64, AstType, no_types, machine, option, named, StructField, EnumConstructor,
  struct_of, enum_of, TypeDeclaration,
}
use sultanc.Kernel.Names.{Names}
use sultanc.Kernel.Layout.{
  visiting, ready, fresh_entry, LayoutContext, out_of_fuel, laid_out, entry_at, larger, tagged_size,
  layout_type, layout_named_entry,
}
use sultanc.Kernel.Layout.Shapes.{IsShaped, Shaped, layout_type-IsLaid}
use sultanc.Kernel.Layout.Sizes.{IsLaid}
use sultanc.Kernel.Layout.Termination.{layout_type_ends}
use sultanc.Kernel.Layout.Known.{known, known_slots, known_constructors, known_body}
use sultanc.Kernel.Layout.Refinement.{IsConsistent}
use sultanc.Kernel.Layout.Plain.{plain_type, plain_slots, plain_body, plain_entry, plain}
use sultanc.Kernel.Layout.Grounded.{Grounded}
use sultanc.Kernel.Layout.Completeness.{layout_type_iff}
use sultanc.Kernel.Projection.{
  Place, projected, storage_of, layout_struct_field, layout_tagged_entry_storage,
}
use sultanc.Kernel.Projection.Storage.{layout_tagged_entry_storage-agrees}
use sultanc.Kernel.Projection.Fields.{layout_struct_field-Apart}
use sultanc.Kernel.Projection.Rooms.{room, Apart}

abbrev fields : List StructField
fields =
    record { name = b'a' ∷ []; slot = machine machine_i8 }
    ∷ record { name = b'b' ∷ []; slot = machine machine_i64 }
    ∷ []

abbrev constructors : List EnumConstructor
constructors =
    record { name = b'n' ∷ []; payload_slots = [] }
    ∷ record { name = b's' ∷ []; payload_slots = machine machine_i64 ∷ machine machine_i8 ∷ [] }
    ∷ []

-- A struct at the address 0 and an enum at the address 1.
abbrev pair : TypeDeclaration
pair = record { name = b'P' ∷ []; type_parameters = []; body = struct_of fields }

abbrev choice : TypeDeclaration
choice = record { name = b'C' ∷ []; type_parameters = []; body = enum_of constructors }

abbrev entry_of : AstType → Option ℕ
entry_of (named address name arguments) = some address
entry_of _ = none

abbrev declared : ℕ → Option TypeDeclaration
declared zero = some pair
declared (suc zero) = some choice
declared _ = none

abbrev sample : Names
sample = record { resolve_named_entry = entry_of; declaration = declared }

abbrev pair_type : AstType
pair_type = named 0 (b'P' ∷ []) no_types

abbrev blank : LayoutContext
blank = record { entries = fresh_entry ∷ fresh_entry ∷ []; error = none }

-- Both entries with their layouts.
abbrev laid : LayoutContext
laid = record {
  entries =
      record { state = ready; size = 16; alignment = 8 }
      ∷ record { state = ready; size = 24; alignment = 8 }
      ∷ [];
  error = none;
}

blank-IsShaped : IsShaped blank
blank-IsShaped zero r = cc
blank-IsShaped (suc zero) r = cc
blank-IsShaped (suc (suc e)) r = cc

inside : (e : ℕ) (d : TypeDeclaration) → sample.declaration e ≡ some d → e < 2
inside zero d h = omega arith
inside (suc zero) d h = omega arith
inside (suc (suc e)) d h = cc

layout_type-IsLaid_example : Shaped IsLaid (layout_type 3 sample blank (option pair_type))
layout_type-IsLaid_example = layout_type-IsLaid 3 sample blank (option pair_type) blank-IsShaped

layout_type_ends_example : (layout_type 3 sample blank (option pair_type)).1 ≢ out_of_fuel
layout_type_ends_example = layout_type_ends 3 sample blank (option pair_type) inside (omega arith)

blank-Grounded : Grounded sample blank
blank-Grounded e r = absurd (not_ready e r)
  where
    not_ready : (e : ℕ) → (entry_at blank e).state ≡ ready → ⊥
    not_ready zero r = cc
    not_ready (suc zero) r = cc
    not_ready (suc (suc e)) r = cc

nothing_visited : (e : ℕ) → (entry_at blank e).state ≢ visiting
nothing_visited zero r = cc
nothing_visited (suc zero) r = cc
nothing_visited (suc (suc e)) r = cc

layout_type_iff_example :
    (((layout_type 3 sample blank (option pair_type)).1 ≡ laid_out 24 8)
      ↔ ((depth : ℕ) × (plain depth sample (option pair_type) ≡ some (24, 8))))
    × Grounded sample (layout_type 3 sample blank (option pair_type)).0
layout_type_iff_example =
    layout_type_iff 3 sample blank (option pair_type) 24 8 inside (omega arith) blank-Grounded
      nothing_visited

-- The declarations give the option of a pair that layout.
option_plain : plain 1 sample (option pair_type) ≡ some (24, 8)
unfolding plain_type plain_entry plain_body plain_slots align_up tagged_size
option_plain = refl

laid-IsConsistent : IsConsistent sample 2 laid
unfolding known_body known_slots known known_constructors align_up tagged_size
laid-IsConsistent = (refl, λ e r. kept e r)
  where
    kept :
        (e : ℕ)
        → (entry_at laid e).state ≡ ready
        → (d : TypeDeclaration) × (sample.declaration e ≡ some d)
          × (known_body sample laid d.body
              ≡ some ((entry_at laid e).size, (entry_at laid e).alignment))
    kept zero r = (pair, refl, refl)
    kept (suc zero) r = (choice, refl, refl)
    kept (suc (suc e)) r = absurd (cc)

laid-IsShaped : IsShaped laid
laid-IsShaped zero r = ((3, omega arith, refl), refl)
laid-IsShaped (suc zero) r = ((3, omega arith, refl), refl)
laid-IsShaped (suc (suc e)) r = cc

layout_tagged_entry_storage-agrees_example :
    (m : ℕ) × (a : ℕ) × (layout_tagged_entry_storage 1 sample laid 1
      ≡ (laid, projected (storage_of m a)))
    × (layout_named_entry 1 sample laid 1 ≡ (laid, laid_out (tagged_size m a) (larger a 8)))
layout_tagged_entry_storage-agrees_example =
    layout_tagged_entry_storage-agrees sample 2 laid laid-IsConsistent 1 choice constructors refl
      refl refl 0

abbrev first_place : Place
first_place = record { offset = 0; place_type = machine machine_i8 }

abbrev second_place : Place
second_place = record { offset = 8; place_type = machine machine_i64 }

layout_struct_field-Apart_example :
    Apart sample laid first_place second_place
    × ((s : ℕ) × (a : ℕ) × (known sample laid (machine machine_i8) ≡ some (s, a))
        × (first_place.offset % a ≡ 0)
        × (first_place.offset + s ≤ 16))
unfolding layout_struct_field room known align_up layout_type
layout_struct_field-Apart_example =
    layout_struct_field-Apart sample 2 laid laid-IsConsistent laid-IsShaped 0 0 pair fields
      (b'a' ∷ []) (b'b' ∷ []) first_place second_place refl refl refl (omega arith)
      (λ e. omega (arith, ap (λ (l : List ℕ). get_or l 0 0) e)) refl refl
