-- ===== src/Kernel/Layout/Shapes.antt =====
-- Every layout has an alignment of 1, 2, 4 or 8 and a size that is a multiple of it.
use sultanc.Prelude.{
  ℕ, zero, suc, ◌+◌, ◌≡◌, refl, Option, none, some, List, [], ◌∷◌, get_or, set, wrap64,
}
use sultanc.Support.Alignment.{align_up}
use sultanc.Frontend.Ast.{
  AstType, missing, machine, option, result, named, mutable_of, void, EnumConstructor,
  DeclarationBody, struct_of, enum_of, alias_of, TypeDeclaration,
}
use sultanc.Kernel.Names.{Names}
use sultanc.Kernel.Layout.{
  LayoutState, unknown, visiting, ready, LayoutEntry, fresh_entry, LayoutContext, LayoutAnswer,
  no_layout, out_of_fuel, laid_out, LayoutStep, semantic_fail, entry_at, set_entry, ◌>>=◌, larger,
  LayoutError, tagged_size, finish_tagged, layout_name, layout_node, layout_slots,
  layout_constructors, store_layout, store_alias, slot_types, layout_body, layout_visit,
  layout_entry, layout_named_entry, layout_type,
}
use sultanc.Kernel.Layout.Sizes.{
  IsAlignment, IsLaid, align_up_multiple, larger-IsAlignment, one, eight, tagged_size-IsLaid,
  machine_size-IsLaid,
}

-- Every layout that an entry keeps is one.
abbrev pub IsShaped : LayoutContext → Type 0
IsShaped c =
    (e : ℕ) → (entry_at c e).state ≡ ready → IsLaid (entry_at c e).size (entry_at c e).alignment

-- `Q` holds of the answer, where there is one, and the entries keep layouts.
abbrev Answered : (ℕ → ℕ → Type 0) → LayoutAnswer → Type 0
Answered Q no_layout = Unit {0}
Answered Q out_of_fuel = Unit {0}
Answered Q (laid_out size alignment) = Q size alignment

abbrev pub Shaped : (ℕ → ℕ → Type 0) → LayoutStep → Type 0
Shaped Q step = IsShaped step.0 × Answered Q step.1

bind-Shaped :
    (P Q : ℕ → ℕ → Type 0) (m : LayoutStep) (k : LayoutContext → ℕ → ℕ → LayoutStep)
    → Shaped P m
    → ((c : LayoutContext) (s a : ℕ) → IsShaped c → P s a → Shaped Q (k c s a))
    → Shaped Q (m >>= k)
bind-Shaped P Q (c, no_layout) k h next = h
bind-Shaped P Q (c, out_of_fuel) k h next = h
bind-Shaped P Q (c, laid_out s a) k h next = next c s a h.0 h.1

-- What an entry holds after a write: the new entry at its place, the old ones elsewhere.
pub get_or-set :
    (P : LayoutEntry → Type 0) (l : List LayoutEntry) (e i : ℕ) (v : LayoutEntry)
    → P v
    → P (get_or l i fresh_entry)
    → P (get_or (set l e v) i fresh_entry)
get_or-set P [] e i v h k = k
get_or-set P (x ∷ l) zero zero v h k = h
get_or-set P (x ∷ l) zero (suc i) v h k = k
get_or-set P (x ∷ l) (suc e) zero v h k = k
get_or-set P (x ∷ l) (suc e) (suc i) v h k = get_or-set P l e i v h k

abbrev Keeps : LayoutEntry → Type 0
Keeps v = v.state ≡ ready → IsLaid v.size v.alignment

set_entry-IsShaped :
    (c : LayoutContext) (e : ℕ) (v : LayoutEntry)
    → Keeps v
    → IsShaped c
    → IsShaped (set_entry c e v)
set_entry-IsShaped c e v h sound = λ i. get_or-set Keeps c.entries e i v h (sound i)

fail-Shaped :
    (Q : ℕ → ℕ → Type 0) (c : LayoutContext) (x : LayoutError)
    → IsShaped c
    → Shaped Q (semantic_fail c x)
unfolding semantic_fail
fail-Shaped Q c x sound = (sound, tt)

module _ (enter : LayoutContext → ℕ → LayoutStep) (names : Names)
    (entered : (c : LayoutContext) (e : ℕ) → IsShaped c → Shaped IsLaid (enter c e)) where
  layout_name-Shaped :
      (c : LayoutContext) (found : Option ℕ)
      → IsShaped c
      → Shaped IsLaid (layout_name enter c found)
  unfolding layout_name
  layout_name-Shaped c none sound = (sound, tt)
  layout_name-Shaped c (some e) sound = entered c e sound

  layout_node-Shaped :
      (c : LayoutContext) (t : AstType) → IsShaped c → Shaped IsLaid (layout_node enter names c t)
  unfolding layout_node
  layout_node-Shaped c missing sound = (sound, tt)
  layout_node-Shaped c (option t) sound =
      bind-Shaped IsLaid IsLaid (layout_node enter names c t)
        (λ c' s a. finish_tagged c' (larger s 0) (larger a 1)) (layout_node-Shaped c t sound)
        (λ c' s a sound' h.
          (sound', tagged_size-IsLaid (larger s 0) (larger a 1) (larger-IsAlignment a 1 h.0 one)))
  layout_node-Shaped c (result ok error) sound =
      bind-Shaped IsLaid IsLaid (layout_node enter names c ok)
        (λ c' s a. layout_node enter names c' error >>= λ c'' s' a'.
          finish_tagged c'' (larger s' (larger s 0)) (larger a' (larger a 1)))
        (layout_node-Shaped c ok sound)
        (λ c' s a sound' h.
          bind-Shaped IsLaid IsLaid (layout_node enter names c' error)
            (λ c'' s' a'. finish_tagged c'' (larger s' (larger s 0)) (larger a' (larger a 1)))
            (layout_node-Shaped c' error sound')
            (λ c'' s' a' sound'' h'. (
              sound'',
              tagged_size-IsLaid (larger s' (larger s 0)) (larger a' (larger a 1))
                  (larger-IsAlignment a' (larger a 1) h'.0 (larger-IsAlignment a 1 h.0 one)),
            )))
  layout_node-Shaped c (machine m) sound = (sound, machine_size-IsLaid m)
  layout_node-Shaped c void sound = (sound, (one, refl))
  layout_node-Shaped c (named address name arguments) sound =
      layout_name-Shaped c (names.resolve_named_entry (named address name arguments)) sound
  layout_node-Shaped c (mutable_of t) sound = layout_node-Shaped c t sound
  layout_node-Shaped c _ sound = (sound, (eight, refl))

-- Between slots only the alignment is fixed.
abbrev Aligned : ℕ → ℕ → Type 0
Aligned size alignment = IsAlignment alignment

module _ (node : LayoutContext → AstType → LayoutStep)
    (noded : (c : LayoutContext) (t : AstType) → IsShaped c → Shaped IsLaid (node c t)) where
  layout_slots-Shaped :
      (c : LayoutContext) (ts : List AstType) (size alignment : ℕ)
      → IsShaped c
      → IsAlignment alignment
      → Shaped Aligned (layout_slots node c ts size alignment)
  unfolding layout_slots
  layout_slots-Shaped c [] size alignment sound h = (sound, h)
  layout_slots-Shaped c (t ∷ ts) size alignment sound h =
      bind-Shaped IsLaid Aligned (node c t)
        (λ c' s a. layout_slots node c' ts (wrap64 (align_up size a + s)) (larger a alignment))
        (noded c t sound)
        (λ c' s a sound' k.
          layout_slots-Shaped c' ts (wrap64 (align_up size a + s)) (larger a alignment) sound'
            (larger-IsAlignment a alignment k.0 h))

  layout_constructors-Shaped :
      (c : LayoutContext) (ks : List EnumConstructor) (payload_max alignment : ℕ)
      → IsShaped c
      → IsAlignment alignment
      → Shaped Aligned (layout_constructors node c ks payload_max alignment)
  unfolding layout_constructors
  layout_constructors-Shaped c [] payload_max alignment sound h = (sound, h)
  layout_constructors-Shaped c (x ∷ ks) payload_max alignment sound h =
      bind-Shaped Aligned Aligned (layout_slots node c x.payload_slots 0 1)
        (λ c' s a.
          layout_constructors node c' ks (larger (align_up s a) payload_max) (larger a alignment))
        (layout_slots-Shaped c x.payload_slots 0 1 sound one)
        (λ c' s a sound' k.
          layout_constructors-Shaped c' ks (larger (align_up s a) payload_max) (larger a alignment)
            sound' (larger-IsAlignment a alignment k h))

  store_layout-Shaped :
      (e : ℕ) (c : LayoutContext) (s a : ℕ)
      → IsShaped c
      → IsLaid s a
      → Shaped IsLaid (store_layout e c s a)
  store_layout-Shaped e c s a sound h =
      (set_entry-IsShaped c e (record { state = ready; size = s; alignment = a }) (λ r. h) sound, h)

  store_alias-Shaped : (e : ℕ) (m : LayoutStep) → Shaped IsLaid m → Shaped IsLaid (store_alias e m)
  store_alias-Shaped e (c, no_layout) h =
      (set_entry-IsShaped c e (record (entry_at c e) { state = unknown }) (λ r. cc) h.0, tt)
  store_alias-Shaped e (c, out_of_fuel) h = h
  store_alias-Shaped e (c, laid_out s a) h = store_layout-Shaped e c s a h.0 h.1

  layout_body-Shaped :
      (c : LayoutContext) (e : ℕ) (body : DeclarationBody)
      → IsShaped c
      → Shaped IsLaid (layout_body node c e body)
  unfolding layout_body
  layout_body-Shaped c e (alias_of target) sound =
      store_alias-Shaped e (node c target) (noded c target sound)
  layout_body-Shaped c e (struct_of fields) sound =
      bind-Shaped Aligned IsLaid (layout_slots node c (slot_types fields) 0 1)
        (λ c' s a. store_layout e c' (align_up s a) a)
        (layout_slots-Shaped c (slot_types fields) 0 1 sound one)
        (λ c' s a sound' h.
          store_layout-Shaped e c' (align_up s a) a sound' (h, align_up_multiple s a h))
  layout_body-Shaped c e (enum_of constructors) sound =
      bind-Shaped Aligned IsLaid (layout_constructors node c constructors 0 1)
        (λ c' s a. store_layout e c' (tagged_size s a) (larger a 8))
        (layout_constructors-Shaped c constructors 0 1 sound one)
        (λ c' s a sound' h.
          store_layout-Shaped e c' (tagged_size s a) (larger a 8) sound' (tagged_size-IsLaid s a h))

  layout_visit-Shaped :
      (c : LayoutContext) (e : ℕ) (body : DeclarationBody) (state : LayoutState)
      → (entry_at c e).state ≡ state
      → IsShaped c
      → Shaped IsLaid (layout_visit node c e body (entry_at c e) state)
  unfolding layout_visit
  layout_visit-Shaped c e body ready is sound = (sound, sound e is)
  layout_visit-Shaped c e body visiting is sound = (sound, tt)
  layout_visit-Shaped c e body unknown is sound =
      let marked : LayoutEntry = record (entry_at c e) { state = visiting } in
      layout_body-Shaped (set_entry c e marked) e body
        (set_entry-IsShaped c e marked (λ r. cc) sound)

  layout_entry-Shaped :
      (c : LayoutContext) (e : ℕ) (known : Option TypeDeclaration)
      → IsShaped c
      → Shaped IsLaid (layout_entry node c e known)
  unfolding layout_entry
  layout_entry-Shaped c e none sound = (sound, tt)
  layout_entry-Shaped c e (some d) sound =
      layout_visit-Shaped c e d.body (entry_at c e).state refl sound

layout_named_entry-Shaped :
    (fuel : ℕ) (names : Names) (c : LayoutContext) (e : ℕ)
    → IsShaped c
    → Shaped IsLaid (layout_named_entry fuel names c e)
unfolding layout_named_entry
layout_named_entry-Shaped zero names c e sound = (sound, tt)
layout_named_entry-Shaped (suc fuel) names c e sound =
    layout_entry-Shaped (layout_node (layout_named_entry fuel names) names)
      (layout_node-Shaped (layout_named_entry fuel names) names
        (layout_named_entry-Shaped fuel names))
      c e (names.declaration e) sound

-- A layout that `layout_type` answers has the alignment 1, 2, 4 or 8 and a size that is a multiple of
-- it, also where sizes wrap; and where the entries keep such layouts they do so afterwards, whatever
-- the answer.
pub layout_type-IsLaid :
    (fuel : ℕ) (names : Names) (c : LayoutContext) (t : AstType)
    → IsShaped c
    → Shaped IsLaid (layout_type fuel names c t)
unfolding layout_type
layout_type-IsLaid fuel names c t sound =
    layout_node-Shaped (layout_named_entry fuel names) names (layout_named_entry-Shaped fuel names)
      c t sound
