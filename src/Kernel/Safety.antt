-- ===== src/Kernel/Safety.antt =====
-- Move, borrow and initialization facts of a value: bootstrap/src/kernel/safety/flow.c up to
-- `__Safety_Fact_Merge__`. Pointers are not null. A span with its `Has_…_Span` flag is an option:
-- `none` where the flag is 0, since the source reads a span only behind its flag.
pub mod Invariant
pub mod Borrows
pub mod Merge
use sultanc.Prelude.{
  ℕ, ◌+◌, ◌-◌, ◌%◌, ◌^◌, Bool, true, false, not, ◌&&◌, ◌||◌, Option, none, some, ltb, ◌==◌,
  if◌then◌else◌, size_max, wrap64,
}
use sultanc.Core.Source.{SourceSpan}

-- `__Safety_Value_State__`
pub data ValueState : Type 0 where
  uninitialized initialized moved maybe_uninitialized maybe_moved : ValueState

-- `__Safety_Borrow_Kind__`
pub data BorrowKind : Type 0 where
  no_borrow shared_borrow mutable_borrow : BorrowKind

-- `__Safety_Value_Fact__`
pub record Fact : Type 0 where
  pub state : ValueState
  pub immutable_borrows : ℕ
  pub is_mutably_borrowed : Bool
  pub borrowed_from : ℕ
  pub borrow_kind : BorrowKind
  pub lifetime_region : ℕ
  pub origin_parameter : ℕ
  pub origin_span : Option SourceSpan
  pub move_span : Option SourceSpan
  pub active_borrow_span : Option SourceSpan
  pub mutable_borrow_holder : ℕ

-- `==` on the two enumerations.
abbrev pub state_eq : ValueState → ValueState → Bool
state_eq uninitialized uninitialized = true
state_eq initialized initialized = true
state_eq moved moved = true
state_eq maybe_uninitialized maybe_uninitialized = true
state_eq maybe_moved maybe_moved = true
state_eq _ _ = false

abbrev pub kind_eq : BorrowKind → BorrowKind → Bool
kind_eq no_borrow no_borrow = true
kind_eq shared_borrow shared_borrow = true
kind_eq mutable_borrow mutable_borrow = true
kind_eq _ _ = false

abbrev pub first_span : Option SourceSpan → Option SourceSpan → Option SourceSpan
first_span (some span) other = some span
first_span none other = other

-- `__Safety_Fact_Init__`
unfoldable pub init : Bool → Fact
init is_initialized = record {
  state = if is_initialized then initialized else uninitialized;
  immutable_borrows = 0;
  is_mutably_borrowed = false;
  borrowed_from = size_max;
  borrow_kind = no_borrow;
  lifetime_region = size_max;
  origin_parameter = size_max;
  origin_span = none;
  move_span = none;
  active_borrow_span = none;
  mutable_borrow_holder = size_max;
}

-- `__Safety_Fact_Can_Read__`
unfoldable pub can_read : Fact → Bool
can_read fact = state_eq fact.state initialized && not fact.is_mutably_borrowed

-- `__Safety_Fact_Can_Write__`
unfoldable pub can_write : Fact → Bool
can_write fact = not fact.is_mutably_borrowed && fact.immutable_borrows == 0

-- `__Safety_Fact_Can_Move__`
unfoldable pub can_move : Fact → Bool
can_move fact =
    state_eq fact.state initialized && not fact.is_mutably_borrowed && fact.immutable_borrows == 0

-- `__Safety_Fact_Acquire_Shared_At__`
unfoldable pub acquire_shared_at : Fact → SourceSpan → Fact × Bool
acquire_shared_at owner span =
    if not (state_eq owner.state initialized) || owner.is_mutably_borrowed
    then (owner, false)
    else (
      record owner {
        immutable_borrows = wrap64 (owner.immutable_borrows + 1);
        active_borrow_span = first_span owner.active_borrow_span (some span);
      },
      true,
    )

-- `__Safety_Fact_Acquire_Mutable_At__`
unfoldable pub acquire_mutable_at : Fact → SourceSpan → ℕ → Fact × Bool
acquire_mutable_at owner span holder_index =
    if not (state_eq owner.state initialized)
      || owner.is_mutably_borrowed
      || not (owner.immutable_borrows == 0)
    then (owner, false)
    else (
      record owner {
        is_mutably_borrowed = true;
        active_borrow_span = some span;
        mutable_borrow_holder = holder_index;
      },
      true,
    )

-- `__Safety_Fact_Set_Mutable_Borrow_Holder__`
unfoldable pub set_mutable_borrow_holder : Fact → ℕ → Fact
set_mutable_borrow_holder owner holder_index =
    if owner.is_mutably_borrowed
    then record owner { mutable_borrow_holder = holder_index }
    else owner

-- The first part of `__Safety_Fact_Release_Borrow__`.
abbrev pub drop_borrow : Fact → BorrowKind → Fact
drop_borrow owner shared_borrow =
    if not (owner.immutable_borrows == 0)
    then record owner { immutable_borrows = owner.immutable_borrows - 1 }
    else owner
drop_borrow owner mutable_borrow = record owner {
  is_mutably_borrowed = false;
  mutable_borrow_holder = size_max;
}
drop_borrow owner no_borrow = owner

-- The last part: without a borrow there is no active span.
abbrev pub clear_span : Fact → Fact
clear_span owner =
    if owner.immutable_borrows == 0 && not owner.is_mutably_borrowed
    then record owner { active_borrow_span = none }
    else owner

-- `__Safety_Fact_Release_Borrow__`
unfoldable pub release_borrow : Fact → BorrowKind → Fact
release_borrow owner kind = clear_span (drop_borrow owner kind)

-- `__Safety_Fact_Mark_Initialized_At__`
unfoldable pub mark_initialized_at : Fact → SourceSpan → Fact
mark_initialized_at fact span = record fact {
  state = initialized;
  origin_span = first_span fact.origin_span (some span);
}

-- `__Safety_Fact_Mark_Moved_At__`
unfoldable pub mark_moved_at : Fact → SourceSpan → Fact
mark_moved_at fact span = record fact {
  state = moved;
  immutable_borrows = 0;
  is_mutably_borrowed = false;
  move_span = some span;
  active_borrow_span = none;
  mutable_borrow_holder = size_max;
}

-- The state of `__Safety_Fact_Merge__`.
unfoldable pub merge_state : ValueState → ValueState → ValueState
merge_state left right =
    if state_eq left right
    then left
    else if state_eq left moved
        || state_eq right moved
        || state_eq left maybe_moved
        || state_eq right maybe_moved
    then maybe_moved
    else maybe_uninitialized

-- `a > b ? a : b`
abbrev pub greater : ℕ → ℕ → ℕ
greater a b = if ltb b a then a else b

-- The borrow that both sides share.
abbrev pub shares_borrow : Fact → Fact → Bool
shares_borrow left right =
    left.borrowed_from == right.borrowed_from && kind_eq left.borrow_kind right.borrow_kind

-- `__Safety_Fact_Merge__`
unfoldable pub merge : Fact → Fact → Fact
unfolding merge_state
merge left right = record {
  state = merge_state left.state right.state;
  immutable_borrows = greater left.immutable_borrows right.immutable_borrows;
  is_mutably_borrowed = left.is_mutably_borrowed || right.is_mutably_borrowed;
  borrowed_from = if shares_borrow left right then left.borrowed_from else size_max;
  borrow_kind = if shares_borrow left right then left.borrow_kind else no_borrow;
  lifetime_region =
      if shares_borrow left right
      then greater left.lifetime_region right.lifetime_region
      else size_max;
  origin_parameter =
      if shares_borrow left right && left.origin_parameter == right.origin_parameter
      then left.origin_parameter
      else size_max;
  origin_span = first_span left.origin_span right.origin_span;
  move_span = first_span left.move_span right.move_span;
  active_borrow_span = first_span left.active_borrow_span right.active_borrow_span;
  mutable_borrow_holder =
      if left.mutable_borrow_holder == right.mutable_borrow_holder
      then left.mutable_borrow_holder
      else size_max;
}
