-- ===== src/Kernel/Safety/Invariant.antt =====
-- What every fact satisfies, and that every operation of flow.c keeps it.
use sultanc.Prelude.{
  ℕ, ◌<◌, ◌≡◌, refl, arith, Bool, true, false, not, ◌||◌, Option, none, some, ◌==◌, size_max,
}
use sultanc.Core.Source.{SourceSpan}
use sultanc.Kernel.Safety.{
  ValueState, uninitialized, moved, BorrowKind, no_borrow, Fact, first_span, init,
  acquire_shared_at, acquire_mutable_at, set_mutable_borrow_holder, release_borrow,
  mark_initialized_at, mark_moved_at, merge_state, merge,
}

abbrev pub is_present : Option SourceSpan → Bool
is_present none = false
is_present (some span) = true

-- A span of an active borrow is kept exactly while there is a borrow, there is a holder only of a
-- mutable borrow, and a moved value has no borrow.
pub record IsSound (f : Fact) : Type 0 where
  pub span_iff_borrowed :
      is_present f.active_borrow_span ≡ (f.is_mutably_borrowed || not (f.immutable_borrows == 0))
  pub holder_of_borrow : f.is_mutably_borrowed ≡ false → f.mutable_borrow_holder ≡ size_max
  pub moved_unborrowed :
      f.state ≡ moved → (f.is_mutably_borrowed ≡ false) × (f.immutable_borrows ≡ 0)

pub init-IsSound : (b : Bool) → IsSound (init b)
unfolding init
init-IsSound true = record {
  span_iff_borrowed = refl;
  holder_of_borrow = λ h. refl;
  moved_unborrowed = λ h. (refl, refl);
}
init-IsSound false = record {
  span_iff_borrowed = refl;
  holder_of_borrow = λ h. refl;
  moved_unborrowed = λ h. (refl, refl);
}

pub acquire_shared_at-IsSound :
    (f : Fact) (span : SourceSpan)
    → IsSound f
    → f.immutable_borrows < size_max
    → IsSound (acquire_shared_at f span).0
unfolding acquire_shared_at
acquire_shared_at-IsSound f span s h =
    ground (arith, s.span_iff_borrowed, s.holder_of_borrow, s.moved_unborrowed)

pub acquire_mutable_at-IsSound :
    (f : Fact) (span : SourceSpan) (holder : ℕ)
    → IsSound f
    → IsSound (acquire_mutable_at f span holder).0
unfolding acquire_mutable_at
acquire_mutable_at-IsSound f span holder s =
    ground (arith, s.span_iff_borrowed, s.holder_of_borrow, s.moved_unborrowed)

pub set_mutable_borrow_holder-IsSound :
    (f : Fact) (holder : ℕ) → IsSound f → IsSound (set_mutable_borrow_holder f holder)
unfolding set_mutable_borrow_holder
set_mutable_borrow_holder-IsSound f holder s =
    ground (arith, s.span_iff_borrowed, s.holder_of_borrow, s.moved_unborrowed)

pub release_borrow-IsSound :
    (f : Fact) (kind : BorrowKind) → IsSound f → IsSound (release_borrow f kind)
unfolding release_borrow
release_borrow-IsSound f no_borrow s =
    ground (arith, s.span_iff_borrowed, s.holder_of_borrow, s.moved_unborrowed)
release_borrow-IsSound f _ s =
    ground (arith, s.span_iff_borrowed, s.holder_of_borrow, s.moved_unborrowed)

pub mark_initialized_at-IsSound :
    (f : Fact) (span : SourceSpan) → IsSound f → IsSound (mark_initialized_at f span)
unfolding mark_initialized_at
mark_initialized_at-IsSound f span s = ground (arith, s.span_iff_borrowed, s.holder_of_borrow)

pub mark_moved_at-IsSound : (f : Fact) (span : SourceSpan) → IsSound (mark_moved_at f span)
unfolding mark_moved_at
mark_moved_at-IsSound f span = ground arith

merge_state-moved : (a b : ValueState) → merge_state a b ≡ moved → (a ≡ moved) × (b ≡ moved)
unfolding merge_state
merge_state-moved uninitialized b h = ground arith
merge_state-moved _ b h = ground arith

first_span-is_present :
    (a b : Option SourceSpan) → is_present (first_span a b) ≡ (is_present a || is_present b)
first_span-is_present none b = refl
first_span-is_present (some span) b = refl

pub merge-IsSound : (l r : Fact) → IsSound l → IsSound r → IsSound (merge l r)
unfolding merge
merge-IsSound l r s t = record {
  span_iff_borrowed = ground (
    arith,
    first_span-is_present l.active_borrow_span r.active_borrow_span,
    s.span_iff_borrowed,
    t.span_iff_borrowed,
  );
  holder_of_borrow = λ h. ground (arith, s.holder_of_borrow, t.holder_of_borrow);
  moved_unborrowed = λ h.
      ground (arith, merge_state-moved l.state r.state h, s.moved_unborrowed, t.moved_unborrowed);
}
