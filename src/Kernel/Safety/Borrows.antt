-- ===== src/Kernel/Safety/Borrows.antt =====
-- Runs of the operations of bootstrap/src/kernel/safety/flow.c on one owner, as a step relation.
use sultanc.Prelude.{ℕ, ◌<◌, ◌≡◌, refl, arith, Bool, true, false, size_max}
use sultanc.Core.Source.{SourceSpan}
use sultanc.Kernel.Safety.{
  BorrowKind, no_borrow, shared_borrow, mutable_borrow, Fact, init, can_read, can_move,
  acquire_shared_at, acquire_mutable_at, set_mutable_borrow_holder, release_borrow,
  mark_initialized_at, mark_moved_at, merge,
}
use sultanc.Kernel.Safety.Invariant.{
  IsSound, init-IsSound, acquire_shared_at-IsSound, acquire_mutable_at-IsSound,
  set_mutable_borrow_holder-IsSound, release_borrow-IsSound, mark_initialized_at-IsSound,
  mark_moved_at-IsSound, merge-IsSound,
}

-- One call on the owner. The count of the shared borrows is a machine word that the source increments
-- without a test, so the call below its last value is the step.
pub data Step : Fact → Fact → Type 0 where
  acquire_shared :
      (f : Fact) (span : SourceSpan)
      → f.immutable_borrows < size_max
      → Step f (acquire_shared_at f span).0
  acquire_mutable :
      (f : Fact) (span : SourceSpan) (holder : ℕ) → Step f (acquire_mutable_at f span holder).0
  set_holder : (f : Fact) (holder : ℕ) → Step f (set_mutable_borrow_holder f holder)
  release : (f : Fact) (kind : BorrowKind) → Step f (release_borrow f kind)
  mark_initialized : (f : Fact) (span : SourceSpan) → Step f (mark_initialized_at f span)
  mark_moved : (f : Fact) (span : SourceSpan) → Step f (mark_moved_at f span)

-- The facts that these calls and the joins of branches reach; the index says whether branches were
-- joined on the way.
pub data Reach : Bool → Fact → Type 0 where
  start : (is_initialized : Bool) → Reach false (init is_initialized)
  advance : {joined : Bool} {f g : Fact} → Reach joined f → Step f g → Reach joined g
  join :
      {joined joined' : Bool} {f g : Fact}
      → Reach joined f
      → Reach joined' g
      → Reach true (merge f g)

-- Borrows exclude each other: with a mutable borrow there is no shared one.
abbrev pub IsExclusive : Fact → Type 0
IsExclusive f = f.is_mutably_borrowed ≡ true → f.immutable_borrows ≡ 0

Step-IsSound : (f g : Fact) → Step f g → IsSound f → IsSound g
Step-IsSound _ _ (acquire_shared f span small) s = acquire_shared_at-IsSound f span s small
Step-IsSound _ _ (acquire_mutable f span holder) s = acquire_mutable_at-IsSound f span holder s
Step-IsSound _ _ (set_holder f holder) s = set_mutable_borrow_holder-IsSound f holder s
Step-IsSound _ _ (release f kind) s = release_borrow-IsSound f kind s
Step-IsSound _ _ (mark_initialized f span) s = mark_initialized_at-IsSound f span s
Step-IsSound _ _ (mark_moved f span) s = mark_moved_at-IsSound f span

acquire_shared_at-IsExclusive :
    (f : Fact) (span : SourceSpan) → IsExclusive f → IsExclusive (acquire_shared_at f span).0
unfolding acquire_shared_at
acquire_shared_at-IsExclusive f span e h = ground (arith, e)

acquire_mutable_at-IsExclusive :
    (f : Fact) (span : SourceSpan) (holder : ℕ)
    → IsExclusive f
    → IsExclusive (acquire_mutable_at f span holder).0
unfolding acquire_mutable_at
acquire_mutable_at-IsExclusive f span holder e h = ground (arith, e)

set_mutable_borrow_holder-IsExclusive :
    (f : Fact) (holder : ℕ) → IsExclusive f → IsExclusive (set_mutable_borrow_holder f holder)
unfolding set_mutable_borrow_holder
set_mutable_borrow_holder-IsExclusive f holder e h = ground (arith, e)

release_borrow-IsExclusive :
    (f : Fact) (kind : BorrowKind) → IsExclusive f → IsExclusive (release_borrow f kind)
unfolding release_borrow
release_borrow-IsExclusive f no_borrow e h = ground (arith, e)
release_borrow-IsExclusive f _ e h = ground (arith, e)

mark_initialized_at-IsExclusive :
    (f : Fact) (span : SourceSpan) → IsExclusive f → IsExclusive (mark_initialized_at f span)
unfolding mark_initialized_at
mark_initialized_at-IsExclusive f span e h = e h

mark_moved_at-IsExclusive : (f : Fact) (span : SourceSpan) → IsExclusive (mark_moved_at f span)
unfolding mark_moved_at
mark_moved_at-IsExclusive f span h = refl

Step-IsExclusive : (f g : Fact) → Step f g → IsExclusive f → IsExclusive g
Step-IsExclusive _ _ (acquire_shared f span small) e = acquire_shared_at-IsExclusive f span e
Step-IsExclusive _ _ (acquire_mutable f span holder) e =
    acquire_mutable_at-IsExclusive f span holder e
Step-IsExclusive _ _ (set_holder f holder) e = set_mutable_borrow_holder-IsExclusive f holder e
Step-IsExclusive _ _ (release f kind) e = release_borrow-IsExclusive f kind e
Step-IsExclusive _ _ (mark_initialized f span) e = mark_initialized_at-IsExclusive f span e
Step-IsExclusive _ _ (mark_moved f span) e = mark_moved_at-IsExclusive f span

init-IsExclusive : (b : Bool) → IsExclusive (init b)
unfolding init
init-IsExclusive b h = refl

-- In every fact that calls on one owner and joins of branches reach, an active span is kept exactly
-- while there is a borrow, a holder is set only with a mutable borrow, and a moved value has no borrow;
-- and where no branches were joined, a mutable borrow excludes the shared borrows. Each shared borrow is
-- acquired while the count is below the last machine word.
pub Reach-IsSound :
    (joined : Bool) (f : Fact) → Reach joined f → IsSound f × (joined ≡ false → IsExclusive f)
Reach-IsSound _ _ (start b) = (init-IsSound b, λ e. init-IsExclusive b)
Reach-IsSound joined _ (advance {joined = _} {f} {g} r step) =
    let (sound, exclusive) = Reach-IsSound joined f r in
    (Step-IsSound f g step sound, λ e. Step-IsExclusive f g step (exclusive e))
Reach-IsSound _ _ (join {joined} {joined'} {f} {g} r r') =
    (merge-IsSound f g (Reach-IsSound joined f r).0 (Reach-IsSound joined' g r').0, λ e. cc)

release-acquire_shared_at :
    (f : Fact) (span : SourceSpan)
    → IsSound f
    → f.immutable_borrows < size_max
    → can_read f ≡ true
    → release_borrow (acquire_shared_at f span).0 shared_borrow ≡ f
unfolding acquire_shared_at release_borrow can_read
release-acquire_shared_at f span s small h = ground (arith, s.span_iff_borrowed)

release-acquire_mutable_at :
    (f : Fact) (span : SourceSpan) (holder : ℕ)
    → IsSound f
    → can_move f ≡ true
    → release_borrow (acquire_mutable_at f span holder).0 mutable_borrow ≡ f
unfolding acquire_mutable_at release_borrow can_move
release-acquire_mutable_at f span holder s h =
    ground (arith, s.span_iff_borrowed, s.holder_of_borrow)

can_move→can_read : (f : Fact) → can_move f ≡ true → can_read f ≡ true
unfolding can_move can_read
can_move→can_read f h = ground arith

-- Releasing a borrow of a sound fact undoes its acquisition: on a value that can be moved, a shared
-- borrow and then its release, and a mutable borrow and then its release, both give the fact back.
pub release-acquire :
    (f : Fact) (span : SourceSpan) (holder : ℕ)
    → IsSound f
    → f.immutable_borrows < size_max
    → can_move f ≡ true
    → (release_borrow (acquire_shared_at f span).0 shared_borrow ≡ f)
      × (release_borrow (acquire_mutable_at f span holder).0 mutable_borrow ≡ f)
release-acquire f span holder s small h = (
  release-acquire_shared_at f span s small (can_move→can_read f h),
  release-acquire_mutable_at f span holder s h,
)
