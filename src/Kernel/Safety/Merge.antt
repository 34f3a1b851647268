-- ===== src/Kernel/Safety/Merge.antt =====
-- Joining the facts of two branches is a semilattice on states, and permits after the join exactly
-- what both branches permit.
use sultanc.Prelude.{
  ◌↔◌, ℕ, ◌≡◌, refl, arith, Bool, true, false, ◌&&◌, ◌||◌, ◌==◌, Option, none, some,
}
use sultanc.Core.Source.{SourceSpan}
use sultanc.Kernel.Safety.{
  ValueState, uninitialized, initialized, moved, maybe_uninitialized, maybe_moved, BorrowKind,
  no_borrow, shared_borrow, mutable_borrow, Fact, state_eq, kind_eq, first_span, can_read,
  can_write, can_move, merge_state, greater, merge,
}

-- The order that the join belongs to: what may be known of a value on some path.
pub merge_state_comm : (a b : ValueState) → merge_state a b ≡ merge_state b a
unfolding merge_state
merge_state_comm uninitialized b = ground arith
merge_state_comm _ b = ground arith

pub merge_state_assoc :
    (a b c : ValueState) → merge_state (merge_state a b) c ≡ merge_state a (merge_state b c)
unfolding merge_state
merge_state_assoc uninitialized b c = ground arith
merge_state_assoc _ b c = ground arith

merge_state-initialized :
    (a b : ValueState)
    → state_eq (merge_state a b) initialized ≡ (state_eq a initialized && state_eq b initialized)
unfolding merge_state
merge_state-initialized uninitialized b = ground arith
merge_state-initialized _ b = ground arith

greater-zero : (a b : ℕ) → (greater a b == 0) ≡ (a == 0 && b == 0)
greater-zero a b = ground arith

-- After the join of two branches a value may be read, written or moved exactly when it may on both.
pub merge_permissions :
    (l r : Fact)
    → (can_read (merge l r) ≡ (can_read l && can_read r))
      × (can_write (merge l r) ≡ (can_write l && can_write r))
      × (can_move (merge l r) ≡ (can_move l && can_move r))
unfolding merge can_read can_write can_move
merge_permissions l r =
    let s = merge_state-initialized l.state r.state in
    let g = greater-zero l.immutable_borrows r.immutable_borrows in
    (ground (arith, s), ground (arith, g), ground (arith, s, g))

-- What a value may really be when control reaches a point.
pub data Content : Type 0 where
  nothing_yet held gone : Content

-- The contents that a state stands for.
abbrev pub stands_for : ValueState → Content → Bool
stands_for uninitialized nothing_yet = true
stands_for initialized held = true
stands_for moved gone = true
stands_for maybe_uninitialized nothing_yet = true
stands_for maybe_uninitialized held = true
stands_for maybe_moved c = true
stands_for _ _ = false

state_eq_refl : (a : ValueState) → state_eq a a ≡ true
state_eq_refl uninitialized = refl
state_eq_refl initialized = refl
state_eq_refl moved = refl
state_eq_refl maybe_uninitialized = refl
state_eq_refl maybe_moved = refl

-- Whatever `a` stands for, `u` stands for.
abbrev pub Covers : ValueState → ValueState → Type 0
Covers u a = (c : Content) → stands_for a c ≡ true → stands_for u c ≡ true

-- The state after a join is the least one that stands for whatever the states of the two branches
-- stand for: another state covers the join exactly when it covers both branches.
pub merge_state_least :
    (a b u : ValueState) → Covers u (merge_state a b) ↔ (Covers u a × Covers u b)
unfolding merge_state
merge_state_least uninitialized b u = (
  λ h. (λ c. ground (arith, h c), λ c. ground (arith, h c)),
  λ h c. ground (arith, h.0 nothing_yet, h.0 held, h.0 gone, h.1 nothing_yet, h.1 held, h.1 gone),
)
merge_state_least _ b u = (
  λ h. (λ c. ground (arith, h c), λ c. ground (arith, h c)),
  λ h c. ground (arith, h.0 nothing_yet, h.0 held, h.0 gone, h.1 nothing_yet, h.1 held, h.1 gone),
)

kind_eq_refl : (k : BorrowKind) → kind_eq k k ≡ true
kind_eq_refl no_borrow = refl
kind_eq_refl shared_borrow = refl
kind_eq_refl mutable_borrow = refl

==-refl : (n : ℕ) → (n == n) ≡ true
==-refl n = ground arith

or_self : (b : Bool) → (b || b) ≡ b
or_self true = refl
or_self false = refl

first_span_self : (o : Option SourceSpan) → first_span o o ≡ o
first_span_self none = refl
first_span_self (some span) = refl

greater_self : (n : ℕ) → greater n n ≡ n
greater_self n = ground arith

-- Joining a fact with itself changes nothing.
merge_self : (f : Fact) → merge f f ≡ f
unfolding merge
merge_self f =
    simp (state_eq_refl, kind_eq_refl, ==-refl, or_self, first_span_self, greater_self, merge_state)
