-- ===== src/Checks/KernelChecks.antt =====
-- The theorems on bootstrap/src/kernel at concrete inputs.
use sultanc.Prelude.{ℕ, ◌*◌, ◌≤◌, ◌≡◌, ◌↔◌, ◌⊎◌, refl, arith, true, false, ◌&&◌, some, [], size_max}
use sultanc.Core.Source.{SourcePosition, SourceSpan}
use sultanc.Kernel.Memory.{minimum_capacity, element_bytes, grow_capacity}
use sultanc.Kernel.Memory.Policy.{grow_capacity_total, element_bytes_exact}
use sultanc.Kernel.Safety.{
  Fact, uninitialized, moved, maybe_moved, shared_borrow, mutable_borrow, init, can_read, can_write,
  can_move, acquire_shared_at, acquire_mutable_at, release_borrow, merge_state, merge,
}
use sultanc.Kernel.Safety.Invariant.{IsSound, init-IsSound}
use sultanc.Kernel.Safety.Borrows.{
  start, advance, join, acquire_mutable, IsExclusive, Reach-IsSound, release-acquire,
}
use sultanc.Kernel.Safety.Merge.{Covers, merge_permissions, merge_state_least}

grow_capacity_total_example :
    (c : ℕ) × (grow_capacity 4 21 ≡ some c)
    × (21 ≤ c)
    × (4 ≤ c)
    × (c ≤ size_max)
    × ((c ≤ 4) ⊎ ((c ≤ 2 * 21) ⊎ (c ≤ minimum_capacity)))
grow_capacity_total_example = grow_capacity_total 4 21 (omega arith) (omega arith)

element_bytes_exact_example :
    (element_bytes 8 size_max ≡ some 12) ↔ ((8 * size_max ≤ size_max) × (12 ≡ 8 * size_max))
element_bytes_exact_example = element_bytes_exact 8 size_max 12

abbrev here : SourcePosition
here = record { source = record { name = []; bytes = [] }; offset = 0; line = 1; column = 1 }

abbrev span : SourceSpan
span = record { start = here; end = here }

abbrev borrowed : Fact
borrowed = (acquire_mutable_at (init true) span 3).0

-- The join of a branch that borrowed the value with one that did not.
Reach-IsSound_example :
    IsSound (merge borrowed (init true)) × (true ≡ false → IsExclusive (merge borrowed (init true)))
Reach-IsSound_example =
    Reach-IsSound true (merge borrowed (init true))
      (join (advance (start true) (acquire_mutable (init true) span 3)) (start true))

release-acquire_example :
    (release_borrow (acquire_shared_at (init true) span).0 shared_borrow ≡ init true)
    × (release_borrow (acquire_mutable_at (init true) span 3).0 mutable_borrow ≡ init true)
unfolding init can_move
release-acquire_example = release-acquire (init true) span 3 (init-IsSound true) (omega arith) refl

merge_permissions_example :
    (can_read (merge borrowed (init true)) ≡ (can_read borrowed && can_read (init true)))
    × (can_write (merge borrowed (init true)) ≡ (can_write borrowed && can_write (init true)))
    × (can_move (merge borrowed (init true)) ≡ (can_move borrowed && can_move (init true)))
merge_permissions_example = merge_permissions borrowed (init true)

merge_state_least_example :
    Covers maybe_moved (merge_state uninitialized moved)
    ↔ (Covers maybe_moved uninitialized × Covers maybe_moved moved)
merge_state_least_example = merge_state_least uninitialized moved maybe_moved
