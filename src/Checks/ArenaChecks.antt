-- ===== src/Checks/ArenaChecks.antt =====
-- The theorems on alignment and on the arena at concrete inputs.
use sultanc.Prelude.{
  ℕ, ◌+◌, ◌*◌, ◌%◌, ◌^◌, ◌≤◌, ◌<◌, ◌≡◌, ◌-◌, refl, arith, Bool, true, some, [], size_max,
}
use sultanc.Support.Alignment.{align_up}
use sultanc.Support.Alignment.Bounds.{align_up_bounds}
use sultanc.Support.Arena.{Arena, Block, init, allocate}
use sultanc.Support.Arena.Regions.{IsSound, SuitsAll, Outcome, allocate-Outcome}
use sultanc.Support.Arena.Wrap.{allocate_wraps}

abbrev grants_all : ℕ → Bool
grants_all bytes = true

align_up_bounds_example :
    (13 ≤ align_up 13 (2 ^ 3))
    × (align_up 13 (2 ^ 3) < 13 + 2 ^ 3)
    × (align_up 13 (2 ^ 3) % 2 ^ 3 ≡ 0)
align_up_bounds_example = align_up_bounds 3 13 (omega arith) (omega arith)

abbrev used_arena : Arena
used_arena = record {
  earlier = [];
  current = some (record { used = 13; capacity = 1024 });
  default_block_size = 1024;
}

used_arena-IsSound : IsSound used_arena
used_arena-IsSound = record {
  earlier_sound = tt;
  current_sound = record { used_fits = omega arith; bounded = omega arith };
  default_bounded = omega arith;
}

-- The blocks stand 4096 bytes apart.
abbrev pages : ℕ → ℕ
pages n = 4096 * n

pages-SuitsAll : SuitsAll pages
pages-SuitsAll n = omega arith

allocate-Outcome_example :
    Outcome pages used_arena 100 3 (allocate grants_all used_arena 100 (2 ^ 3))
allocate-Outcome_example =
    allocate-Outcome grants_all pages pages-SuitsAll used_arena 100 3 used_arena-IsSound
      (omega arith) (omega arith)

allocate_wraps_example :
    (b : Block) × ((allocate grants_all (init 0) (size_max - 7) (2 ^ 3)).0.current ≡ some b)
    × (b.capacity < size_max - 7)
unfolding init
allocate_wraps_example =
    allocate_wraps grants_all (init 0) (size_max - 7) 3 (λ bytes. refl) refl (omega arith)
      (omega arith) (omega arith) (omega arith)
