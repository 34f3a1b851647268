-- ===== src/Support/Arena/Regions.antt =====
-- Every allocation lies in its block and overlaps no earlier one; its pointer is aligned up to 8 bytes.
use native.Mathlib.Nat.{
  mod-eq_of_lt, dvd_trans, dvd-mul_right, dvd_of_mod-eq-zero, mod-eq-zero_of_dvd,
}
use sultanc.Prelude.{
  ℕ, zero, suc, ◌*◌, ◌+◌, ◌-◌, ◌%◌, ◌^◌, ◌≤◌, ◌<◌, ◌≡◌, refl, sym, ◌∙◌, ◌⊎◌, inl, inr, arith, Bool,
  not, ◌||◌, Option, none, some, ◌∷◌, bit_and, ltb, ◌==◌, length, All, wrap64, Bool-cases,
}
use sultanc.Support.Alignment.{align_up}
use sultanc.Support.Alignment.Masks.{pow_split}
use sultanc.Support.Alignment.Bounds.{align_up_bounds}
use sultanc.Support.Arena.{
  Block, Arena, Address, chain, place, block_capacity, allocate_new, allocate_from, allocate,
  header_size, pointer,
}

-- Sizes stay below this bound, far from where `size_t` wraps.
abbrev pub size_bound : ℕ
size_bound = 0x4000_0000_0000_0000

pub record IsSoundBlock (b : Block) : Type 0 where
  pub used_fits : b.used ≤ b.capacity
  pub bounded : b.capacity ≤ size_bound

abbrev SoundCurrent : Option Block → Type 0
SoundCurrent none = Unit {0}
SoundCurrent (some b) = IsSoundBlock b

pub record IsSound (a : Arena) : Type 0 where
  pub earlier_sound : All IsSoundBlock a.earlier
  pub current_sound : SoundCurrent a.current
  pub default_bounded : a.default_block_size ≤ size_bound

-- The block that an allocation was taken from: the one in use, behind all that was taken from it
-- before, or a new one at its start.
abbrev Taken : Arena → Arena → ℕ → Block → Type 0
Taken a a' offset b' =
    ((a'.earlier ≡ a.earlier)
      × ((b : Block) × (a.current ≡ some b) × (b.capacity ≡ b'.capacity) × (b.used ≤ offset)))
    ⊎ ((a'.earlier ≡ chain a) × (offset ≡ 0))

-- `malloc` gives addresses that suit every standard type, on the 64-bit hosts multiples of 16.
abbrev pub SuitsAll : (ℕ → ℕ) → Type 0
SuitsAll bases = (n : ℕ) → bases n % 16 ≡ 0

-- What an allocation of `size` bytes at an alignment of `2 ^ k` from `a` gives.
pub record IsRegion (bases : ℕ → ℕ) (a a' : Arena) (address : Address) (size k : ℕ) : Type 0 where
  pub last : Block
  pub is_current : a'.current ≡ some last
  pub in_current : address.block ≡ length a'.earlier
  pub aligned_in_block : address.offset % 2 ^ k ≡ 0
  pub aligned : k ≤ 3 → pointer bases address % 2 ^ k ≡ 0
  pub misaligned : 4 ≤ k → pointer bases address % 16 ≡ 8
  pub taken_up_to : last.used ≡ address.offset + size
  pub inside : last.used ≤ last.capacity
  pub taken : Taken a a' address.offset last

-- What an allocation may answer: null and an unchanged arena, or a region in a sound arena.
abbrev pub Outcome : (ℕ → ℕ) → Arena → ℕ → ℕ → Arena × Option Address → Type 0
Outcome bases a size k (a', none) = a' ≡ a
Outcome bases a size k (a', some address) = IsRegion bases a a' address size k × IsSound a'

-- Behind the 24 bytes of the header an aligned offset gives an aligned pointer up to 8 bytes.
pointer-aligned :
    (bases : ℕ → ℕ) (address : Address) (k : ℕ)
    → SuitsAll bases
    → address.offset % 2 ^ k ≡ 0
    → k ≤ 3
    → pointer bases address % 2 ^ k ≡ 0
pointer-aligned bases address zero suits h le = omega (arith, suits address.block)
pointer-aligned bases address (suc zero) suits h le = omega (arith, suits address.block)
pointer-aligned bases address (suc (suc zero)) suits h le = omega (arith, suits address.block)
pointer-aligned bases address (suc (suc (suc zero))) suits h le = omega (arith, suits address.block)
pointer-aligned bases address (suc (suc (suc (suc k)))) suits h le = absurd (omega arith)

-- An offset aligned to 16 bytes or more gives a pointer in the middle of 16 bytes.
pointer-misaligned :
    (bases : ℕ → ℕ) (address : Address) (k : ℕ)
    → SuitsAll bases
    → address.offset % 2 ^ k ≡ 0
    → 4 ≤ k
    → pointer bases address % 16 ≡ 8
pointer-misaligned bases address zero suits h le = absurd (omega arith)
pointer-misaligned bases address (suc zero) suits h le = absurd (omega arith)
pointer-misaligned bases address (suc (suc zero)) suits h le = absurd (omega arith)
pointer-misaligned bases address (suc (suc (suc zero))) suits h le = absurd (omega arith)
pointer-misaligned bases address (suc (suc (suc (suc k)))) suits h le =
    let sixteen : address.offset % 16 ≡ 0 = mod-eq-zero_of_dvd 16 (
      dvd_trans 16 (dvd-mul_right 16 (2 ^ k)) (
        dvd_of_mod-eq-zero (2 ^ 4 * 2 ^ k)
          (rw (pow_split k 4 (suc (suc (suc (suc k)))) (omega arith)) h))) in
    omega (arith, suits address.block)

module _ (grant : ℕ → Bool) (bases : ℕ → ℕ) (suits : SuitsAll bases) (a : Arena) (size k : ℕ)
    (sound : IsSound a) (small : size + 2 ^ k ≤ size_bound) (narrow : k < 63) where
  capacity_bounds :
      (size ≤ block_capacity a size (2 ^ k)) × (block_capacity a size (2 ^ k) ≤ size_bound)
  unfolding block_capacity
  capacity_bounds = ground (arith, sound.default_bounded)

  start : align_up 0 (2 ^ k) ≡ 0
  start =
      let (low, high, zero_left) = align_up_bounds k 0 (omega arith) (omega arith) in
      sym (mod-eq_of_lt (omega (arith, high))) ∙ zero_left

  abbrev opened : Arena
  opened = record a { earlier = chain a; current = none }

  abbrev fresh : Block
  fresh = record { used = 0; capacity = block_capacity a size (2 ^ k) }

  chain_sound : All IsSoundBlock (chain a)
  chain_sound = chained a.current sound.current_sound
    where
      chained :
          (o : Option Block)
          → SoundCurrent o
          → All IsSoundBlock (elim o [ none ↦ a.earlier | some b ↦ b ∷ a.earlier ])
      chained none s = sound.earlier_sound
      chained (some b) s = (s, sound.earlier_sound)

  -- Placing `size` bytes at an aligned offset of a block with room for them.
  place-IsSound :
      (b : Block) (from : Arena) (offset : ℕ)
      → All IsSoundBlock from.earlier
      → from.default_block_size ≤ size_bound
      → b.capacity ≤ size_bound
      → offset + size ≤ b.capacity
      → IsSound (place from b offset size).0
  place-IsSound b from offset earlier default bounded fits = record {
    earlier_sound = earlier;
    current_sound = record { used_fits = omega arith; bounded = bounded };
    default_bounded = default;
  }

  place-IsRegion :
      (b : Block) (from : Arena) (offset : ℕ)
      → b.capacity ≤ size_bound
      → offset + size ≤ b.capacity
      → offset % 2 ^ k ≡ 0
      → Taken a from offset b
      → IsRegion bases a
          (place from b offset size).0
          (record { block = length from.earlier; offset = offset })
          size
          k
  place-IsRegion b from offset bounded fits aligned taken = record {
    last = record b { used = wrap64 (offset + size) };
    is_current = refl;
    in_current = refl;
    aligned_in_block = aligned;
    aligned =
        pointer-aligned bases (record { block = length from.earlier; offset = offset }) k suits
          aligned;
    misaligned =
        pointer-misaligned bases (record { block = length from.earlier; offset = offset }) k suits
          aligned;
    taken_up_to = omega arith;
    inside = omega arith;
    taken = taken;
  }

  allocate_new-Outcome : Outcome bases a size k (allocate_new grant a size (2 ^ k))
  unfolding allocate_new
  allocate_new-Outcome =
      let (room, top) = capacity_bounds in
      let low : 0 + size ≤ block_capacity a size (2 ^ k) = omega (arith, room) in
      elim (Bool-cases (grant (wrap64 (header_size + block_capacity a size (2 ^ k))))) [
        | inl granted ↦
            rw (granted, start)
              (
                place-IsRegion fresh opened 0 top low (omega arith) (inr (refl, refl)),
                place-IsSound fresh opened 0 chain_sound sound.default_bounded top low,
              )
        | inr refused ↦ rw refused refl
      ]

  allocate_from-Outcome :
      (o : Option Block)
      → a.current ≡ o
      → Outcome bases a size k (allocate_from grant a o size (2 ^ k))
  unfolding allocate_from
  allocate_from-Outcome none e = allocate_new-Outcome
  allocate_from-Outcome (some b) e =
      let offset : ℕ = align_up b.used (2 ^ k) in
      let s : IsSoundBlock b = rw e at sound.current_sound in
      let (low, high, aligned) =
        align_up_bounds k b.used (omega arith) (omega (arith, small, s.used_fits, s.bounded)) in
      let no_wrap : wrap64 (offset + size) ≡ offset + size =
        omega (arith, small, high, s.used_fits, s.bounded) in
      elim (Bool-cases (ltb b.capacity (offset + size))) [
        | inl full ↦ rw (no_wrap, full) allocate_new-Outcome
        | inr room ↦
            rw (no_wrap, room, ← no_wrap)
              (
                place-IsRegion b a offset s.bounded (ground arith) aligned
                    (inl (refl, (b, e, refl, low))),
                place-IsSound b a offset sound.earlier_sound sound.default_bounded s.bounded
                    (ground arith),
              )
      ]

  -- From a sound arena, for a size and an alignment of 2 ^ k with k below 63 that add up to at most
  -- 2 ^ 62, `allocate` returns null and leaves the arena as it was, or returns a region of the size asked
  -- for: inside the current block, behind all that was taken from that block before, or at the start of a
  -- new block; the arena stays sound. Where `malloc` gives multiples of 16, the pointer is a multiple of
  -- the alignment asked for up to 8 bytes, and for an alignment of 16 or more it is 8 past a multiple
  -- of 16.
  pub allocate-Outcome : Outcome bases a size k (allocate grant a size (2 ^ k))
  unfolding allocate
  allocate-Outcome = elim (Bool-cases (size == 0)) [
    | inl empty ↦ rw empty refl
    | inr some_size ↦
        rw some_size (elim (Bool-cases (2 ^ k == 0 || not (bit_and (2 ^ k) (2 ^ k - 1) == 0))) [
          | inl odd ↦ rw odd refl
          | inr power ↦ rw power (allocate_from-Outcome a.current refl)
        ])
  ]
