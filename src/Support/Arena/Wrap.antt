-- ===== src/Support/Arena/Wrap.antt =====
-- The sum `size + alignment` of `__Arena_Allocate__` is not checked for wrap-around.
use native.Mathlib.Nat.{one-le-pow, pow-le-pow_right}
use sultanc.Prelude.{
  ℕ, ◌+◌, ◌^◌, ◌≤◌, ◌<◌, ◌≡◌, ap, ◌∙◌, arith, Bool, true, Option, none, some, wrap64,
}
use sultanc.Support.Alignment.{align_up}
use sultanc.Support.Alignment.Masks.{pow_of_two-test}
use sultanc.Support.Arena.{
  Block, Arena, block_capacity, allocate_new, allocate_from, allocate, header_size,
}
use sultanc.Support.Arena.Regions.{size_bound}

allocate_guarded :
    (grant : ℕ → Bool) (a : Arena) (size k : ℕ)
    → 0 < size
    → allocate grant a size (2 ^ k) ≡ allocate_from grant a a.current size (2 ^ k)
unfolding allocate
allocate_guarded grant a size k some_size =
    let pos = one-le-pow k 2 (omega arith) in ground (arith, pow_of_two-test k)

-- For a request whose size and alignment add up past SIZE_MAX, from an arena with no block in use,
-- an allocation that the allocator lets through is taken from a block smaller than the request.
pub allocate_wraps :
    (grant : ℕ → Bool) (a : Arena) (size k : ℕ)
    → ((bytes : ℕ) → grant bytes ≡ true)
    → a.current ≡ none
    → a.default_block_size ≤ size_bound
    → size < 2 ^ 64
    → 2 ^ 64 ≤ size + 2 ^ k
    → k < 62
    → (b : Block) × ((allocate grant a size (2 ^ k)).0.current ≡ some b) × (b.capacity < size)
unfolding allocate_from allocate_new
allocate_wraps grant a size k all empty default top wraps narrow =
    let width : 2 ^ k ≤ 2 ^ 62 =
      pow-le-pow_right {n = 2} (omega arith) {i = k} {j = 62} (omega arith) in
    let from =
      allocate_guarded grant a size k (omega arith)
      ∙ ap (λ (o : Option Block). allocate_from grant a o size (2 ^ k)) empty in
    (
      record {
        used = wrap64 (align_up 0 (2 ^ k) + size);
        capacity = block_capacity a size (2 ^ k);
      },
      rw (from, all (wrap64 (header_size + block_capacity a size (2 ^ k)))),
      ground arith,
    )
