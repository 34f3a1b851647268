-- ===== src/Support/Arena.antt =====
-- Arena allocation: bootstrap/src/support/memory/arena.c.
-- The chain of blocks is the current block and the list of those before it, the newest first. An
-- address is the number of blocks before its block and an offset into that block. `grant` is the
-- allocator: whether `malloc` grants a request of that many bytes. The arena pointer is not null. Where
-- `malloc` put the blocks is the parameter `bases` of `pointer`.
pub mod Regions
pub mod Wrap
use sultanc.Prelude.{
  ℕ, ◌+◌, ◌-◌, ◌%◌, ◌^◌, Bool, true, false, not, ◌&&◌, ◌||◌, Option, none, some, List, [], ◌∷◌,
  ◌++◌, bit_and, ltb, ◌==◌, if◌then◌else◌, length, wrap64,
}
use sultanc.Support.Alignment.{align_up}

-- `__Arena_Block__`
pub record Block : Type 0 where
  pub used : ℕ
  pub capacity : ℕ

-- `__Arena__`
pub record Arena : Type 0 where
  pub earlier : List Block
  pub current : Option Block
  pub default_block_size : ℕ

pub record Address : Type 0 where
  pub block : ℕ
  pub offset : ℕ

-- `sizeof(__Arena_Block__)` on the 64-bit hosts.
abbrev pub header_size : ℕ
header_size = 24

-- `__Arena_Init__`
unfoldable pub init : ℕ → Arena
init default_block_size = record {
  earlier = [];
  current = none;
  default_block_size = if ltb default_block_size 1024 then 1024 else default_block_size;
}

-- `__Block__->__Data__ + __Offset__`, where `bases` are the addresses at which the blocks were given.
abbrev pub pointer : (ℕ → ℕ) → Address → ℕ
pointer bases address = bases address.block + header_size + address.offset

-- The chain with the current block moved behind a new one.
abbrev pub chain : Arena → List Block
chain a = elim a.current [ none ↦ a.earlier | some b ↦ b ∷ a.earlier ]

-- The last two statements of `__Arena_Allocate__`.
abbrev pub place : Arena → Block → ℕ → ℕ → Arena × Option Address
place a block offset size = (
  record a { current = some (record block { used = wrap64 (offset + size) }) },
  some (record { block = length a.earlier; offset = offset }),
)

-- The capacity of a new block.
unfoldable pub block_capacity : Arena → ℕ → ℕ → ℕ
block_capacity a size alignment =
    if ltb a.default_block_size (wrap64 (size + alignment))
    then wrap64 (size + alignment)
    else a.default_block_size

-- The branch of `__Arena_Allocate__` that takes a new block.
unfoldable pub allocate_new : (ℕ → Bool) → Arena → ℕ → ℕ → Arena × Option Address
unfolding block_capacity
allocate_new grant a size alignment =
    let capacity = block_capacity a size alignment in
    let opened = record a { earlier = chain a; current = none } in
    if grant (wrap64 (header_size + capacity))
    then place opened (record { used = 0; capacity = capacity }) (align_up 0 alignment) size
    else (a, none)

unfoldable pub allocate_from : (ℕ → Bool) → Arena → Option Block → ℕ → ℕ → Arena × Option Address
allocate_from grant a none size alignment = allocate_new grant a size alignment
allocate_from grant a (some b) size alignment =
    let offset = align_up b.used alignment in
    if ltb b.capacity (wrap64 (offset + size))
    then allocate_new grant a size alignment
    else place a b offset size

-- `__Arena_Allocate__`
unfoldable pub allocate : (ℕ → Bool) → Arena → ℕ → ℕ → Arena × Option Address
allocate grant a size alignment =
    if size == 0
    then (a, none)
    else if alignment == 0 || not (bit_and alignment (alignment - 1) == 0)
    then (a, none)
    else allocate_from grant a a.current size alignment

-- A text in the arena: where it stands, and the bytes there, the closing zero included.
pub record StoredText : Type 0 where
  pub address : Address
  pub bytes : List ℕ

abbrev pub fill_text : Arena × Option Address → List ℕ → Arena × Option StoredText
fill_text (a, none) text = (a, none)
fill_text (a, some address) text = (a, some (record { address = address; bytes = text ++ 0 ∷ [] }))

-- `__Arena_Copy_Text__`
unfoldable pub copy_text : (ℕ → Bool) → Arena → List ℕ → Arena × Option StoredText
copy_text grant a text = fill_text (allocate grant a (wrap64 (length text + 1)) 1) text

-- `__Arena_Destroy__`
unfoldable pub destroy : Arena → Arena
destroy a = record a { earlier = []; current = none }
