-- ===== src/Pool.antt =====
-- The two pool allocators: `pool_alloc` and `pool_free` of src/data/map/addr_hash.c (nodes with
-- their keys) and `history_create` and `history_free` of src/entry/iftop.c (flow records). Both
-- carve blocks of 256 items, keep the free items in a list threaded through them, and never give a
-- block back. An item is known by its number: item `i` of the `b`-th block is `256 * b + i`, so
-- that a block which `malloc` returns never overlaps another. `malloc` failing aborts the process.
pub mod Owned
use iftopcolor.Shared.{ℕ, suc, ◌+◌, ◌*◌, List, [], ◌∷◌, range}

-- POOL_BLOCK_SIZE and HISTORY_POOL_BLOCK
abbrev pub block_size : ℕ
block_size = 256

-- `blocks` is the length of `pool_blocks` (`hist_pool_blocks`).
pub record Pool : Type 0 where
  pub free_list : List ℕ
  pub blocks : ℕ

unfoldable pub new_pool : Pool
new_pool = record { free_list = []; blocks = 0 }

-- The head of the free list, or the first item of a new block whose other items are then free.
unfoldable pub take_item : List ℕ → ℕ → ℕ × Pool
take_item (x ∷ rest) blocks = (x, record { free_list = rest; blocks = blocks })
take_item [] blocks = (
  block_size * blocks,
  record { free_list = range (suc (block_size * blocks)) 255; blocks = suc blocks },
)

unfoldable pub pool_alloc : Pool → ℕ × Pool
unfolding take_item
pool_alloc p = take_item p.free_list p.blocks

unfoldable pub pool_free : ℕ → Pool → Pool
pool_free a p = record p { free_list = a ∷ p.free_list }
