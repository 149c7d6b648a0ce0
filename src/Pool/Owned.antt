-- ===== src/Pool/Owned.antt =====
-- Who owns an item.
use iftopcolor.Shared.{
  ℕ, suc, ◌+◌, ◌*◌, ◌≤◌, ◌≡◌, List, [], ◌∷◌, arith, count, to_nat, ltb, ◌==◌, count-range,
}
use iftopcolor.Pool.{Pool, new_pool, take_item, pool_alloc, pool_free, block_size}

-- Every item of the blocks stands once in `live` or in the free list, and no other number does.
abbrev pub IsOwned : List ℕ → Pool → Type 0
IsOwned live p =
    (a : ℕ) → count a live + count a p.free_list ≡ to_nat (ltb a (block_size * p.blocks))

pub new_pool-IsOwned : IsOwned [] new_pool
unfolding new_pool
new_pool-IsOwned a = ground arith

take_item-IsOwned :
    (live free : List ℕ) (blocks : ℕ)
    → IsOwned live (record { free_list = free; blocks = blocks })
    → IsOwned ((take_item free blocks).0 ∷ live) (take_item free blocks).1
unfolding take_item
take_item-IsOwned live (x ∷ rest) blocks h a = omega (arith, h a)
take_item-IsOwned live [] blocks h a = ground (arith, h a, count-range a (suc (256 * blocks)) 255)

-- If every item of the blocks is either free or handed out, once, then this holds after
-- pool_alloc with the returned item handed out, so that it belonged to nobody.
pub pool_alloc-IsOwned :
    (live : List ℕ) (p : Pool) → IsOwned live p → IsOwned ((pool_alloc p).0 ∷ live) (pool_alloc p).1
unfolding pool_alloc
pool_alloc-IsOwned live p h = take_item-IsOwned live p.free_list p.blocks h

-- If every item of the blocks is either free or handed out, once, then this holds after pool_free
-- of an item that is handed out, which is then free.
pub pool_free-IsOwned :
    (live rest : List ℕ) (p : Pool) (x : ℕ)
    → ((a : ℕ) → count a live ≡ to_nat (x == a) + count a rest)
    → IsOwned live p
    → IsOwned rest (pool_free x p)
unfolding pool_free
pool_free-IsOwned live rest p x same h a = omega (arith, h a, same a)

pub count-live-le : (live : List ℕ) (p : Pool) → IsOwned live p → (a : ℕ) → count a live ≤ 1
count-live-le live p h a = ground (arith, h a)
