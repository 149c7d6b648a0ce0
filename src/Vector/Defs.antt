-- ===== src/Vector/Defs.antt =====
-- The operations of src/data/vector.c.
use iftopcolor.Shared.{
  ℕ, zero, suc, ◌+◌, ◌-◌, ◌*◌, ◌/◌, ◌&&◌, ◌||◌, List, [], ◌∷◌, ◌++◌, Option, none, some, ltb, leb,
  ◌==◌, if◌then◌else◌, get_or, set, take, drop, replicate, length, not,
}

pub record Vector : Type 0 where
  pub items : List ℕ
  pub capacity : ℕ
  pub n_used : ℕ

unfoldable pub vector_new : Vector
vector_new = record { items = replicate 16 0; capacity = 16; n_used = 0 }

-- realloc keeps what fits, and the memset zeroes all behind the used items.
unfoldable pub vector_reallocate : Vector → ℕ → Vector
vector_reallocate vec capacity =
    if ltb capacity vec.n_used || leb capacity 0 then vec else record vec {
      items = take vec.n_used vec.items ++ replicate (capacity - vec.n_used) 0;
      capacity = capacity;
    }

unfoldable pub store_back : Vector → ℕ → Vector
store_back vec elem = record vec { items = set vec.items vec.n_used elem; n_used = vec.n_used + 1 }

unfoldable pub vector_push_back : Vector → ℕ → Vector
unfolding vector_reallocate store_back
vector_push_back vec elem =
    store_back
      (if vec.n_used == vec.capacity then vector_reallocate vec (vec.capacity * 2) else vec) elem

unfoldable pub vector_pop_back : Vector → Vector
unfolding vector_reallocate
vector_pop_back vec =
    if ltb 0 vec.n_used
    then (let v : Vector = record vec { n_used = vec.n_used - 1 } in
        if ltb v.n_used (v.capacity / 2) then vector_reallocate v (v.capacity / 2) else v)
    else vec

-- `none` is a read before the first item, of an empty vector.
unfoldable pub vector_back : Vector → Option ℕ
vector_back vec = if vec.n_used == 0 then none else some (get_or vec.items (vec.n_used - 1) 0)

-- What `vector_remove` does at the item with an index: it returns NULL, returns the place of the
-- item, or touches memory behind the allocation: by the memmove, which reads and writes there, or by
-- the memset, which writes there.
pub data Removal : Type 0 where
  null : Vector → Removal
  at : ℕ → Vector → Removal
  overrun_move : Removal
  overrun_clear : Removal

-- The memmove of `n - i` items from behind the `i`-th on, over `n` used ones: `none` if they are not
-- all in the memory. It is left out if the `i`-th is the last.
unfoldable pub memmove : ℕ → ℕ → List ℕ → Option (List ℕ)
memmove n i items =
    if not (ltb (i + 1) n)
    then some items
    else if leb (i + 1 + (n - i)) (length items)
    then some (take i items ++ (take (n - i) (drop (i + 1) items) ++ drop n items))
    else none

-- The memset of an item, which may lie behind the memory.
unfoldable pub memset : ℕ → List ℕ → Option (List ℕ)
memset n items = if ltb n (length items) then some (set items n 0) else none

unfoldable pub shrunk : Vector → Vector
unfolding vector_reallocate
shrunk vec =
    if ltb vec.n_used (vec.capacity / 2) && ltb 16 vec.capacity
    then vector_reallocate vec (vec.capacity / 2)
    else vec

unfoldable pub vector_remove : Vector → ℕ → Removal
unfolding memmove memset shrunk
vector_remove vec i = if leb vec.n_used i then null vec else elim (memmove vec.n_used i vec.items) [
  | none ↦ overrun_move
  | some moved ↦ elim (memset vec.n_used moved) [
    | none ↦ overrun_clear
    | some items ↦ at i (shrunk (record vec { items = items; n_used = vec.n_used - 1 }))
  ]
]

-- vector_iterate in vector_delete_free: the pointers that are freed, NULL (0) excepted, since
-- `xfree` leaves it alone.
unfoldable pub free_items : ℕ → List ℕ → List ℕ
free_items zero items = []
free_items (suc n) [] = []
free_items (suc n) (p ∷ items) = if p == 0 then free_items n items else p ∷ free_items n items

unfoldable pub vector_delete_free : Vector → List ℕ
unfolding free_items
vector_delete_free vec = free_items vec.n_used vec.items
