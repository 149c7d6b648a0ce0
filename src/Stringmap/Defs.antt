-- ===== src/Stringmap/Defs.antt =====
-- The operations of src/data/map/stringmap.c.
use Prim.Native.Nat.{compare, Ordering}
use iftopcolor.Shared.{ℕ, List, [], ◌∷◌, ◌++◌, Option, none, some}

abbrev pub Text : Type 0
Text = List ℕ

-- strcmp: `lt` for a negative result, `gt` for a positive one.
unfoldable pub strcmp : Text → Text → Ordering
strcmp [] [] = Ordering.eq
strcmp [] (y ∷ ys) = Ordering.lt
strcmp (x ∷ xs) [] = Ordering.gt
strcmp (x ∷ xs) (y ∷ ys) = elim (compare x y) [
  | Ordering.lt ↦ Ordering.lt
  | Ordering.gt ↦ Ordering.gt
  | Ordering.eq ↦ strcmp xs ys
]

-- A child: NULL, or a node with its key, its item and its two children.
pub data Tree {ℓ} (V : Type ℓ) : Type ℓ where
  leaf : Tree V
  node : Text → V → Tree V → Tree V → Tree V

-- A stringmap: NULL, a root without a key, or a root with one.
pub data Stringmap {ℓ} (V : Type ℓ) : Type ℓ where
  null : Stringmap V
  blank : Stringmap V
  root : Text → V → Tree V → Tree V → Stringmap V

module _ {ℓ} {V : Type ℓ} where
  unfoldable pub stringmap_new : Stringmap V
  stringmap_new = blank

  -- The loop of stringmap_insert from a child on: the child afterwards.
  unfoldable pub insert_at : Tree V → Text → V → Tree V
  insert_at leaf key item = node key item leaf leaf
  insert_at (node k v lesser greater) key item = elim (strcmp key k) [
    | Ordering.eq ↦ node k v lesser greater
    | Ordering.lt ↦ node k v (insert_at lesser key item) greater
    | Ordering.gt ↦ node k v lesser (insert_at greater key item)
  ]

  -- The loop of stringmap_find from a child on: the item that was found.
  unfoldable pub find_at : Tree V → Text → Option V
  find_at leaf key = none
  find_at (node k v lesser greater) key = elim (strcmp key k) [
    | Ordering.eq ↦ some v
    | Ordering.lt ↦ find_at lesser key
    | Ordering.gt ↦ find_at greater key
  ]

  -- stringmap_insert: the map afterwards, and the item that was there already. A NULL map is left
  -- as it is.
  unfoldable pub stringmap_insert : Stringmap V → Text → V → Stringmap V × Option V
  unfolding insert_at find_at
  stringmap_insert null key item = (null, none)
  stringmap_insert blank key item = (root key item leaf leaf, none)
  stringmap_insert (root k v lesser greater) key item = elim (strcmp key k) [
    | Ordering.eq ↦ (root k v lesser greater, some v)
    | Ordering.lt ↦ (root k v (insert_at lesser key item) greater, find_at lesser key)
    | Ordering.gt ↦ (root k v lesser (insert_at greater key item), find_at greater key)
  ]

  unfoldable pub stringmap_find : Stringmap V → Text → Option V
  unfolding find_at
  stringmap_find null key = none
  stringmap_find blank key = none
  stringmap_find (root k v lesser greater) key = find_at (node k v lesser greater) key

  -- `entry->data = item` through the pointer that stringmap_find returns.
  unfoldable pub assign_at : Tree V → Text → V → Tree V
  assign_at leaf key item = leaf
  assign_at (node k v lesser greater) key item = elim (strcmp key k) [
    | Ordering.eq ↦ node k item lesser greater
    | Ordering.lt ↦ node k v (assign_at lesser key item) greater
    | Ordering.gt ↦ node k v lesser (assign_at greater key item)
  ]

  unfoldable pub stringmap_assign : Stringmap V → Text → V → Stringmap V
  unfolding assign_at
  stringmap_assign null key item = null
  stringmap_assign blank key item = blank
  stringmap_assign (root k v lesser greater) key item = elim (strcmp key k) [
    | Ordering.eq ↦ root k item lesser greater
    | Ordering.lt ↦ root k v (assign_at lesser key item) greater
    | Ordering.gt ↦ root k v lesser (assign_at greater key item)
  ]

  -- The nodes that stringmap_delete_free frees, with their items: the children first.
  unfoldable pub freed_at : Tree V → List (Text × V)
  freed_at leaf = []
  freed_at (node k v lesser greater) = freed_at lesser ++ (freed_at greater ++ (k, v) ∷ [])

  unfoldable pub stringmap_delete_free : Stringmap V → List (Text × V)
  unfolding freed_at
  stringmap_delete_free null = []
  stringmap_delete_free blank = []
  stringmap_delete_free (root k v lesser greater) = freed_at (node k v lesser greater)
