-- ===== src/AddrHash/Generic.antt =====
-- The specialised operations against those of src/data/map/hash.c, and the nodes' pool.
use iftopcolor.Shared.{◌≡◌, refl, [], ◌∷◌, arith}
use iftopcolor.Pool.{Pool, pool_alloc}
use iftopcolor.Hash.{
  Node, Chain, Buckets, hash_find, find_in, hash_insert, hash_delete_node, hash_delete_all_free,
}
use iftopcolor.AddrHash.Defs.{
  AddrPair, addr_find_in, addr_hash_find, addr_hash_insert, addr_hash_delete_node,
  addr_hash_delete_all_free, free_nodes,
}
use iftopcolor.AddrHash.Keys.{addr_fns}

module _ {R : Type 0} where
  addr_find_in-eq : (key : AddrPair) (c : Chain AddrPair R) → addr_find_in key c ≡ find_in key c
  unfolding addr_find_in find_in
  addr_find_in-eq key [] = refl
  addr_find_in-eq key (n ∷ c) = ground (arith, addr_find_in-eq key c)

  -- The specialised addr_hash_find answers as the generic hash_find does with the comparison and
  -- the hash of the flow keys.
  pub addr_hash_find-generic :
      (t : Buckets AddrPair R) (key : AddrPair) → addr_hash_find t key ≡ hash_find t key
  unfolding addr_hash_find hash_find
  addr_hash_find-generic t key = addr_find_in-eq key _

  pub addr_hash_insert-generic :
      (pool : Pool) (t : Buckets AddrPair R) (key : AddrPair) (rec : R)
      → addr_hash_insert pool t key rec
        ≡ ((pool_alloc pool).1, (hash_insert t (pool_alloc pool).0 key rec).1)
  unfolding addr_hash_insert hash_insert
  addr_hash_insert-generic pool t key rec = refl

  -- The specialised addr_hash_delete_node leaves the table that the generic hash_delete_node
  -- leaves, and gives back to the pool what the generic one frees.
  pub addr_hash_delete_node-generic :
      (pool : Pool) (t : Buckets AddrPair R) (n : Node AddrPair R)
      → addr_hash_delete_node pool t n
        ≡ (free_nodes (hash_delete_node t n).2 pool, (hash_delete_node t n).1)
  unfolding addr_hash_delete_node hash_delete_node free_nodes
  addr_hash_delete_node-generic pool t n = ground arith

  pub addr_hash_delete_all_free-generic :
      (pool : Pool) (t : Buckets AddrPair R)
      → let r = hash_delete_all_free t in
        addr_hash_delete_all_free pool t ≡ (free_nodes r.1 pool, r.0, r.2)
  unfolding addr_hash_delete_all_free hash_delete_all_free
  addr_hash_delete_all_free-generic pool t = refl
