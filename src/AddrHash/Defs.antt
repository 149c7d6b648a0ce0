-- ===== src/AddrHash/Defs.antt =====
-- The definitions of src/data/map/addr_hash.c.
use Prim.Native.Nat.{bit_and, bit_or, bit_xor}
use iftopcolor.Shared.{
  ℕ, ◌+◌, ◌*◌, ◌/◌, ◌%◌, ◌^◌, Bool, true, false, ◌&&◌, List, [], ◌∷◌, Option, none, some, ◌==◌,
  if◌then◌else◌, get_or, set, replicate,
}
use iftopcolor.Pool.{Pool, pool_alloc, pool_free}
use iftopcolor.Hash.{Node, Chain, Buckets, chain_at, unlink, clear_heads, free_chains, free_records}

abbrev pub af_inet : ℕ
af_inet = 2

abbrev pub af_inet6 : ℕ
af_inet6 = 10

pub record AddrPair : Type 0 where
  pub address_family : ℕ
  pub protocol : ℕ
  pub src_port : ℕ
  pub src : List ℕ
  pub dst_port : ℕ
  pub dst : List ℕ

abbrev pub hash_table_size : ℕ
hash_table_size = 2048

-- The `i`-th 32-bit word of some bytes.
unfoldable pub word : List ℕ → ℕ → ℕ
word bytes i =
    get_or bytes (4 * i) 0
    + 256 * get_or bytes (4 * i + 1) 0
    + 65536 * get_or bytes (4 * i + 2) 0
    + 16777216 * get_or bytes (4 * i + 3) 0

-- hash_mix, over uint32_t
unfoldable pub hash_mix : ℕ → ℕ → ℕ
hash_mix hash_val val =
    let h : ℕ = bit_xor hash_val val in
    let r : ℕ = bit_or (h * 2 ^ 5 % 2 ^ 32) (h / 2 ^ 27) in r * 0x9e3779b9 % 2 ^ 32

hash_mix4 : ℕ → List ℕ → ℕ
unfolding hash_mix word
hash_mix4 h a =
    hash_mix (hash_mix (hash_mix (hash_mix h (word a 0)) (word a 1)) (word a 2)) (word a 3)

-- `hash_val` at the end of the two branches
addr_hash_val : AddrPair → ℕ
unfolding hash_mix hash_mix4 word
addr_hash_val pair =
    if pair.address_family == af_inet6
    then hash_mix (hash_mix4 (hash_mix (hash_mix4 0 pair.src) pair.src_port) pair.dst) pair.dst_port
    else hash_mix
        (hash_mix (hash_mix (hash_mix 0 (word pair.src 0)) pair.src_port) (word pair.dst 0))
        pair.dst_port

unfoldable pub addr_hash_bucket : AddrPair → ℕ
unfolding addr_hash_val
addr_hash_bucket pair = bit_and (addr_hash_val pair) 2047

-- memcmp(l, r, n) == 0 over buffers of one length
unfoldable pub bytes_eq : List ℕ → List ℕ → Bool
bytes_eq [] [] = true
bytes_eq [] (y ∷ ys) = false
bytes_eq (x ∷ xs) [] = false
bytes_eq (x ∷ xs) (y ∷ ys) = x == y && bytes_eq xs ys

unfoldable pub addr_compare : AddrPair → AddrPair → Bool
unfolding bytes_eq
addr_compare l r =
    l.address_family == r.address_family
    && l.protocol == r.protocol
    && l.src_port == r.src_port
    && bytes_eq l.src r.src
    && l.dst_port == r.dst_port
    && bytes_eq l.dst r.dst

unfoldable pub free_nodes : List ℕ → Pool → Pool
free_nodes [] pool = pool
free_nodes (a ∷ later) pool = free_nodes later (pool_free a pool)

module _ {R : Type 0} where
  unfoldable pub addr_find_in : AddrPair → Chain AddrPair R → Option R
  addr_find_in key [] = none
  addr_find_in key (n ∷ c) = if addr_compare n.key key then some n.rec else addr_find_in key c

  -- `none` is HASH_STATUS_KEY_NOT_FOUND.
  unfoldable pub addr_hash_find : Buckets AddrPair R → AddrPair → Option R
  unfolding addr_find_in
  addr_hash_find t key = addr_find_in key (chain_at t (addr_hash_bucket key))

  unfoldable pub addr_hash_insert :
      Pool → Buckets AddrPair R → AddrPair → R → Pool × Buckets AddrPair R
  addr_hash_insert pool t key rec =
      let bucket = addr_hash_bucket key in
      let (addr, pool') = pool_alloc pool in
      let node : Node AddrPair R = record { addr = addr; key = key; rec = rec; bucket = bucket } in
      (pool', set t bucket (node ∷ chain_at t bucket))

  unfoldable pub addr_hash_delete_node :
      Pool → Buckets AddrPair R → Node AddrPair R → Pool × Buckets AddrPair R
  addr_hash_delete_node pool t target =
      elim (unlink (λ n. n.addr == target.addr) (chain_at t target.bucket)) [
        | none ↦ (pool, t)
        | some (n, c) ↦ (pool_free n.addr pool, set t target.bucket c)
      ]

  -- The records are returned: `free` takes each of them.
  unfoldable pub addr_hash_delete_all_free :
      Pool → Buckets AddrPair R → Pool × Buckets AddrPair R × List R
  addr_hash_delete_all_free pool t =
      (free_nodes (free_chains t) pool, clear_heads t, free_records t)

-- addr_hash_create: a zeroed table.
unfoldable pub addr_hash_create : {R : Type 0} → Buckets AddrPair R
addr_hash_create = replicate hash_table_size []
