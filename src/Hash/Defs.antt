-- ===== src/Hash/Defs.antt =====
-- The operations of src/data/map/hash.c.
use mathlib.Core.Option
use iftopcolor.Shared.{
  ℕ, ◌+◌, ◌<◌, ◌≡◌, Bool, true, List, [], ◌∷◌, ◌++◌, Option, none, some, ◌==◌, if◌then◌else◌,
  get_or, set, replicate, drop, map,
}

pub data HashStatus : Type 0 where
  status_ok mem_exhausted key_not_found : HashStatus

-- `hash_node_type`, less `next`
pub record Node (K R : Type 0) : Type 0 where
  pub addr : ℕ
  pub key : K
  pub rec : R
  pub bucket : ℕ

abbrev pub Chain : Type 0 → Type 0 → Type 0
Chain K R = List (Node K R)

abbrev pub Buckets : Type 0 → Type 0 → Type 0
Buckets K R = List (Chain K R)

-- The function pointers and the size of a `hash_type`.
pub record HashFns (K : Type 0) : Type 0 where
  pub compare : K → K → Bool
  pub hash : K → ℕ
  pub size : ℕ
  pub compare_refl : (a : K) → compare a a ≡ true
  pub compare_symm : (a b : K) → compare a b ≡ compare b a
  pub compare_trans : (a b c : K) → compare a b ≡ true → compare b c ≡ true → compare a c ≡ true
  pub hash-compare : (a b : K) → compare a b ≡ true → hash a ≡ hash b
  pub hash-lt-size : (a : K) → hash a < size

module _ {K R : Type 0} where
  abbrev pub chain_at : Buckets K R → ℕ → Chain K R
  chain_at t i = get_or t i []

  -- The loop that looks for a node with `prev` one behind, and the unlinking after it.
  unfoldable pub unlink : (Node K R → Bool) → Chain K R → Option (Node K R × Chain K R)
  unlink p [] = none
  unlink p (n ∷ c) = if p n then some (n, c) else Option.map (λ r. (r.0, n ∷ r.1)) (unlink p c)

  -- hash_delete_node: the chain is that of the node's cached bucket.
  unfoldable pub hash_delete_node : Buckets K R → Node K R → HashStatus × Buckets K R × List ℕ
  hash_delete_node t target =
      elim (unlink (λ n. n.addr == target.addr) (chain_at t target.bucket)) [
        | none ↦ (key_not_found, t, [])
        | some (n, c) ↦ (status_ok, set t target.bucket c, n.addr ∷ [])
      ]

  -- The chain from the node at an address on: what a pointer to that node reaches by `next`.
  unfoldable pub suffix_at : ℕ → Chain K R → Chain K R
  suffix_at a [] = []
  suffix_at a (n ∷ c) = if n.addr == a then n ∷ c else suffix_at a c

  unfoldable pub or_chain : Chain K R → Chain K R → Chain K R
  or_chain [] d = d
  or_chain (n ∷ c) d = n ∷ c

  -- A pointer into the table; `[]` for one that dangles.
  unfoldable pub deref : ℕ → Buckets K R → Chain K R
  unfolding or_chain
  deref a [] = []
  deref a (c ∷ t) = or_chain (suffix_at a c) (deref a t)

  -- The loop over `i`, from the buckets that are left.
  unfoldable pub first_node : Buckets K R → Option (Node K R)
  first_node [] = none
  first_node ([] ∷ t) = first_node t
  first_node ((n ∷ c) ∷ t) = some n

  unfoldable pub next_in : Buckets K R → Chain K R → Option (Node K R)
  next_in t [] = none
  next_in t (n ∷ []) = first_node (drop (n.bucket + 1) t)
  next_in t (n ∷ m ∷ c) = some m

  -- hash_next_item: `none` is NULL, as `*ppnode` before and, with HASH_STATUS_KEY_NOT_FOUND, after.
  unfoldable pub hash_next_item : Buckets K R → Option ℕ → Option (Node K R)
  unfolding next_in
  hash_next_item t none = first_node t
  hash_next_item t (some a) = next_in t (deref a t)

  abbrev pub addrs : Chain K R → List ℕ
  addrs = map (λ n. n.addr)

  -- The inner loop over one chain, then the next bucket.
  unfoldable pub free_chains : Buckets K R → List ℕ
  free_chains [] = []
  free_chains (c ∷ t) = addrs c ++ free_chains t

  unfoldable pub clear_heads : Buckets K R → Buckets K R
  clear_heads [] = []
  clear_heads (c ∷ t) = [] ∷ clear_heads t

  -- hash_delete_all: the nodes are freed and the heads zeroed.
  unfoldable pub hash_delete_all : Buckets K R → Buckets K R × List ℕ
  unfolding free_chains clear_heads
  hash_delete_all t = (clear_heads t, free_chains t)

  abbrev pub recs : Chain K R → List R
  recs = map (λ n. n.rec)

  unfoldable pub free_records : Buckets K R → List R
  free_records [] = []
  free_records (c ∷ t) = recs c ++ free_records t

  -- hash_delete_all_free: the records are freed with the nodes.
  unfoldable pub hash_delete_all_free : Buckets K R → Buckets K R × List ℕ × List R
  unfolding free_chains clear_heads free_records
  hash_delete_all_free t = (clear_heads t, free_chains t, free_records t)

module _ {K : Type 0} ⦃fns : HashFns K⦄ {R : Type 0} where
  -- hash_insert: at the head of the chain, whether or not the key is there.
  unfoldable pub hash_insert : Buckets K R → ℕ → K → R → HashStatus × Buckets K R
  hash_insert t addr key rec =
      let b = fns.hash key in
      let node : Node K R = record { addr = addr; key = key; rec = rec; bucket = b } in
      (status_ok, set t b (node ∷ chain_at t b))

  -- hash_delete: the first node of the chain whose key compares equal.
  unfoldable pub hash_delete : Buckets K R → K → HashStatus × Buckets K R × List ℕ
  hash_delete t key = elim (unlink (λ n. fns.compare n.key key) (chain_at t (fns.hash key))) [
    | none ↦ (key_not_found, t, [])
    | some (n, c) ↦ (status_ok, set t (fns.hash key) c, n.addr ∷ [])
  ]

  unfoldable pub find_in : K → Chain K R → Option R
  find_in key [] = none
  find_in key (n ∷ c) = if fns.compare n.key key then some n.rec else find_in key c

  -- hash_find: `none` is HASH_STATUS_KEY_NOT_FOUND, with `*rec` left as it was.
  unfoldable pub hash_find : Buckets K R → K → Option R
  hash_find t key = find_in key (chain_at t (fns.hash key))

-- hash_initialise: `size` empty chains.
unfoldable pub hash_initialise : {K R : Type 0} ⦃fns : HashFns K⦄ → Buckets K R
hash_initialise ⦃fns⦄ = replicate fns.size []
