-- ===== src/Hash/Iterate.antt =====
-- The walk by `hash_next_item` from NULL on, node by node.
use iftopcolor.Shared.{
  ℕ, suc, ◌+◌, ◌-◌, ◌≤◌, ◌≡◌, refl, ap, ◌∙◌, [], ◌∷◌, ◌++◌, flatten, Option, none, some, arith, All,
  drop, count, first, rest, ◌==◌, to_nat, ==_refl,
}
use iftopcolor.Hash.Defs.{
  Node, Chain, Buckets, HashFns, hash_next_item, next_in, deref, or_chain, suffix_at, first_node,
  addrs,
}
use iftopcolor.Hash.Place.{IsPlacedFrom, IsTable, IsAt}

module _ {K R : Type 0} where
  pub suffix_at-append_left :
      (a : ℕ) (c d : Chain K R) (n : Node K R) (s : Chain K R)
      → suffix_at a c ≡ n ∷ s
      → suffix_at a (c ++ d) ≡ n ∷ (s ++ d)
  unfolding suffix_at
  suffix_at-append_left a [] d n s e = cc
  suffix_at-append_left a (m ∷ c) d n s e = ground (arith, suffix_at-append_left a c d n s)

  pub suffix_at-append_right :
      (a : ℕ) (c d : Chain K R) → suffix_at a c ≡ [] → suffix_at a (c ++ d) ≡ suffix_at a d
  unfolding suffix_at
  suffix_at-append_right a [] d e = refl
  suffix_at-append_right a (m ∷ c) d e = ground (arith, suffix_at-append_right a c d)

  first_node-flatten : (t : Buckets K R) → first_node t ≡ first (flatten t)
  unfolding first_node flatten
  first_node-flatten [] = refl
  first_node-flatten ([] ∷ t) = first_node-flatten t
  first_node-flatten ((n ∷ c) ∷ t) = refl

  -- `next_in` with the buckets counted from `i`.
  next_from : ℕ → Buckets K R → Chain K R → Option (Node K R)
  next_from i t [] = none
  next_from i t (n ∷ []) = first_node (drop (n.bucket + 1 - i) t)
  next_from i t (n ∷ m ∷ c) = some m

  -- No two nodes at one address.
  abbrev pub IsApart : Chain K R → Type 0
  IsApart c = (a : ℕ) → count a (addrs c) ≤ 1

  pub suffix_at-found :
      (c : Chain K R) (n : Node K R) (d : Chain K R)
      → count n.addr (addrs c) ≡ 0
      → suffix_at n.addr (c ++ n ∷ d) ≡ n ∷ d
  unfolding suffix_at
  suffix_at-found [] n d h = rw (==_refl n.addr)
  suffix_at-found (m ∷ c) n d h = ground (arith, suffix_at-found c n d)

  pub count-addrs_middle :
      (a : ℕ) (c : Chain K R) (n : Node K R) (d : Chain K R)
      → count a (addrs (c ++ n ∷ d)) ≡ count a (addrs c) + to_nat (n.addr == a) + count a (addrs d)
  count-addrs_middle a [] n d = omega arith
  count-addrs_middle a (m ∷ c) n d = omega (arith, count-addrs_middle a c n d)

module _ {K : Type 0} ⦃fns : HashFns K⦄ {R : Type 0} where
  suffix_at-bucket :
      (i a : ℕ) (c : Chain K R) (n : Node K R) (s : Chain K R)
      → All (IsAt i) c
      → suffix_at a c ≡ n ∷ s
      → n.bucket ≡ i
  unfolding suffix_at
  suffix_at-bucket i a [] n s h e = cc
  suffix_at-bucket i a (m ∷ c) n s h e = ground (arith, suffix_at-bucket i a c n s h.1)

  -- A pointer into a later bucket: the buckets before it do not count.
  deref-bucket :
      (i a : ℕ) (t : Buckets K R) (n : Node K R) (s : Chain K R)
      → IsPlacedFrom i t
      → deref a t ≡ n ∷ s
      → i ≤ n.bucket
  unfolding deref or_chain
  deref-bucket i a [] n s h e = cc
  deref-bucket i a (c ∷ t) n s h e = split (suffix_at a c) refl (deref-bucket (suc i) a t n s h.1)
    where
      split :
          (r : Chain K R)
          → suffix_at a c ≡ r
          → (deref a t ≡ n ∷ s → suc i ≤ n.bucket)
          → i ≤ n.bucket
      split [] q ih = ground (arith, ih)
      split (m ∷ r) q ih = ground (arith, suffix_at-bucket i a c m r h.0 q)

  next_from-later :
      (i a : ℕ) (c : Chain K R) (t : Buckets K R)
      → IsPlacedFrom (suc i) t
      → next_from i (c ∷ t) (deref a t) ≡ next_from (suc i) t (deref a t)
  unfolding next_from
  next_from-later i a c t h = split (deref a t) refl
    where
      split :
          (r : Chain K R)
          → deref a t ≡ r
          → next_from i (c ∷ t) (deref a t) ≡ next_from (suc i) t (deref a t)
      split [] e = rw e
      split (n ∷ m ∷ r) e = rw e
      split (n ∷ []) e = rw (e, shift (deref-bucket (suc i) a t n [] h e))
        where
          shift : suc i ≤ n.bucket → n.bucket + 1 - i ≡ suc (n.bucket + 1 - suc i)
          shift le = omega arith

  next_from-suffix :
      (i a : ℕ) (t : Buckets K R)
      → IsPlacedFrom i t
      → next_from i t (deref a t) ≡ first (rest (suffix_at a (flatten t)))
  unfolding deref flatten next_from suffix_at or_chain
  next_from-suffix i a [] h = refl
  next_from-suffix i a (c ∷ t) h = split (suffix_at a c) refl (next_from-suffix (suc i) a t h.1)
    where
      split :
          (s : Chain K R)
          → suffix_at a c ≡ s
          → next_from (suc i) t (deref a t) ≡ first (rest (suffix_at a (flatten t)))
          → next_from i (c ∷ t) (or_chain (suffix_at a c) (deref a t))
            ≡ first (rest (suffix_at a (c ++ flatten t)))
      split [] e ih =
          rw (e, suffix_at-append_right a c (flatten t) e) (next_from-later i a c t h.1 ∙ ih)
      split (n ∷ []) e ih =
          rw
            (
              e,
              suffix_at-append_left a c (flatten t) n [] e,
              one (suffix_at-bucket i a c n [] h.0 e),
            )
            (first_node-flatten t)
        where
          one : n.bucket ≡ i → n.bucket + 1 - i ≡ 1
          one q = omega arith
      split (n ∷ m ∷ s) e ih = rw (e, suffix_at-append_left a c (flatten t) n (m ∷ s) e)

  next_in-from : (t : Buckets K R) (s : Chain K R) → next_in t s ≡ next_from 0 t s
  unfolding next_in next_from
  next_in-from t [] = refl
  next_in-from t (n ∷ []) =
      let e : n.bucket + 1 ≡ n.bucket + 1 - 0 = omega arith in
      ap (λ (k : ℕ). first_node (drop k t)) e
  next_in-from t (n ∷ m ∷ s) = refl

  -- One step of the walk from a pointer: the node that follows in the order of the buckets.
  pub hash_next_item-suffix :
      (t : Buckets K R) (a : ℕ)
      → IsTable t
      → hash_next_item t (some a) ≡ first (rest (suffix_at a (flatten t)))
  unfolding hash_next_item
  hash_next_item-suffix t a v = next_in-from t (deref a t) ∙ next_from-suffix 0 a t v.placed

  pub hash_next_item-start : (t : Buckets K R) → hash_next_item t none ≡ first (flatten t)
  unfolding hash_next_item
  hash_next_item-start t = first_node-flatten t

  -- The step from a node that stands in the walk between `c` and `d`.
  pub hash_next_item-middle :
      (t : Buckets K R) (c : Chain K R) (n : Node K R) (d : Chain K R)
      → IsTable t
      → IsApart (flatten t)
      → flatten t ≡ c ++ n ∷ d
      → hash_next_item t (some n.addr) ≡ first d
  hash_next_item-middle t c n d v apart e =
      rw (hash_next_item-suffix t n.addr v, e, suffix_at-found c n d alone)
    where
      alone : count n.addr (addrs c) ≡ 0
      alone =
          ground (arith, count-addrs_middle n.addr c n d, (rw e at apart) n.addr, ==_refl n.addr)
