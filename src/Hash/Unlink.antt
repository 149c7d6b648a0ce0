-- ===== src/Hash/Unlink.antt =====
-- Deleting the node that a pointer leads to.
use iftopcolor.Shared.{
  ℕ, zero, suc, ◌+◌, ◌<◌, ◌≤◌, ◌≡◌, refl, sym, ◌∙◌, [], ◌∷◌, ◌++◌, flatten, Option, none, some,
  arith, set, count, to_nat, ◌==◌, if◌then◌else◌, ==_refl, All, ◌≢◌, append-nil,
}
use iftopcolor.Hash.Defs.{
  Node, Chain, Buckets, HashFns, status_ok, chain_at, unlink, hash_delete_node, addrs,
}
use iftopcolor.Hash.Place.{IsTable, IsPlacedFrom, IsAt}
use iftopcolor.Hash.Iterate.{IsApart, count-addrs_middle}

module _ {K R : Type 0} where
  drop_addr : ℕ → Chain K R → Chain K R
  drop_addr a [] = []
  drop_addr a (n ∷ c) = if n.addr == a then c else n ∷ drop_addr a c

  in_bucket : ℕ → Chain K R → Chain K R
  in_bucket b [] = []
  in_bucket b (n ∷ c) = if n.bucket == b then n ∷ in_bucket b c else in_bucket b c

  in_bucket-append :
      (b : ℕ) (c d : Chain K R) → in_bucket b (c ++ d) ≡ in_bucket b c ++ in_bucket b d
  unfolding in_bucket
  in_bucket-append b [] d = refl
  in_bucket-append b (n ∷ c) d = ground (arith, in_bucket-append b c d)

  drop_addr-middle :
      (c : Chain K R) (n : Node K R) (d : Chain K R)
      → count n.addr (addrs c) ≡ 0
      → drop_addr n.addr (c ++ n ∷ d) ≡ c ++ d
  unfolding drop_addr
  drop_addr-middle [] n d h = rw (==_refl n.addr)
  drop_addr-middle (m ∷ c) n d h = ground (arith, drop_addr-middle c n d)

  drop_addr-absent :
      (a : ℕ) (c d : Chain K R) → count a (addrs c) ≡ 0 → drop_addr a (c ++ d) ≡ c ++ drop_addr a d
  unfolding drop_addr
  drop_addr-absent a [] d h = refl
  drop_addr-absent a (m ∷ c) d h = ground (arith, drop_addr-absent a c d)

  unlink-drop_addr :
      (a : ℕ) (c : Chain K R) (n : Node K R) (c' d : Chain K R)
      → unlink (λ m. m.addr == a) c ≡ some (n, c')
      → drop_addr a (c ++ d) ≡ c' ++ d
  unfolding drop_addr unlink
  unlink-drop_addr a [] n c' d e = cc
  unlink-drop_addr a (m ∷ c) n c' d e =
      split (unlink (λ k. k.addr == a) c) refl (λ n' r. unlink-drop_addr a c n' r d)
    where
      split :
          (o : Option (Node K R × Chain K R))
          → unlink (λ k. k.addr == a) c ≡ o
          → ((n' : Node K R) (r : Chain K R)
              → unlink (λ k. k.addr == a) c ≡ some (n', r)
              → drop_addr a (c ++ d) ≡ r ++ d)
          → (if m.addr == a then c ++ d else m ∷ drop_addr a (c ++ d)) ≡ c' ++ d
      split none q ih = ground arith
      split (some (n', r)) q ih = ground (arith, ih n' r)

  unlink-middle :
      (c : Chain K R) (n : Node K R) (d : Chain K R)
      → count n.addr (addrs c) ≡ 0
      → unlink (λ m. m.addr == n.addr) (c ++ n ∷ d) ≡ some (n, c ++ d)
  unfolding unlink
  unlink-middle [] n d h = rw (==_refl n.addr)
  unlink-middle (m ∷ c) n d h = ground (arith, unlink-middle c n d)

  pub count-addrs_append :
      (a : ℕ) (c d : Chain K R) → count a (addrs (c ++ d)) ≡ count a (addrs c) + count a (addrs d)
  count-addrs_append a [] d = omega arith
  count-addrs_append a (m ∷ c) d = omega (arith, count-addrs_append a c d)

  unlink-count :
      (a : ℕ) (c : Chain K R) (n : Node K R) (c' : Chain K R)
      → unlink (λ m. m.addr == a) c ≡ some (n, c')
      → 1 ≤ count a (addrs c)
  unfolding unlink
  unlink-count a [] n c' e = cc
  unlink-count a (m ∷ c) n c' e =
      split (unlink (λ k. k.addr == a) c) refl (λ n' r. unlink-count a c n' r)
    where
      split :
          (o : Option (Node K R × Chain K R))
          → unlink (λ k. k.addr == a) c ≡ o
          → ((n' : Node K R) (r : Chain K R)
              → unlink (λ k. k.addr == a) c ≡ some (n', r)
              → 1 ≤ count a (addrs c))
          → 1 ≤ to_nat (m.addr == a) + count a (addrs c)
      split none q ih = ground arith
      split (some (n', r)) q ih = omega (arith, ih n' r q)

  count-chain_at :
      (a b : ℕ) (t : Buckets K R) → count a (addrs (chain_at t b)) ≤ count a (addrs (flatten t))
  unfolding flatten
  count-chain_at a b [] = omega arith
  count-chain_at a zero (c ∷ t) = omega (arith, count-addrs_append a c (flatten t))
  count-chain_at a (suc b) (c ∷ t) =
      omega (arith, count-addrs_append a c (flatten t), count-chain_at a b t)

  flatten-set_unlinked :
      (a b : ℕ) (t : Buckets K R) (n : Node K R) (c' : Chain K R)
      → count a (addrs (flatten t)) ≤ 1
      → unlink (λ m. m.addr == a) (chain_at t b) ≡ some (n, c')
      → flatten (set t b c') ≡ drop_addr a (flatten t)
  unfolding flatten
  flatten-set_unlinked a b [] n c' one e = absurd (omega (arith, unlink-count a [] n c' e))
  flatten-set_unlinked a zero (c ∷ t) n c' one e = sym (unlink-drop_addr a c n c' (flatten t) e)
  flatten-set_unlinked a (suc b) (c ∷ t) n c' one e = rw (
    drop_addr-absent a c (flatten t) (
        omega (
          arith,
          count-addrs_append a c (flatten t),
          count-chain_at a b t,
          unlink-count a (chain_at t b) n c' e,
        )),
    flatten-set_unlinked a b t n c' (omega (arith, count-addrs_append a c (flatten t))) e,
  )

module _ {K : Type 0} ⦃fns : HashFns K⦄ {R : Type 0} where
  in_bucket_away : (i b : ℕ) (c : Chain K R) → All (IsAt i) c → i ≢ b → in_bucket b c ≡ []
  unfolding in_bucket
  in_bucket_away i b [] h ne = refl
  in_bucket_away i b (n ∷ c) h ne = ground (arith, in_bucket_away i b c h.1 ne)

  in_bucket-All : (i b : ℕ) (c : Chain K R) → All (IsAt i) c → i ≡ b → in_bucket b c ≡ c
  unfolding in_bucket
  in_bucket-All i b [] h e = refl
  in_bucket-All i b (n ∷ c) h e = ground (arith, in_bucket-All i b c h.1 e)

  in_bucket_below :
      (i b : ℕ) (t : Buckets K R) → IsPlacedFrom i t → b < i → in_bucket b (flatten t) ≡ []
  unfolding in_bucket flatten
  in_bucket_below i b [] h lt = refl
  in_bucket_below i b (c ∷ t) h lt = rw (
    in_bucket-append b c (flatten t),
    in_bucket_away i b c h.0 (omega arith),
    in_bucket_below (suc i) b t h.1 (omega arith),
  )

  in_bucket-flatten :
      (i b j : ℕ) (t : Buckets K R)
      → IsPlacedFrom i t
      → b ≡ i + j
      → in_bucket b (flatten t) ≡ chain_at t j
  unfolding flatten in_bucket
  in_bucket-flatten i b j [] h e = refl
  in_bucket-flatten i b zero (c ∷ t) h e = rw (
    in_bucket-append b c (flatten t),
    in_bucket-All i b c h.0 (omega arith),
    in_bucket_below (suc i) b t h.1 (omega arith),
    append-nil,
  )
  in_bucket-flatten i b (suc j) (c ∷ t) h e =
      rw (in_bucket-append b c (flatten t), in_bucket_away i b c h.0 (omega arith))
        (in_bucket-flatten (suc i) b j t h.1 (omega arith))

  count-in_bucket : (a b : ℕ) (c : Chain K R) → count a (addrs (in_bucket b c)) ≤ count a (addrs c)
  unfolding in_bucket
  count-in_bucket a b [] = omega arith
  count-in_bucket a b (n ∷ c) = ground (arith, count-in_bucket a b c)

  -- In a well-formed table whose nodes have different addresses, hash_delete_node of a node that
  -- the iteration visits answers HASH_STATUS_OK, takes that node out of the iteration and no
  -- other, and frees it alone.
  pub hash_delete_node-middle :
      (t : Buckets K R) (c : Chain K R) (n : Node K R) (d : Chain K R)
      → IsTable t
      → IsApart (flatten t)
      → flatten t ≡ c ++ n ∷ d
      → let r = hash_delete_node t n in
        (r.0 ≡ status_ok) × (flatten r.1 ≡ c ++ d) × (r.2 ≡ n.addr ∷ [])
  unfolding hash_delete_node in_bucket
  hash_delete_node-middle t c n d v apart e = rw (hash_delete_node, found) (refl, cleared, refl)
    where
      alone : count n.addr (addrs c) ≡ 0
      alone =
          ground (arith, count-addrs_middle n.addr c n d, (rw e at apart) n.addr, ==_refl n.addr)

      chain : chain_at t n.bucket ≡ in_bucket n.bucket c ++ n ∷ in_bucket n.bucket d
      chain =
          sym (in_bucket-flatten 0 n.bucket n.bucket t v.placed (omega arith))
          ∙ rw (e, in_bucket-append n.bucket c (n ∷ d)) (rw (in_bucket, ==_refl n.bucket))

      found :
          unlink (λ m. m.addr == n.addr) (chain_at t n.bucket)
          ≡ some (n, in_bucket n.bucket c ++ in_bucket n.bucket d)
      found = rw chain (
          unlink-middle (in_bucket n.bucket c) n (in_bucket n.bucket d)
            (omega (arith, alone, count-in_bucket n.addr n.bucket c)))

      cleared : flatten (set t n.bucket (in_bucket n.bucket c ++ in_bucket n.bucket d)) ≡ c ++ d
      cleared =
          flatten-set_unlinked n.addr n.bucket t n _ (apart n.addr) found
          ∙ rw e (drop_addr-middle c n d alone)
