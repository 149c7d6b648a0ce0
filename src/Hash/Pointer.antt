-- ===== src/Hash/Pointer.antt =====
-- Nodes reached by a pointer while the walk goes on: reading one, and changing its record.
use iftopcolor.Shared.{
  ℕ, suc, ◌≡◌, refl, ap, ◌∙◌, [], ◌∷◌, ◌++◌, flatten, Option, some, arith, first, length, count,
  ◌==◌, if◌then◌else◌, ==_refl, All,
}
use iftopcolor.Hash.Defs.{Node, Chain, Buckets, HashFns, deref, suffix_at, or_chain, addrs}
use iftopcolor.Hash.Place.{IsTable, IsPlacedFrom, IsAt}
use iftopcolor.Hash.Iterate.{suffix_at-append_left, suffix_at-append_right, suffix_at-found}

module _ {K R : Type 0} where
  -- The node that a pointer leads to.
  unfoldable pub node_at : ℕ → Buckets K R → Option (Node K R)
  node_at a t = first (deref a t)

  -- A write to the record of the node at an address.
  unfoldable pub store_in : ℕ → R → Chain K R → Chain K R
  store_in a r [] = []
  store_in a r (n ∷ c) = (if n.addr == a then record n { rec = r } else n) ∷ store_in a r c

  unfoldable pub store_rec : ℕ → R → Buckets K R → Buckets K R
  unfolding store_in
  store_rec a r [] = []
  store_rec a r (c ∷ t) = store_in a r c ∷ store_rec a r t

  node_at-suffix : (a : ℕ) (t : Buckets K R) → node_at a t ≡ first (suffix_at a (flatten t))
  unfolding node_at deref flatten suffix_at or_chain
  node_at-suffix a [] = refl
  node_at-suffix a (c ∷ t) = split (suffix_at a c) refl (node_at-suffix a t)
    where
      split :
          (s : Chain K R)
          → suffix_at a c ≡ s
          → first (deref a t) ≡ first (suffix_at a (flatten t))
          → first (or_chain (suffix_at a c) (deref a t)) ≡ first (suffix_at a (c ++ flatten t))
      split [] e ih = rw (e, suffix_at-append_right a c (flatten t) e) ih
      split (n ∷ s) e ih = rw (e, suffix_at-append_left a c (flatten t) n s e)

  pub node_at-middle :
      (t : Buckets K R) (c : Chain K R) (n : Node K R) (d : Chain K R)
      → count n.addr (addrs c) ≡ 0
      → flatten t ≡ c ++ n ∷ d
      → node_at n.addr t ≡ some n
  node_at-middle t c n d alone e = rw (node_at-suffix n.addr t, e, suffix_at-found c n d alone)

  store_in-append :
      (a : ℕ) (r : R) (c d : Chain K R) → store_in a r (c ++ d) ≡ store_in a r c ++ store_in a r d
  unfolding store_in
  store_in-append a r [] d = refl
  store_in-append a r (n ∷ c) d = rw (store_in-append a r c d)

  flatten-store_rec :
      (a : ℕ) (r : R) (t : Buckets K R) → flatten (store_rec a r t) ≡ store_in a r (flatten t)
  unfolding store_rec flatten
  flatten-store_rec a r [] = refl
  flatten-store_rec a r (c ∷ t) = rw (flatten-store_rec a r t, store_in-append a r c (flatten t))

  store_in-absent : (a : ℕ) (r : R) (c : Chain K R) → count a (addrs c) ≡ 0 → store_in a r c ≡ c
  unfolding store_in
  store_in-absent a r [] h = refl
  store_in-absent a r (n ∷ c) h = ground (arith, store_in-absent a r c)

  pub store_rec-middle :
      (t : Buckets K R) (c : Chain K R) (n : Node K R) (d : Chain K R) (r : R)
      → count n.addr (addrs c) ≡ 0
      → count n.addr (addrs d) ≡ 0
      → flatten t ≡ c ++ n ∷ d
      → flatten (store_rec n.addr r t) ≡ c ++ record n { rec = r } ∷ d
  unfolding store_in
  store_rec-middle t c n d r hc hd e =
      rw
        (
          flatten-store_rec n.addr r t,
          e,
          store_in-append n.addr r c (n ∷ d),
          store_in-absent n.addr r c hc,
        )
        (rw (store_in, ==_refl n.addr, store_in-absent n.addr r d hd))

module _ {K : Type 0} ⦃fns : HashFns K⦄ {R : Type 0} where
  store_in-IsAt : (i a : ℕ) (r : R) (c : Chain K R) → All (IsAt i) c → All (IsAt i) (store_in a r c)
  unfolding store_in
  store_in-IsAt i a r [] h = tt
  store_in-IsAt i a r (n ∷ c) h = (ground (arith, h.0), store_in-IsAt i a r c h.1)

  store_rec-IsPlaced :
      (i a : ℕ) (r : R) (t : Buckets K R) → IsPlacedFrom i t → IsPlacedFrom i (store_rec a r t)
  unfolding store_rec
  store_rec-IsPlaced i a r [] h = tt
  store_rec-IsPlaced i a r (c ∷ t) h =
      (store_in-IsAt i a r c h.0, store_rec-IsPlaced (suc i) a r t h.1)

  length-store_rec : (a : ℕ) (r : R) (t : Buckets K R) → length (store_rec a r t) ≡ length t
  unfolding store_rec
  length-store_rec a r [] = refl
  length-store_rec a r (c ∷ t) = ap suc (length-store_rec a r t)

  pub store_rec-IsTable : (a : ℕ) (r : R) (t : Buckets K R) → IsTable t → IsTable (store_rec a r t)
  store_rec-IsTable a r t v = record {
    wide = length-store_rec a r t ∙ v.wide;
    placed = store_rec-IsPlaced 0 a r t v.placed;
  }
