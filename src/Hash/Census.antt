-- ===== src/Hash/Census.antt =====
-- What an insertion adds to the nodes of the table, counted by any of their numbers.
use iftopcolor.Shared.{
  ℕ, zero, suc, ◌+◌, ◌<◌, ◌≡◌, [], ◌∷◌, ◌++◌, flatten, arith, set, length, map, count, to_nat, ◌==◌,
}
use iftopcolor.Hash.Defs.{Node, Chain, Buckets, HashFns, chain_at, hash_insert}
use iftopcolor.Hash.Place.{IsTable}

module _ {K R : Type 0} (f : Node K R → ℕ) (a : ℕ) where
  count-map_append :
      (c d : Chain K R) → count a (map f (c ++ d)) ≡ count a (map f c) + count a (map f d)
  count-map_append [] d = omega arith
  count-map_append (n ∷ c) d = omega (arith, count-map_append c d)

  count-flatten-set :
      (b : ℕ) (t : Buckets K R) (c : Chain K R)
      → b < length t
      → count a (map f (flatten (set t b c))) + count a (map f (chain_at t b))
        ≡ count a (map f (flatten t)) + count a (map f c)
  unfolding flatten
  count-flatten-set b [] c lt = absurd (omega arith)
  count-flatten-set zero (d ∷ t) c lt =
      omega (arith, count-map_append c (flatten t), count-map_append d (flatten t))
  count-flatten-set (suc b) (d ∷ t) c lt = omega (
    arith,
    count-map_append d (flatten (set t b c)),
    count-map_append d (flatten t),
    count-flatten-set b t c (omega arith),
  )

module _ {K : Type 0} ⦃fns : HashFns K⦄ {R : Type 0} where
  pub count-hash_insert :
      (f : Node K R → ℕ) (a : ℕ) (t : Buckets K R) (addr : ℕ) (k : K) (r : R)
      → IsTable t
      → count a (map f (flatten (hash_insert t addr k r).1))
        ≡ to_nat (f (record { addr = addr; key = k; rec = r; bucket = fns.hash k }) == a)
          + count a (map f (flatten t))
  unfolding hash_insert
  count-hash_insert f a t addr k r v =
      let b : ℕ = fns.hash k in
      let n : Node K R = record { addr = addr; key = k; rec = r; bucket = b } in
      omega (
        arith,
        count-flatten-set f a b t (n ∷ chain_at t b) (omega (arith, v.wide, fns.hash-lt-size k)),
      )
