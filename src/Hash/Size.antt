-- ===== src/Hash/Size.antt =====
-- How many nodes the table has.
use iftopcolor.Shared.{
  ℕ, zero, suc, ◌+◌, ◌<◌, ◌≡◌, refl, false, List, [], ◌∷◌, flatten, none, some, arith, All, set,
  length, length-append, replicate, inl, inr,
}
use iftopcolor.Hash.Defs.{
  Node, Chain, Buckets, HashFns, chain_at, hash_insert, hash_delete, hash_find, find_in,
  hash_initialise, clear_heads,
}
use iftopcolor.Hash.Laws.{unlink_cases}
use iftopcolor.Hash.Place.{IsTable}

size-replicate : (N : Type 0) (n : ℕ) → length (flatten (replicate {A = List N} n [])) ≡ 0
unfolding flatten
size-replicate N zero = refl
size-replicate N (suc n) = size-replicate N n

module _ {K R : Type 0} where
  abbrev pub size : Buckets K R → ℕ
  size t = length (flatten t)

  size-set :
      (b : ℕ) (t : Buckets K R) (c : Chain K R)
      → b < length t
      → size (set t b c) + length (chain_at t b) ≡ size t + length c
  unfolding flatten
  size-set b [] c lt = absurd (omega arith)
  size-set zero (d ∷ t) c lt =
      omega (arith, length-append c (flatten t), length-append d (flatten t))
  size-set (suc b) (d ∷ t) c lt = omega (
    arith,
    length-append d (flatten (set t b c)),
    length-append d (flatten t),
    size-set b t c (omega arith),
  )

  pub size-clear_heads : (t : Buckets K R) → size (clear_heads t) ≡ 0
  unfolding flatten clear_heads
  size-clear_heads [] = refl
  size-clear_heads (c ∷ t) = size-clear_heads t

pub size-hash_initialise :
    (K R : Type 0) ⦃fns : HashFns K⦄ → size (hash_initialise {K = K} {R = R}) ≡ 0
unfolding hash_initialise
size-hash_initialise K R ⦃fns⦄ = size-replicate (Node K R) fns.size

module _ {K : Type 0} ⦃fns : HashFns K⦄ {R : Type 0} where
  pub size-hash_insert :
      (t : Buckets K R) (addr : ℕ) (k : K) (r : R)
      → IsTable t
      → size (hash_insert t addr k r).1 ≡ size t + 1
  unfolding hash_insert
  size-hash_insert t addr k r v =
      let b : ℕ = fns.hash k in
      let n : Node K R = record { addr = addr; key = k; rec = r; bucket = b } in
      omega (arith, size-set b t (n ∷ chain_at t b) (omega (arith, v.wide, fns.hash-lt-size k)))

  find_in-missed :
      (k : K) (c : Chain K R) → All (λ n. fns.compare n.key k ≡ false) c → find_in k c ≡ none
  unfolding find_in
  find_in-missed k [] h = refl
  find_in-missed k (n ∷ c) h = rw h.0 (find_in-missed k c h.1)

  -- A deletion of a key that a lookup finds.
  pub size-hash_delete :
      (t : Buckets K R) (k : K) (r : R)
      → IsTable t
      → hash_find t k ≡ some r
      → size (hash_delete t k).1 + 1 ≡ size t
  unfolding hash_delete hash_find
  size-hash_delete t k r v found =
      elim (unlink_cases (λ n. fns.compare n.key k) (chain_at t (fns.hash k))) [
        | inl (e, h) ↦
            let miss : hash_find t k ≡ none = find_in-missed k (chain_at t (fns.hash k)) h in
            absurd cc
        | inr (n, c', e, s) ↦
            let lt : fns.hash k < length t = omega (arith, v.wide, fns.hash-lt-size k) in
            let longer : length (chain_at t (fns.hash k)) ≡ length c' + 1 =
              rw
                (
                  s.whole,
                  s.left,
                  length-append s.before (n ∷ s.after),
                  length-append s.before s.after,
                )
                (omega arith) in
            rw (hash_delete, e) (omega (arith, size-set (fns.hash k) t c' lt))
      ]
