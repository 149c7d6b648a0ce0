-- ===== src/AddrHash/Emptied.antt =====
-- What emptying a table gives back to the pool of its nodes.
use iftopcolor.Shared.{ℕ, ◌≡◌, refl, List, [], ◌∷◌, ◌++◌, flatten, arith, count-append}
use iftopcolor.Pool.{Pool, pool_free}
use iftopcolor.Pool.Owned.{IsOwned, pool_free-IsOwned}
use iftopcolor.Hash.{Node, Buckets, addrs, free_chains, clear_heads}
use iftopcolor.AddrHash.Defs.{free_nodes}

free_nodes-IsOwned :
    (live freed : List ℕ) (pool : Pool)
    → IsOwned (live ++ freed) pool
    → IsOwned live (free_nodes freed pool)
unfolding free_nodes
free_nodes-IsOwned live [] pool o = λ a. omega (arith, o a, count-append a live [])
free_nodes-IsOwned live (x ∷ freed) pool o = free_nodes-IsOwned live freed (pool_free x pool) (
    pool_free-IsOwned (live ++ x ∷ freed) (live ++ freed) pool x
      (λ a. omega (arith, count-append a live (x ∷ freed), count-append a live freed)) o)

module _ {K R : Type 0} where
  addrs-append : (c d : List (Node K R)) → addrs (c ++ d) ≡ addrs c ++ addrs d
  addrs-append [] d = refl
  addrs-append (n ∷ c) d = rw (addrs-append c d) refl

  free_chains-flatten : (t : Buckets K R) → free_chains t ≡ addrs (flatten t)
  unfolding free_chains flatten
  free_chains-flatten [] = refl
  free_chains-flatten (c ∷ t) = rw (addrs-append c (flatten t), free_chains-flatten t) refl

  pub flatten-clear_heads : (t : Buckets K R) → flatten (clear_heads t) ≡ []
  unfolding clear_heads flatten
  flatten-clear_heads [] = refl
  flatten-clear_heads (c ∷ t) = flatten-clear_heads t

  -- Freeing the nodes of a table gives the pool back what the table had of it.
  pub free_chains-IsOwned :
      (live : List ℕ) (t : Buckets K R) (pool : Pool)
      → IsOwned (live ++ addrs (flatten t)) pool
      → IsOwned live (free_nodes (free_chains t) pool)
  free_chains-IsOwned live t pool o =
      free_nodes-IsOwned live (free_chains t) pool (rw (free_chains-flatten t) o)
