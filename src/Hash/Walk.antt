-- ===== src/Hash/Walk.antt =====
-- The loop `while (hash_next_item(h, &node) == HASH_STATUS_OK)` with a body that leaves the table
-- as it is.
use iftopcolor.Shared.{
  ℕ, zero, suc, ◌<◌, ◌≡◌, refl, sym, ◌∙◌, [], ◌∷◌, ◌++◌, flatten, Option, none, some, arith, first,
  append_assoc, length,
}
use iftopcolor.Hash.Defs.{Node, Chain, Buckets, HashFns, hash_next_item}
use iftopcolor.Hash.Place.{IsTable}
use iftopcolor.Hash.Iterate.{IsApart, hash_next_item-start, hash_next_item-middle}

-- The nodes that the loop visits, on fuel; `none` means that the fuel ran out.
unfoldable pub walk : {K R : Type 0} → ℕ → Buckets K R → Option (Node K R) → Option (Chain K R)
walk zero t p = none
walk (suc fuel) t none = some []
walk (suc fuel) t (some n) = elim (walk fuel t (hash_next_item t (some n.addr))) [
  | none ↦ none
  | some c ↦ some (n ∷ c)
]

module _ {K : Type 0} ⦃fns : HashFns K⦄ {R : Type 0} where
  walk_from :
      (fuel : ℕ) (t : Buckets K R) (c d : Chain K R)
      → IsTable t
      → IsApart (flatten t)
      → flatten t ≡ c ++ d
      → length d < fuel
      → walk fuel t (first d) ≡ some d
  unfolding walk
  walk_from zero t c d v apart e lt = absurd (omega arith)
  walk_from (suc fuel) t c [] v apart e lt = refl
  walk_from (suc fuel) t c (n ∷ d) v apart e lt = rw (
    hash_next_item-middle t c n d v apart e,
    walk_from fuel t (c ++ n ∷ []) d v apart (e ∙ sym (append_assoc c (n ∷ []) d)) (omega arith),
  )

  -- In a well-formed table whose nodes have different addresses, the iteration by hash_next_item
  -- from NULL ends and visits every node once, in the order of the buckets.
  pub walk-flatten :
      (t : Buckets K R)
      → IsTable t
      → IsApart (flatten t)
      → walk (suc (length (flatten t))) t (hash_next_item t none) ≡ some (flatten t)
  walk-flatten t v apart =
      rw (hash_next_item-start t) (walk_from _ t [] (flatten t) v apart refl (omega arith))
