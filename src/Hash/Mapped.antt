-- ===== src/Hash/Mapped.antt =====
-- Writes to the records of a table that leave its chains as they are: a loop over all records, or a
-- write through a pointer to a record, which changes it wherever a node refers to it.
use iftopcolor.Shared.{
  ℕ, zero, suc, ◌≡◌, refl, ap, ◌∙◌, List, [], ◌∷◌, ◌++◌, flatten, Option, none, some, Bool-cases,
  inl, inr, map, length, first, rest, All,
}
use iftopcolor.Hash.Defs.{Node, Chain, Buckets, HashFns, chain_at, hash_find}
use iftopcolor.Hash.Place.{IsAt, IsPlacedFrom}
use iftopcolor.Hash.Records.{matching, records, hash_find-first}
use iftopcolor.Hash.Replace.{IsMap}

module _ {K R : Type 0} where
  unfoldable pub map_chain : (R → R) → Chain K R → Chain K R
  map_chain f [] = []
  map_chain f (n ∷ c) = record n { rec = f n.rec } ∷ map_chain f c

  unfoldable pub map_recs : (R → R) → Buckets K R → Buckets K R
  map_recs f [] = []
  map_recs f (c ∷ t) = map_chain f c ∷ map_recs f t

module _ {K R : Type 0} (f : R → R) where
  map_chain-append : (c d : Chain K R) → map_chain f (c ++ d) ≡ map_chain f c ++ map_chain f d
  unfolding map_chain
  map_chain-append [] d = refl
  map_chain-append (n ∷ c) d = rw (map_chain-append c d) refl

  flatten-map_recs : (t : Buckets K R) → flatten (map_recs f t) ≡ map_chain f (flatten t)
  unfolding flatten map_recs map_chain
  flatten-map_recs [] = refl
  flatten-map_recs (c ∷ t) = rw (flatten-map_recs t, map_chain-append c (flatten t)) refl

  -- What the nodes show of themselves, when the write leaves it as it is.
  map-map_chain :
      (g : Node K R → ℕ) (c : Chain K R)
      → ((n : Node K R) → g (record n { rec = f n.rec }) ≡ g n)
      → map g (map_chain f c) ≡ map g c
  unfolding map_chain
  map-map_chain g [] same = refl
  map-map_chain g (n ∷ c) same = rw (same n, map-map_chain g c same) refl

  pub map-map_recs :
      (g : Node K R → ℕ) (t : Buckets K R)
      → ((n : Node K R) → g (record n { rec = f n.rec }) ≡ g n)
      → map g (flatten (map_recs f t)) ≡ map g (flatten t)
  map-map_recs g t same = rw (flatten-map_recs t) (map-map_chain g (flatten t) same)

  chain_at-map_recs :
      (t : Buckets K R) (b : ℕ) → chain_at (map_recs f t) b ≡ map_chain f (chain_at t b)
  unfolding map_recs map_chain
  chain_at-map_recs [] b = refl
  chain_at-map_recs (c ∷ t) zero = refl
  chain_at-map_recs (c ∷ t) (suc b) = chain_at-map_recs t b

  length-map_recs : (t : Buckets K R) → length (map_recs f t) ≡ length t
  unfolding map_recs
  length-map_recs [] = refl
  length-map_recs (c ∷ t) = ap suc (length-map_recs t)

module _ {R : Type 0} (f : R → R) where
  abbrev pub map_found : Option R → Option R
  map_found none = none
  map_found (some r) = some (f r)

  first-map : (l : List R) → first (map f l) ≡ map_found (first l)
  first-map [] = refl
  first-map (r ∷ l) = refl

  rest-map : (l : List R) → rest l ≡ [] → rest (map f l) ≡ []
  rest-map [] e = refl
  rest-map (r ∷ l) e = rw e refl

module _ {K : Type 0} ⦃fns : HashFns K⦄ {R : Type 0} (f : R → R) where
  matching-map_chain : (q : K) (c : Chain K R) → matching q (map_chain f c) ≡ map f (matching q c)
  unfolding matching map_chain
  matching-map_chain q [] = refl
  matching-map_chain q (n ∷ c) = elim (Bool-cases (fns.compare n.key q)) [
    | inl e ↦ rw (e, matching-map_chain q c) refl
    | inr e ↦ rw e (matching-map_chain q c)
  ]

  records-map_recs : (t : Buckets K R) (q : K) → records (map_recs f t) q ≡ map f (records t q)
  unfolding records
  records-map_recs t q = rw (records, chain_at-map_recs f t (fns.hash q)) (matching-map_chain q _)

  pub hash_find-map_recs :
      (t : Buckets K R) (q : K) → hash_find (map_recs f t) q ≡ map_found f (hash_find t q)
  hash_find-map_recs t q =
      rw (hash_find-first (map_recs f t) q, hash_find-first t q, records-map_recs t q)
        (first-map f (records t q))

  map_chain-IsAt : (b : ℕ) (c : Chain K R) → All (IsAt b) c → All (IsAt b) (map_chain f c)
  unfolding map_chain
  map_chain-IsAt b [] v = tt
  map_chain-IsAt b (n ∷ c) v = (v.0, map_chain-IsAt b c v.1)

  map_recs-IsPlaced : (b : ℕ) (t : Buckets K R) → IsPlacedFrom b t → IsPlacedFrom b (map_recs f t)
  unfolding map_recs
  map_recs-IsPlaced b [] v = tt
  map_recs-IsPlaced b (c ∷ t) v = (map_chain-IsAt b c v.0, map_recs-IsPlaced (suc b) t v.1)

  pub map_recs-IsMap : (t : Buckets K R) → IsMap t → IsMap (map_recs f t)
  map_recs-IsMap t v = record {
    table = record {
      wide = length-map_recs f t ∙ v.table.wide;
      placed = map_recs-IsPlaced 0 t v.table.placed;
    };
    once = λ q. rw (records-map_recs t q) (rest-map f (records t q) (v.once q));
  }
