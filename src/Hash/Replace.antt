-- ===== src/Hash/Replace.antt =====
-- A table in which no key has two records, and the steps by which its clients keep it so: look a
-- key up, delete the entry that is there, insert the new one.
use iftopcolor.Shared.{
  ℕ, ◌≡◌, refl, ap, ◌∙◌, sym, List, [], ◌∷◌, none, some, arith, if◌then◌else◌, first, rest,
  Option-cases, inl, inr,
}
use iftopcolor.Hash.Defs.{
  HashFns, Buckets, hash_find, hash_insert, hash_delete, hash_initialise, clear_heads,
}
use iftopcolor.Hash.Place.{
  IsTable, hash_insert-IsTable, hash_delete-IsTable, hash_initialise-IsTable, clear_heads-IsTable,
}
use iftopcolor.Hash.Records.{
  records, hash_find-first, records-hash_insert, hash_delete-Deletes, records-hash_initialise,
  records-clear_heads, records_congr,
}

first-none : {R : Type 0} (l : List R) → first l ≡ none → l ≡ []
first-none [] e = refl
first-none (x ∷ l) e = cc

module _ {K : Type 0} ⦃fns : HashFns K⦄ {R : Type 0} where
  pub record IsMap (t : Buckets K R) : Type 0 where
    pub table : IsTable t
    pub once : (k : K) → rest (records t k) ≡ []

  pub hash_initialise-IsMap : IsMap (hash_initialise {R = R})
  hash_initialise-IsMap = record {
    table = hash_initialise-IsTable;
    once = λ k. ap rest (records-hash_initialise k);
  }

  pub clear_heads-IsMap : (t : Buckets K R) → IsMap t → IsMap (clear_heads t)
  clear_heads-IsMap t v = record {
    table = clear_heads-IsTable t v.table;
    once = λ k. ap rest (records-clear_heads t k);
  }

  -- The table with the entry of a key taken out, if it has one.
  abbrev pub without : Buckets K R → K → Buckets K R
  without t k = elim (hash_find t k) [ some existing ↦ (hash_delete t k).1 | none ↦ t ]

  -- The records of two keys that compare equal.
  module _ (t : Buckets K R) (v : IsMap t) (k q : K) where
    records-without : records (without t k) q ≡ (if fns.compare k q then [] else records t q)
    records-without = elim (Option-cases (hash_find t k)) [
      | inl e ↦
          rw (without, e)
            (ground (
              arith,
              first-none (records t k) (sym (hash_find-first t k) ∙ e),
              records_congr t k q,
            ))
      | inr (r, e) ↦
          rw (without, e) ((hash_delete-Deletes t v.table.wide k q).pops ∙ ground (arith, v.once q))
    ]

    -- In a well-formed table with at most one record per key, looking a key up, deleting it if it
    -- is there and looking another key up finds nothing for a key that compares equal to the
    -- first one, and what was there before for every other key.
    pub hash_find-without :
        hash_find (without t k) q ≡ (if fns.compare k q then none else hash_find t q)
    hash_find-without =
        rw (hash_find-first (without t k) q, hash_find-first t q, records-without) (ground arith)

  without-IsTable : (t : Buckets K R) (k : K) → IsTable t → IsTable (without t k)
  without-IsTable t k v = elim (Option-cases (hash_find t k)) [
    | inl e ↦ rw (without, e) v
    | inr (r, e) ↦ rw (without, e) (hash_delete-IsTable t k v)
  ]

  pub without-IsMap : (t : Buckets K R) (k : K) → IsMap t → IsMap (without t k)
  without-IsMap t k v = record {
    table = without-IsTable t k v.table;
    once = λ q. rw (records-without t v k q) (ground (arith, v.once q));
  }

  -- An insertion of a key that the table does not have.
  module _ (t : Buckets K R) (v : IsMap t) (k : K) (fresh : hash_find t k ≡ none) (a : ℕ)
      (r : R) where
    absent : records t k ≡ []
    absent = first-none (records t k) (sym (hash_find-first t k) ∙ fresh)

    pub hash_insert-IsMap : IsMap (hash_insert t a k r).1
    hash_insert-IsMap = record {
      table = hash_insert-IsTable t a k r v.table;
      once = λ q.
          rw (records-hash_insert t v.table.wide k q a r)
            (ground (arith, v.once q, absent, records_congr t k q));
    }

    -- In a well-formed table with at most one record per key, a lookup after the insertion of a
    -- key that the table does not have finds the new record for a key that compares equal to it,
    -- and what was there before for every other key.
    pub hash_find-hash_insert :
        (q : K)
        → hash_find (hash_insert t a k r).1 q ≡ (if fns.compare k q then some r else hash_find t q)
    hash_find-hash_insert q =
        rw
          (
            hash_find-first (hash_insert t a k r).1 q,
            hash_find-first t q,
            records-hash_insert t v.table.wide k q a r,
          )
          (ground arith)

  pub hash_find-without_self :
      (t : Buckets K R) (k : K) → IsMap t → hash_find (without t k) k ≡ none
  hash_find-without_self t k v = rw (hash_find-without t v k k, fns.compare_refl k)
