-- ===== src/Hash/Overwrite.antt =====
-- A write through a pointer to a record, in a table whose records lie apart: only the entry that
-- has the record sees it.
use iftopcolor.Shared.{
  ℕ, ◌≤◌, ◌≡◌, refl, ap, ◌∙◌, sym, false, List, [], ◌∷◌, flatten, Option, some, arith, ◌==◌,
  if◌then◌else◌, Bool-cases, Option-cases, inl, inr, map, count, first, ==_refl,
}
use iftopcolor.Hash.Defs.{Node, Chain, Buckets, HashFns, hash_find}
use iftopcolor.Hash.Place.{IsTable, records-flatten}
use iftopcolor.Hash.Records.{matching, hash_find-first}
use iftopcolor.Hash.Mapped.{map_recs, hash_find-map_recs}

module _ {K R : Type 0} (id : R → ℕ) where
  -- The numbers of the records of a chain.
  abbrev pub ids : Chain K R → List ℕ
  ids = map (λ n. id n.rec)

module _ {R : Type 0} (id : R → ℕ) where
  abbrev pub updated : ℕ → (R → R) → R → R
  updated i f r = if id r == i then f r else r

some-inj : {R : Type 0} {r s : R} → Path (Option R) (some r) (some s) → r ≡ s
some-inj e = cc

module _ {K : Type 0} ⦃fns : HashFns K⦄ {R : Type 0} (id : R → ℕ) where
  count-matching :
      (q : K) (c : Chain K R) (r : R) → first (matching q c) ≡ some r → 1 ≤ count (id r) (ids id c)
  unfolding matching
  count-matching q [] r e = cc
  count-matching q (n ∷ c) r e = elim (Bool-cases (fns.compare n.key q)) [
    | inl f ↦
        let s : n.rec ≡ r = some-inj (rw f at e) in rw⁻¹ s (rw (==_refl (id n.rec)) (omega arith))
    | inr f ↦ omega (arith, count-matching q c r (rw f at e))
  ]

  apart_later :
      (q : K) (n : Node K R) (c : Chain K R) (r : R)
      → ((a : ℕ) → count a (ids id (n ∷ c)) ≤ 1)
      → first (matching q c) ≡ some r
      → id n.rec == id r ≡ false
  apart_later q n c r once e = ground (arith, once (id r), count-matching q c r e)

  ids-apart :
      (k q : K) (c : Chain K R) (r s : R)
      → ((a : ℕ) → count a (ids id c) ≤ 1)
      → fns.compare k q ≡ false
      → first (matching k c) ≡ some r
      → first (matching q c) ≡ some s
      → id s == id r ≡ false
  unfolding matching
  ids-apart k q [] r s once ne e f = cc
  ids-apart k q (n ∷ c) r s once ne e f = elim (Bool-cases (fns.compare n.key k)) [
    | inl g ↦ elim (Bool-cases (fns.compare n.key q)) [
      | inl h ↦ ground (arith, fns.compare_trans k n.key q, fns.compare_symm k n.key, g, h, ne)
      | inr h ↦
          let same : n.rec ≡ r = some-inj (rw g at e) in
          rw⁻¹ same (==_comm (id n.rec) (id s) ∙ apart_later q n c s once (rw h at f))
    ]
    | inr g ↦ elim (Bool-cases (fns.compare n.key q)) [
      | inl h ↦
          let same : n.rec ≡ s = some-inj (rw h at f) in
          rw⁻¹ same (apart_later k n c r once (rw g at e))
      | inr h ↦ ids-apart k q c r s (λ a. omega (arith, once a)) ne (rw g at e) (rw h at f)
    ]
  ]
    where
      ==_comm : (a b : ℕ) → b == a ≡ (a == b)
      ==_comm a b = ground arith

  pub hash_find-updated_other :
      (t : Buckets K R) (k q : K) (r : R) (f : R → R)
      → IsTable t
      → ((a : ℕ) → count a (ids id (flatten t)) ≤ 1)
      → hash_find t k ≡ some r
      → fns.compare k q ≡ false
      → hash_find (map_recs (updated id (id r) f) t) q ≡ hash_find t q
  hash_find-updated_other t k q r f v once e ne =
      hash_find-map_recs (updated id (id r) f) t q ∙ elim (Option-cases (hash_find t q)) [
        | inl g ↦ rw g refl
        | inr (s, g) ↦ rw (g, ids-apart k q (flatten t) r s once ne (flat k r e) (flat q s g)) refl
      ]
    where
      flat : (j : K) (u : R) → hash_find t j ≡ some u → first (matching j (flatten t)) ≡ some u
      flat j u g = ap first (sym (records-flatten t j v)) ∙ sym (hash_find-first t j) ∙ g

  pub hash_find-updated_self :
      (t : Buckets K R) (k : K) (r : R) (f : R → R)
      → hash_find t k ≡ some r
      → hash_find (map_recs (updated id (id r) f) t) k ≡ some (f r)
  hash_find-updated_self t k r f e =
      rw (hash_find-map_recs (updated id (id r) f) t k, e, ==_refl (id r)) refl
