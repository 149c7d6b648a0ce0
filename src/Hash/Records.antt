-- ===== src/Hash/Records.antt =====
-- What the table means: for each key a stack of records, the newest first. An insertion pushes, a
-- deletion pops, a lookup reads the top.
use iftopcolor.Shared.{
  ℕ, zero, suc, replicate, ◌≡◌, refl, ap, ◌∙◌, sym, true, false, List, [], ◌∷◌, ◌++◌, arith,
  Bool-cases, All, if◌then◌else◌, get_or, set, length, get_or-set_self, get_or-set_ne, first, rest,
  ◌⊎◌, inl, inr, ◌↔◌, ◌≢◌,
}
use iftopcolor.Hash.Defs.{
  Node, Chain, Buckets, HashFns, HashStatus, status_ok, key_not_found, chain_at, hash_insert,
  hash_delete, hash_find, find_in, hash_initialise, clear_heads,
}
use iftopcolor.Hash.Laws.{Split, unlink_cases}

module _ {K : Type 0} ⦃fns : HashFns K⦄ {R : Type 0} where
  -- The records of a chain whose keys compare equal to `q`.
  unfoldable pub matching : K → Chain K R → List R
  matching q [] = []
  matching q (n ∷ c) = if fns.compare n.key q then n.rec ∷ matching q c else matching q c

  unfoldable pub records : Buckets K R → K → List R
  records t q = matching q (chain_at t (fns.hash q))

  find_in-first : (q : K) (c : Chain K R) → find_in q c ≡ first (matching q c)
  unfolding find_in matching
  find_in-first q [] = refl
  find_in-first q (n ∷ c) = ground (arith, find_in-first q c)

  pub hash_find-first : (t : Buckets K R) (q : K) → hash_find t q ≡ first (records t q)
  unfolding hash_find records
  hash_find-first t q = find_in-first q _

  pub matching-append :
      (q : K) (c d : Chain K R) → matching q (c ++ d) ≡ matching q c ++ matching q d
  unfolding matching
  matching-append q [] d = refl
  matching-append q (n ∷ c) d = elim (Bool-cases (fns.compare n.key q)) [
    | inl e ↦ rw (e, matching-append q c d)
    | inr e ↦ rw (e, matching-append q c d)
  ]

  pub matching-none :
      (k q : K) (c : Chain K R)
      → fns.compare k q ≡ true
      → All (λ n. fns.compare n.key k ≡ false) c
      → matching q c ≡ []
  unfolding matching
  matching-none k q [] e h = refl
  matching-none k q (n ∷ c) e h =
      ground (arith, matching-none k q c e h.1, fns.compare_symm k q, fns.compare_trans n.key q k)

  -- The key that is taken out of a chain loses its newest record, any other key none.
  matching-unlinked :
      (k q : K) (c : Chain K R) (n : Node K R) (c' : Chain K R)
      → Split (λ m. fns.compare m.key k) c n c'
      → matching q c' ≡ (if fns.compare k q then rest (matching q c) else matching q c)
  unfolding matching
  matching-unlinked k q c n c' s = elim (Bool-cases (fns.compare k q)) [
    | inl e ↦ rw (
      e,
      s.whole,
      s.left,
      matching-append q s.before s.after,
      matching-append q s.before (n ∷ s.after),
      matching-none k q s.before e s.fails,
      fns.compare_trans n.key k q s.passes e,
    )
    | inr e ↦ rw (
      e,
      s.whole,
      s.left,
      matching-append q s.before s.after,
      matching-append q s.before (n ∷ s.after),
      misses e,
    )
  ]
    where
      misses : fns.compare k q ≡ false → fns.compare n.key q ≡ false
      misses e = ground (arith, fns.compare_trans k n.key q, fns.compare_symm n.key k, s.passes)

  matching_found :
      (k : K) (c : Chain K R) (n : Node K R) (c' : Chain K R)
      → Split (λ m. fns.compare m.key k) c n c'
      → matching k c ≢ []
  unfolding matching
  matching_found k c n c' s =
      rw
        (
          s.whole,
          matching-append k s.before (n ∷ s.after),
          matching-none k k s.before (fns.compare_refl k) s.fails,
          s.passes,
        )
        (λ e. cc)

  abbrev chain_of : Buckets K R → K → Chain K R
  chain_of t k = chain_at t (fns.hash k)

  module _ (t : Buckets K R) (wide : length t ≡ fns.size) (k q : K) where
    -- A write to the chain of one key, as another key sees it.
    records-set :
        (c : Chain K R)
        → (fns.compare k q ≡ false → matching q c ≡ matching q (chain_of t k))
        → records (set t (fns.hash k) c) q ≡ (if fns.compare k q then matching q c else records t q)
    unfolding records
    records-set c same = ground (
      arith,
      same,
      fns.hash-compare k q,
      fns.hash-lt-size k,
      get_or-set_self t (fns.hash k) c [],
      get_or-set_ne t (fns.hash k) (fns.hash q) c [],
    )

    -- In a table of the full width, hash_insert puts the new record in front of the records of
    -- the keys that compare equal to the inserted one, and changes no other key's records.
    pub records-hash_insert :
        (a : ℕ) (r : R)
        → records (hash_insert t a k r).1 q
          ≡ (if fns.compare k q then r ∷ records t q else records t q)
    unfolding hash_insert records matching
    records-hash_insert a r = ground (
      arith,
      records-set (record { addr = a; key = k; rec = r; bucket = fns.hash k } ∷ chain_of t k),
      fns.hash-compare k q,
    )

    -- `hash_delete` finds a node exactly if the key has a record.
    pub record Deletes (r : HashStatus × Buckets K R × List ℕ) : Type 0 where
      pub found : (r.0 ≡ status_ok) ⊎ (r.0 ≡ key_not_found)
      pub missing : (r.0 ≡ key_not_found) ↔ (records t k ≡ [])
      pub pops : records r.1 q ≡ (if fns.compare k q then rest (records t q) else records t q)

    chain_same : fns.compare k q ≡ true → records t q ≡ matching q (chain_of t k)
    unfolding records
    chain_same e = ap (λ b. matching q (chain_at t b)) (sym (fns.hash-compare k q e))

    -- In a table of the full width, hash_delete answers HASH_STATUS_OK or
    -- HASH_STATUS_KEY_NOT_FOUND, the latter exactly if the key has no record; it takes away the
    -- newest record of every key that compares equal to the deleted one, and none of any other
    -- key.
    pub hash_delete-Deletes : Deletes (hash_delete t k)
    unfolding hash_delete records matching
    hash_delete-Deletes = elim (unlink_cases (λ n. fns.compare n.key k) (chain_of t k)) [
      | inl (e, h) ↦
          rw (hash_delete, e)
            (record {
              found = inr refl;
              missing = (λ _. absent k (fns.compare_refl k) h, λ _. refl);
              pops = ground (arith, absent q, chain_same, h);
            })
      | inr (n, c', e, s) ↦
          rw (hash_delete, e)
            (record {
              found = inl refl;
              missing = (λ f. cc, λ f. absurd (matching_found k _ n c' s f));
              pops =
                  ground (
                    arith,
                    records-set c',
                    matching-unlinked k q (chain_of t k) n c' s,
                    chain_same,
                  );
            })
    ]
      where
        absent :
            (j : K)
            → fns.compare k j ≡ true
            → All (λ m. fns.compare m.key k ≡ false) (chain_of t k)
            → matching j (chain_of t k) ≡ []
        absent j same h = matching-none k j (chain_of t k) same h

module _ {K : Type 0} ⦃fns : HashFns K⦄ {R : Type 0} where
  get_or_empty : (n i : ℕ) → get_or {A = Chain K R} (replicate n []) i [] ≡ []
  get_or_empty zero i = refl
  get_or_empty (suc n) zero = refl
  get_or_empty (suc n) (suc i) = get_or_empty n i

  pub records-hash_initialise : (q : K) → records {R = R} hash_initialise q ≡ []
  unfolding records hash_initialise matching
  records-hash_initialise q = rw (get_or_empty fns.size (fns.hash q))

  get_or-clear_heads : (t : Buckets K R) (i : ℕ) → get_or (clear_heads t) i [] ≡ []
  unfolding clear_heads
  get_or-clear_heads [] i = refl
  get_or-clear_heads (c ∷ t) zero = refl
  get_or-clear_heads (c ∷ t) (suc i) = get_or-clear_heads t i

  pub records-clear_heads : (t : Buckets K R) (q : K) → records (clear_heads t) q ≡ []
  unfolding records matching
  records-clear_heads t q = rw (get_or-clear_heads t (fns.hash q))

  matching_congr : (k q : K) (c : Chain K R) → fns.compare k q ≡ true → matching k c ≡ matching q c
  unfolding matching
  matching_congr k q [] e = refl
  matching_congr k q (n ∷ c) e = ground (
    arith,
    matching_congr k q c e,
    fns.compare_trans n.key k q,
    fns.compare_trans n.key q k,
    fns.compare_symm k q,
  )

  pub records_congr :
      (t : Buckets K R) (k q : K) → fns.compare k q ≡ true → records t k ≡ records t q
  unfolding records
  records_congr t k q e =
      matching_congr k q (chain_of t k) e
      ∙ ap (λ b. matching q (chain_at t b)) (fns.hash-compare k q e)
