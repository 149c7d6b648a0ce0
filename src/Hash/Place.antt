-- ===== src/Hash/Place.antt =====
-- Where nodes stand: each in the bucket that its key hashes to and that its `bucket` field caches.
use native.Mathlib.Nat.{zero-add}
use iftopcolor.Shared.{
  ℕ, zero, suc, ◌+◌, ◌<◌, ◌≡◌, refl, ap, sym, Bool, [], ◌∷◌, flatten, arith, All, All-append, set,
  length, length-set, ◌≢◌, append-nil, ◌∙◌, All-parts, replicate, length-replicate, ◌==◌, inl, inr,
}
use iftopcolor.Hash.Defs.{
  Node, Chain, Buckets, HashFns, chain_at, hash_insert, hash_delete, hash_delete_node,
  hash_initialise, clear_heads,
}
use iftopcolor.Hash.Laws.{Split, unlink_cases}
use iftopcolor.Hash.Records.{matching, records, matching-append}

here : (i : ℕ) → i + 0 ≡ i
here i = omega arith

there : (i b : ℕ) → i + suc b ≡ suc i + b
there i b = omega arith

module _ {K : Type 0} ⦃fns : HashFns K⦄ {R : Type 0} where
  abbrev pub IsAt : ℕ → Node K R → Type 0
  IsAt i n = (n.bucket ≡ i) × (fns.hash n.key ≡ i)

  abbrev pub IsPlacedFrom : ℕ → Buckets K R → Type 0
  IsPlacedFrom i [] = Unit {0}
  IsPlacedFrom i (c ∷ t) = All (IsAt i) c × IsPlacedFrom (suc i) t

  pub record IsTable (t : Buckets K R) : Type 0 where
    pub wide : length t ≡ fns.size
    pub placed : IsPlacedFrom 0 t

  chain_at-placed :
      (i b : ℕ) (t : Buckets K R) → IsPlacedFrom i t → All (IsAt (i + b)) (chain_at t b)
  chain_at-placed i b [] h = tt
  chain_at-placed i zero (c ∷ t) h = rw (here i) h.0
  chain_at-placed i (suc b) (c ∷ t) h = rw (there i b) (chain_at-placed (suc i) b t h.1)

  set-placed :
      (i b : ℕ) (t : Buckets K R) (c : Chain K R)
      → IsPlacedFrom i t
      → All (IsAt (i + b)) c
      → IsPlacedFrom i (set t b c)
  set-placed i b [] c h hc = tt
  set-placed i zero (d ∷ t) c h hc = (rw (here i) at hc, h.1)
  set-placed i (suc b) (d ∷ t) c h hc = (h.0, set-placed (suc i) b t c h.1 (rw (there i b) at hc))

  All-Split :
      (P : Node K R → Type 0) {p : Node K R → Bool} {c c' : Chain K R} {n : Node K R}
      → Split p c n c'
      → All P c
      → P n × All P c'
  All-Split P {n = n} s h =
      let (hb, ha) = All-parts P s.before (n ∷ s.after) (rw s.whole at h) in
      (ha.0, rw s.left (All-append P s.before s.after hb ha.1))

  -- One chain replaced by a chain whose nodes belong there.
  set-IsTable :
      (t : Buckets K R) (b : ℕ) (c : Chain K R) → IsTable t → All (IsAt b) c → IsTable (set t b c)
  set-IsTable t b c v h = record {
    wide = length-set t b c ∙ v.wide;
    placed = set-placed 0 b t c v.placed (rw zero-add h);
  }

  chain-IsAt : (t : Buckets K R) (b : ℕ) → IsTable t → All (IsAt b) (chain_at t b)
  chain-IsAt t b v = rw zero-add at (chain_at-placed 0 b t v.placed)

  pub hash_initialise-IsTable : IsTable (hash_initialise {R = R})
  unfolding hash_initialise
  hash_initialise-IsTable = record {
    wide = length-replicate fns.size [];
    placed = empty 0 fns.size;
  }
    where
      empty : (i n : ℕ) → IsPlacedFrom i (replicate n [])
      empty i zero = tt
      empty i (suc n) = (tt, empty (suc i) n)

  pub hash_insert-IsTable :
      (t : Buckets K R) (a : ℕ) (k : K) (r : R) → IsTable t → IsTable (hash_insert t a k r).1
  unfolding hash_insert
  hash_insert-IsTable t a k r v =
      set-IsTable t (fns.hash k) _ v ((refl, refl), chain-IsAt t (fns.hash k) v)

  pub hash_delete-IsTable : (t : Buckets K R) (k : K) → IsTable t → IsTable (hash_delete t k).1
  unfolding hash_delete
  hash_delete-IsTable t k v =
      elim (unlink_cases (λ n. fns.compare n.key k) (chain_at t (fns.hash k))) [
        | inl (e, h) ↦ rw (hash_delete, e) v
        | inr (n, c', e, s) ↦
            rw (hash_delete, e)
              (set-IsTable t (fns.hash k) c' v
                (All-Split (IsAt (fns.hash k)) s (chain-IsAt t (fns.hash k) v)).1)
      ]

  pub hash_delete_node-IsTable :
      (t : Buckets K R) (n : Node K R) → IsTable t → IsTable (hash_delete_node t n).1
  unfolding hash_delete_node
  hash_delete_node-IsTable t m v =
      elim (unlink_cases (λ n. n.addr == m.addr) (chain_at t m.bucket)) [
        | inl (e, h) ↦ rw (hash_delete_node, e) v
        | inr (n, c', e, s) ↦
            rw (hash_delete_node, e)
              (set-IsTable t m.bucket c' v
                (All-Split (IsAt m.bucket) s (chain-IsAt t m.bucket v)).1)
      ]

  clear_heads-IsPlaced : (i : ℕ) (t : Buckets K R) → IsPlacedFrom i (clear_heads t)
  unfolding clear_heads
  clear_heads-IsPlaced i [] = tt
  clear_heads-IsPlaced i (c ∷ t) = (tt, clear_heads-IsPlaced (suc i) t)

  length-clear_heads : (t : Buckets K R) → length (clear_heads t) ≡ length t
  unfolding clear_heads
  length-clear_heads [] = refl
  length-clear_heads (c ∷ t) = ap suc (length-clear_heads t)

  pub clear_heads-IsTable : (t : Buckets K R) → IsTable t → IsTable (clear_heads t)
  clear_heads-IsTable t v = record {
    wide = length-clear_heads t ∙ v.wide;
    placed = clear_heads-IsPlaced 0 t;
  }

  -- A key's records are those of all the nodes of the table, in the order of the walk.
  away : (i : ℕ) (q : K) (c : Chain K R) → All (IsAt i) c → i ≢ fns.hash q → matching q c ≡ []
  unfolding matching
  away i q [] h ne = refl
  away i q (n ∷ c) h ne = ground (arith, away i q c h.1 ne, fns.hash-compare n.key q)

  all_away :
      (i : ℕ) (q : K) (t : Buckets K R)
      → IsPlacedFrom i t
      → fns.hash q < i
      → matching q (flatten t) ≡ []
  unfolding matching flatten
  all_away i q [] h lt = refl
  all_away i q (c ∷ t) h lt = rw (
    matching-append q c (flatten t),
    away i q c h.0 (omega arith),
    all_away (suc i) q t h.1 (omega arith),
  )

  matching-flatten_from :
      (i b : ℕ) (q : K) (t : Buckets K R)
      → IsPlacedFrom i t
      → fns.hash q ≡ i + b
      → matching q (flatten t) ≡ matching q (chain_at t b)
  unfolding matching flatten
  matching-flatten_from i b q [] h e = refl
  matching-flatten_from i zero q (c ∷ t) h e =
      rw (matching-append q c (flatten t), all_away (suc i) q t h.1 (omega arith), append-nil)
  matching-flatten_from i (suc b) q (c ∷ t) h e =
      rw (matching-append q c (flatten t), away i q c h.0 (omega arith))
        (matching-flatten_from (suc i) b q t h.1 (omega arith))

  pub records-flatten : (t : Buckets K R) (q : K) → IsTable t → records t q ≡ matching q (flatten t)
  unfolding records
  records-flatten t q v = sym (matching-flatten_from 0 (fns.hash q) q t v.placed (omega arith))
