-- ===== src/Resolver/Workers/Cached.antt =====
-- What each step under the mutex does to the cache, its counter and the ring together.
use iftopcolor.Shared.{
  ℕ, ◌+◌, ◌≤◌, ◌<◌, ◌≡◌, refl, sym, ◌∙◌, ap, Bool, ◌||◌, List, [], ◌∷◌, ◌++◌, Option, none, some,
  arith, leb, if◌then◌else◌, ◌==◌, ◌%◌, Bool-cases, Option-cases, ◌⊎◌, inl, inr,
}
use iftopcolor.Stringmap.{Text}
use iftopcolor.Hash.{hash_find, hash_insert, hash_delete, hash_delete_all_free}
use iftopcolor.Hash.Size.{size, size-hash_insert, size-hash_delete, size-clear_heads}
use iftopcolor.Hash.Replace.{IsMap, clear_heads-IsMap}
use iftopcolor.Hash.Place.{hash_delete-IsTable}
use iftopcolor.Resolver.Defs.{
  AddrStorage, ns_fns, Resolver, ns_hash_max_entries, ns_hash_evict_if_full, enqueue, is_full,
  stays_numerical, make_storage, resolve, take_request, store_result, resolve_queue_length,
}
use iftopcolor.Resolver.Cache.{enqueue-cache, resolve-cached, store_result-cached}
use iftopcolor.Resolver.Ring.{IsRing, pending, enqueue-Offered, take_request-Taken}

-- The cache and its counter agree, and the ring is in range.
pub record IsCache (s : Resolver) : Type 0 where
  pub ring : IsRing s
  pub unique : IsMap s.ns_hash
  pub counted : size s.ns_hash ≡ s.n_entries

-- The two ends of the ring and the counter, before and after `enqueue`.
enqueue-n_entries : (a : AddrStorage) (s : Resolver) → (enqueue a s).0.n_entries ≡ s.n_entries
unfolding enqueue
enqueue-n_entries a s = elim (Bool-cases (is_full s || stays_numerical a)) [
  | inl e ↦ rw (enqueue, e) refl
  | inr e ↦ rw (enqueue, e) refl
]

evict-IsCache :
    (s : Resolver)
    → IsCache s
    → let u = ns_hash_evict_if_full ns_hash_max_entries s in
      IsCache u × (u.n_entries < ns_hash_max_entries) × (pending u ≡ pending s)
unfolding ns_hash_evict_if_full hash_delete_all_free
evict-IsCache s v = elim (Bool-cases (leb ns_hash_max_entries s.n_entries)) [
  | inl e ↦
      rw (ns_hash_evict_if_full, e)
        (
          record {
            ring = record { head_in = v.ring.head_in; tail_in = v.ring.tail_in };
            unique = clear_heads-IsMap s.ns_hash v.unique;
            counted = size-clear_heads s.ns_hash;
          },
          omega arith,
          refl,
        )
  | inr e ↦ rw (ns_hash_evict_if_full, e) (v, ground (arith, e), refl)
]

-- What a call of `resolve` leaves: a miss makes room before it adds its one entry.
pub record Resolved (a : AddrStorage) (s s' : Resolver) (added : Bool) : Type 0 where
  pub cache : IsCache s'
  pub waits : pending s' ≡ (if added then pending s ++ a ∷ [] else pending s)
  pub few : (s' ≡ s) ⊎ (s'.n_entries ≤ ns_hash_max_entries)

module _ (inet_ntop : ℕ → List ℕ → Text) (node af : ℕ) (addr : List ℕ) (s : Resolver) where
  abbrev key : AddrStorage
  key = make_storage af addr

  pub resolve-Resolved :
      IsCache s
      → let r = resolve inet_ntop node af addr s in Resolved (make_storage af addr) s r.0 r.2
  unfolding resolve
  resolve-Resolved v = elim (Option-cases (hash_find s.ns_hash key)) [
    | inr (name, e) ↦ rw (resolve, e) (record { cache = v; waits = refl; few = inl refl })
    | inl e ↦
        let (cached, found, kept) = resolve-cached inet_ntop node af addr s v.unique in
        let u = ns_hash_evict_if_full ns_hash_max_entries s in
        let (w, lt, same) = evict-IsCache s v in
        let name = inet_ntop af key.addr in
        let s' : Resolver = record u {
          ns_hash = (hash_insert u.ns_hash node key name).1;
          n_entries = u.n_entries + 1;
        } in
        let o =
          enqueue-Offered key s' (record { head_in = w.ring.head_in; tail_in = w.ring.tail_in }) in
        rw (resolve, e)
          (record {
            cache = record {
              ring = o.still;
              unique = rw (resolve, e) at cached;
              counted =
                  rw
                    (
                      enqueue-cache key s',
                      enqueue-n_entries key s',
                      size-hash_insert u.ns_hash node key name w.unique.table,
                      w.counted,
                    )
                    refl;
            };
            waits = rw⁻¹ same o.waits;
            few = inr (rw (enqueue-n_entries key s') (omega (arith, lt)));
          })
  ]

-- What a worker's answer leaves: at most one entry more.
pub record Stored (s s' : Resolver) : Type 0 where
  pub cache : IsCache s'
  pub waits : pending s' ≡ pending s
  pub one_more : s'.n_entries ≤ s.n_entries + 1

pub store_result-Stored :
    (node : ℕ) (a : AddrStorage) (hostname : Option Text) (s : Resolver)
    → IsCache s
    → Stored s (store_result node a hostname s)
unfolding store_result
store_result-Stored node a none s v = record { cache = v; waits = refl; one_more = omega arith }
store_result-Stored node a (some hostname) s v =
    let cached = (store_result-cached node a hostname s a v.unique).0 in
    elim (Option-cases (hash_find s.ns_hash a)) [
      | inl e ↦
          rw (store_result, e)
            (record {
              cache = record {
                ring = record { head_in = v.ring.head_in; tail_in = v.ring.tail_in };
                unique = rw (store_result, e) at cached;
                counted =
                    omega
                      (arith, size-hash_insert s.ns_hash node a hostname v.unique.table, v.counted);
              };
              waits = refl;
              one_more = omega arith;
            })
      | inr (old, e) ↦
          let t = (hash_delete s.ns_hash a).1 in
          rw (store_result, e)
            (record {
              cache = record {
                ring = record { head_in = v.ring.head_in; tail_in = v.ring.tail_in };
                unique = rw (store_result, e) at cached;
                counted = omega (
                  arith,
                  size-hash_insert t node a hostname
                      (hash_delete-IsTable s.ns_hash a v.unique.table),
                  size-hash_delete s.ns_hash a old v.unique.table e,
                  v.counted,
                );
              };
              waits = refl;
              one_more = omega arith;
            })
    ]

some-inj : {A : Type 0} {a b : A} → Path (Option A) (some a) (some b) → a ≡ b
some-inj e = cc

-- What a worker leaves that takes a request.
pub record Took (a : AddrStorage) (s s' : Resolver) : Type 0 where
  pub cache : IsCache s'
  pub entries : s'.n_entries ≡ s.n_entries
  pub oldest : pending s ≡ a ∷ pending s'

pub take_request-Took :
    (s : Resolver) (a : AddrStorage) (s' : Resolver)
    → IsCache s
    → take_request s ≡ some (a, s')
    → Took a s s'
unfolding take_request
take_request-Took s a s' v e =
    let (ring, oldest) = rw e at (take_request-Taken s v.ring) in
    elim (Bool-cases (s.head == s.tail)) [
      | inl f ↦ absurd (none-some (sym (rw (take_request, f) refl) ∙ e))
      | inr f ↦
          let same : (
            s.resolve_queue s.tail,
            record s { tail = (s.tail + 1) % resolve_queue_length },
          )
              ≡ (a, s') =
            some-inj (sym (rw (take_request, f) refl) ∙ e) in
          record {
            cache = record {
              ring = ring;
              unique = rw⁻¹ (ap (λ p. p.1.ns_hash) same) v.unique;
              counted = rw⁻¹ (ap (λ p. p.1.ns_hash) same, ap (λ p. p.1.n_entries) same) v.counted;
            };
            entries = sym (ap (λ p. p.1.n_entries) same);
            oldest = oldest;
          }
    ]
  where
    none-some : {A : Type 0} {x : A} → none ≡ some x → ⊥
    none-some e = cc
