-- ===== src/Resolver/Cache.antt =====
-- What the cache answers after each step.
use iftopcolor.Shared.{
  ℕ, ◌+◌, ◌<◌, ◌≡◌, refl, ◌∙◌, Bool, true, false, ◌||◌, List, Option, none, some, arith, leb,
  if◌then◌else◌, Bool-cases, Option-cases, inl, inr,
}
use iftopcolor.Stringmap.{Text}
use iftopcolor.Hash.{hash_find, hash_insert, hash_delete, hash_delete_all_free, clear_heads}
use iftopcolor.Hash.Records.{hash_find-first, records-clear_heads}
use iftopcolor.Hash.Replace.{
  IsMap, hash_insert-IsMap, hash_find-hash_insert, clear_heads-IsMap, without, without-IsMap,
  hash_find-without, hash_find-without_self,
}
use iftopcolor.Resolver.Defs.{
  AddrStorage, ns_hash_compare, ns_fns, Resolver, ns_hash_max_entries, ns_hash_evict_if_full,
  enqueue, is_full, stays_numerical, make_storage, resolve, store_result,
}

pub enqueue-cache : (a : AddrStorage) (s : Resolver) → (enqueue a s).0.ns_hash ≡ s.ns_hash
unfolding enqueue
enqueue-cache a s = elim (Bool-cases (is_full s || stays_numerical a)) [
  | inl e ↦ rw (enqueue, e) refl
  | inr e ↦ rw (enqueue, e) refl
]

-- An address that is not in the cache is not in what an eviction leaves of it.
evicted :
    (s : Resolver) (a : AddrStorage)
    → IsMap s.ns_hash
    → hash_find s.ns_hash a ≡ none
    → let u = ns_hash_evict_if_full ns_hash_max_entries s in
      IsMap u.ns_hash × (hash_find u.ns_hash a ≡ none)
unfolding ns_hash_evict_if_full hash_delete_all_free
evicted s a v e = elim (Bool-cases (leb ns_hash_max_entries s.n_entries)) [
  | inl f ↦
      rw (ns_hash_evict_if_full, f)
        (
          clear_heads-IsMap s.ns_hash v,
          rw (hash_find-first (clear_heads s.ns_hash) a, records-clear_heads s.ns_hash a) refl,
        )
  | inr f ↦ rw (ns_hash_evict_if_full, f) (v, e)
]

kept_if_few :
    (s : Resolver)
    → s.n_entries < ns_hash_max_entries
    → ns_hash_evict_if_full ns_hash_max_entries s ≡ s
unfolding ns_hash_evict_if_full
kept_if_few s lt =
    let few : leb ns_hash_max_entries s.n_entries ≡ false = ground (arith, lt) in
    rw (ns_hash_evict_if_full, few) refl

module _ (inet_ntop : ℕ → List ℕ → Text) (node af : ℕ) (addr : List ℕ) (s : Resolver)
    (v : IsMap s.ns_hash) where
  abbrev key : AddrStorage
  key = make_storage af addr

  -- With at most one name per address in the cache, `resolve` answers with the name that the
  -- cache has for the address afterwards, keeps at most one name per address, and, while the
  -- cache has fewer than 16384 entries, leaves the names of other addresses.
  pub resolve-cached :
      let r = resolve inet_ntop node af addr s in
      IsMap r.0.ns_hash
      × (hash_find r.0.ns_hash (make_storage af addr) ≡ some r.1)
      × ((q : AddrStorage)
          → s.n_entries < ns_hash_max_entries
          → ns_hash_compare (make_storage af addr) q ≡ false
          → hash_find r.0.ns_hash q ≡ hash_find s.ns_hash q)
  unfolding resolve
  resolve-cached = elim (Option-cases (hash_find s.ns_hash key)) [
    | inr (name, e) ↦ rw (resolve, e) (v, e, λ q lt ne. refl)
    | inl e ↦
        let u = ns_hash_evict_if_full ns_hash_max_entries s in
        let h = evicted s key v e in
        let name = inet_ntop af key.addr in
        let found = hash_find-hash_insert u.ns_hash h.0 key h.1 node name in
        rw
          (
            resolve,
            e,
            enqueue-cache key (record u {
              ns_hash = (hash_insert u.ns_hash node key name).1;
              n_entries = u.n_entries + 1;
            }),
          )
          (
            hash_insert-IsMap u.ns_hash h.0 key h.1 node name,
            rw (found key, ns_fns.compare_refl key) refl,
            λ q lt ne. rw (found q, ne, kept_if_few s lt) refl,
          )
  ]

-- With at most one name per address in the cache, after a worker has stored a name the cache has
-- it for that address and every other address keeps what it had, and there is still at most one
-- name per address.
pub store_result-cached :
    (node : ℕ) (a : AddrStorage) (hostname : Text) (s : Resolver) (q : AddrStorage)
    → IsMap s.ns_hash
    → let u = store_result node a (some hostname) s in
      IsMap u.ns_hash
      × (hash_find u.ns_hash q
          ≡ (if ns_hash_compare a q then some hostname else hash_find s.ns_hash q))
unfolding store_result
store_result-cached node a hostname s q v = elim (Option-cases (hash_find s.ns_hash a)) [
  | inl e ↦
      rw (store_result, e)
        (
          hash_insert-IsMap s.ns_hash v a e node hostname,
          hash_find-hash_insert s.ns_hash v a e node hostname q,
        )
  | inr (old, e) ↦
      let t = (hash_delete s.ns_hash a).1 in
      let same : without s.ns_hash a ≡ t = rw (without, e) refl in
      let m : IsMap t = rw⁻¹ same (without-IsMap s.ns_hash a v) in
      let gone : hash_find t a ≡ none = rw⁻¹ same (hash_find-without_self s.ns_hash a v) in
      rw (store_result, e)
        (
          hash_insert-IsMap t m a gone node hostname,
          hash_find-hash_insert t m a gone node hostname q
              ∙ rw⁻¹ same
                  (rw (hash_find-without s.ns_hash v a q) (if_if (ns_hash_compare a q) _ _)),
        )
]
  where
    if_if :
        (t : Bool) (x y : Option Text)
        → (if t then x else if t then none else y) ≡ (if t then x else y)
    if_if true x y = refl
    if_if false x y = refl
