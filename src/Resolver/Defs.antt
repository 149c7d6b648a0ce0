-- ===== src/Resolver/Defs.antt =====
-- The definitions of src/data/map/ns_hash.c and src/util/resolver.c.
use Prim.Native.Nat.{bit_and}
use iftopcolor.Shared.{
  ℕ, ◌+◌, ◌%◌, ◌<◌, ◌≡◌, refl, ap, ◌∙◌, sym, Bool, true, false, ◌&&◌, ◌||◌, not, List, [], ◌∷◌,
  ◌++◌, Option, none, some, arith, ◌==◌, leb, if◌then◌else◌, take, get_or, replicate, Bool-cases,
  inl, inr,
}
use iftopcolor.Stringmap.{Text}
use iftopcolor.Hash.{
  HashFns, Buckets, hash_find, hash_insert, hash_delete, hash_delete_all_free, hash_initialise,
}
use iftopcolor.AddrHash.{af_inet, af_inet6, bytes_eq}
use iftopcolor.AddrHash.Keys.{bytes_eq_refl, bytes_eq_sound}

-- `addr_len` is what `resolve`, which alone makes these, sets by the family.
pub record AddrStorage : Type 0 where
  pub address_family : ℕ
  pub addr : List ℕ

abbrev pub addr_len : AddrStorage → ℕ
addr_len a = if a.address_family == af_inet then 4 else 16

abbrev pub ns_hash_size : ℕ
ns_hash_size = 256

unfoldable pub ns_hash_compare : AddrStorage → AddrStorage → Bool
ns_hash_compare l r =
    if not (l.address_family == r.address_family)
    then false
    else bytes_eq (take (addr_len l) l.addr) (take (addr_len l) r.addr)

unfoldable pub sum_bytes : List ℕ → ℕ
sum_bytes [] = 0
sum_bytes (b ∷ bytes) = b + sum_bytes bytes

unfoldable pub ns_hash_hash : AddrStorage → ℕ
ns_hash_hash a = sum_bytes (take (addr_len a) a.addr) % 255

-- What the comparison reads.
abbrev pub compared : AddrStorage → ℕ × List ℕ
compared a = (a.address_family, take (addr_len a) a.addr)

true-not_false : true ≡ false → ⊥
true-not_false e = cc

pub ns_hash_compare-same :
    (a b : AddrStorage) → ns_hash_compare a b ≡ true → compared a ≡ compared b
unfolding ns_hash_compare
ns_hash_compare-same a b h = elim (Bool-cases (a.address_family == b.address_family)) [
  | inl e ↦
      let f : a.address_family ≡ b.address_family = ground (arith, e) in
      let l : addr_len a ≡ addr_len b = ap (λ (n : ℕ). if n == af_inet then 4 else 16) f in
      let g : take (addr_len a) a.addr ≡ take (addr_len a) b.addr =
        bytes_eq_sound (take (addr_len a) a.addr) (take (addr_len a) b.addr)
          (rw (ns_hash_compare, e) at h) in
      pair_eq f (g ∙ ap (λ n. take n b.addr) l)
  | inr e ↦ absurd (true-not_false (sym h ∙ rw (ns_hash_compare, e) refl))
]
  where
    pair_eq : {x y : ℕ} {u v : List ℕ} → x ≡ y → u ≡ v → Path (ℕ × List ℕ) (x, u) (y, v)
    pair_eq e f = cc

pub ns_hash_compare-from :
    (a b : AddrStorage) → compared a ≡ compared b → ns_hash_compare a b ≡ true
unfolding ns_hash_compare
ns_hash_compare-from a b e =
    let f : a.address_family ≡ b.address_family = ap (λ p. p.0) e in
    let l : addr_len a ≡ addr_len b = ap (λ (n : ℕ). if n == af_inet then 4 else 16) f in
    let g : take (addr_len a) a.addr ≡ take (addr_len a) b.addr =
      ap (λ p. p.1) e ∙ ap (λ n. take n b.addr) (sym l) in
    let same : a.address_family == b.address_family ≡ true = ground (arith, f) in
    rw (ns_hash_compare, same, g) (bytes_eq_refl (take (addr_len a) b.addr))

pub ns_hash_compare_refl : (a : AddrStorage) → ns_hash_compare a a ≡ true
ns_hash_compare_refl a = ns_hash_compare-from a a refl

pub ns_hash_compare_trans :
    (a b c : AddrStorage)
    → ns_hash_compare a b ≡ true
    → ns_hash_compare b c ≡ true
    → ns_hash_compare a c ≡ true
ns_hash_compare_trans a b c h k =
    ns_hash_compare-from a c (ns_hash_compare-same a b h ∙ ns_hash_compare-same b c k)

turn_round : (a b : AddrStorage) → ns_hash_compare a b ≡ true → ns_hash_compare b a ≡ true
turn_round a b h = ns_hash_compare-from b a (sym (ns_hash_compare-same a b h))

pub ns_hash_compare_symm : (a b : AddrStorage) → ns_hash_compare a b ≡ ns_hash_compare b a
ns_hash_compare_symm a b = ground (arith, turn_round a b, turn_round b a)

pub ns_hash_hash-compare :
    (a b : AddrStorage) → ns_hash_compare a b ≡ true → ns_hash_hash a ≡ ns_hash_hash b
unfolding ns_hash_hash
ns_hash_hash-compare a b h = ap (λ p. sum_bytes p.1 % 255) (ns_hash_compare-same a b h)

pub ns_hash_hash-lt : (a : AddrStorage) → ns_hash_hash a < ns_hash_size
unfolding ns_hash_hash
ns_hash_hash-lt a = omega arith

-- What `ns_hash_create` sets in the `hash_type`.
instance abbrev pub ns_fns : HashFns AddrStorage
ns_fns = record {
  compare = ns_hash_compare;
  hash = ns_hash_hash;
  size = ns_hash_size;
  compare_refl = ns_hash_compare_refl;
  compare_symm = ns_hash_compare_symm;
  compare_trans = ns_hash_compare_trans;
  hash-compare = ns_hash_hash-compare;
  hash-lt-size = ns_hash_hash-lt;
}

-- NS_HASH_MAX_ENTRIES
abbrev pub ns_hash_max_entries : ℕ
ns_hash_max_entries = 16384

abbrev pub resolve_queue_length : ℕ
resolve_queue_length = 20

-- `ns_hash`, `ns_hash_n_entries`, and the ring `resolve_queue` with its two ends. The array is a
-- function of the place.
pub record Resolver : Type 0 where
  pub ns_hash : Buckets AddrStorage Text
  pub n_entries : ℕ
  pub resolve_queue : ℕ → AddrStorage
  pub head : ℕ
  pub tail : ℕ

unfoldable pub resolver_initialise : (ℕ → AddrStorage) → Resolver
resolver_initialise queue = record {
  ns_hash = hash_initialise;
  n_entries = 0;
  resolve_queue = queue;
  head = 0;
  tail = 0;
}

-- ns_hash_evict_if_full, on the cache and its counter
unfoldable pub ns_hash_evict_if_full : ℕ → Resolver → Resolver
ns_hash_evict_if_full max_entries s =
    if leb max_entries s.n_entries
    then record s { ns_hash = (hash_delete_all_free s.ns_hash).0; n_entries = 0 }
    else s

-- Link-local and site-local addresses: fe80::/10 and fec0::/10
unfoldable pub stays_numerical : AddrStorage → Bool
stays_numerical a =
    a.address_family == af_inet6
    && get_or a.addr 0 0 == 254
    && (bit_and (get_or a.addr 1 0) 192 == 128 || bit_and (get_or a.addr 1 0) 192 == 192)

abbrev pub place : (ℕ → AddrStorage) → ℕ → AddrStorage → ℕ → AddrStorage
place queue i a j = if j == i then a else queue j

unfoldable pub is_full : Resolver → Bool
is_full s = (s.head + 1) % resolve_queue_length == s.tail

-- The three cases behind the insertion, which end `resolve` for an address that is not in the cache.
unfoldable pub enqueue : AddrStorage → Resolver → Resolver × Bool
enqueue a s = if is_full s || stays_numerical a then (s, false) else (
  record s {
    resolve_queue = place s.resolve_queue s.head a;
    head = (s.head + 1) % resolve_queue_length;
  },
  true,
)

-- memset, then the bytes of the address
unfoldable pub make_storage : ℕ → List ℕ → AddrStorage
make_storage af addr = record {
  address_family = af;
  addr = if af == af_inet then take 4 addr ++ replicate 12 0 else take 16 addr;
}

-- resolve, with `options.dnsresolution` on: the name for `result`, and whether a worker is signalled.
-- An insertion takes the address of the node that it needs.
unfoldable pub resolve : (ℕ → List ℕ → Text) → ℕ → ℕ → List ℕ → Resolver → Resolver × Text × Bool
resolve inet_ntop node af addr s =
    let a = make_storage af addr in
    elim (hash_find s.ns_hash a) [
      | some hostname ↦ (s, hostname, false)
      | none ↦
          let u = ns_hash_evict_if_full ns_hash_max_entries s in
          let hostname = inet_ntop af a.addr in
          let v : Resolver = record u {
            ns_hash = (hash_insert u.ns_hash node a hostname).1;
            n_entries = u.n_entries + 1;
          } in
          let r = enqueue a v in (r.0, hostname, r.1)
    ]

-- resolver_worker, up to the unlock: the request that it takes, if there is one.
unfoldable pub take_request : Resolver → Option (AddrStorage × Resolver)
take_request s =
    if s.head == s.tail
    then none
    else some (s.resolve_queue s.tail, record s { tail = (s.tail + 1) % resolve_queue_length })

-- resolver_worker, after the lookup: what do_resolve has returned is stored.
unfoldable pub store_result : ℕ → AddrStorage → Option Text → Resolver → Resolver
store_result node a none s = s
store_result node a (some hostname) s = elim (hash_find s.ns_hash a) [
  | some old ↦ record s { ns_hash = (hash_insert (hash_delete s.ns_hash a).1 node a hostname).1 }
  | none ↦ record s {
    ns_hash = (hash_insert s.ns_hash node a hostname).1;
    n_entries = s.n_entries + 1;
  }
]
