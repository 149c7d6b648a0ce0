-- ===== src/Tests/Names.antt =====
-- The resolver's steps at an address of 10.0.0.0/8.
use iftopcolor.Shared.{ℕ, ◌<◌, ◌≡◌, List, [], ◌∷◌, some, arith, false, replicate}
use iftopcolor.Stringmap.{Text}
use iftopcolor.Hash.{hash_find}
use iftopcolor.Hash.Replace.{IsMap, hash_initialise-IsMap}
use iftopcolor.Resolver.{
  AddrStorage, ns_hash_compare, ns_fns, Resolver, resolver_initialise, make_storage, resolve,
  enqueue, ns_hash_max_entries,
}
use iftopcolor.Resolver.Cache.{resolve-cached}
use iftopcolor.Resolver.Ring.{IsRing}

-- A printer of addresses: their bytes.
abbrev as_bytes : ℕ → List ℕ → Text
as_bytes af addr = addr

abbrev blank_storage : ℕ → AddrStorage
blank_storage i = record { address_family = 0; addr = replicate 16 0 }

abbrev an_addr : List ℕ
an_addr = 10 ∷ 0 ∷ 0 ∷ 1 ∷ []

abbrev started_resolver : Resolver
started_resolver = resolver_initialise blank_storage

started-IsMap : IsMap started_resolver.ns_hash
unfolding resolver_initialise
started-IsMap = hash_initialise-IsMap

resolve-cached_example :
    let r = resolve as_bytes 31 2 an_addr started_resolver in
    IsMap r.0.ns_hash
    × (hash_find r.0.ns_hash (make_storage 2 an_addr) ≡ some r.1)
    × ((q : AddrStorage)
        → started_resolver.n_entries < ns_hash_max_entries
        → ns_hash_compare (make_storage 2 an_addr) q ≡ false
        → hash_find r.0.ns_hash q ≡ hash_find started_resolver.ns_hash q)
resolve-cached_example = resolve-cached as_bytes 31 2 an_addr started_resolver started-IsMap

abbrev asked : Resolver
asked = (resolve as_bytes 31 2 an_addr started_resolver).0

started-IsRing : IsRing started_resolver
unfolding resolver_initialise
started-IsRing = record { head_in = omega arith; tail_in = omega arith }

abbrev queued : Resolver
queued = (enqueue (make_storage 2 an_addr) started_resolver).0
