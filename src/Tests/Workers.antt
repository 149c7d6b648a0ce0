-- ===== src/Tests/Workers.antt =====
-- The threads of the resolver on one request.
use iftopcolor.Shared.{
  ℕ, ◌-◌, ◌+◌, ◌*◌, ◌≤◌, ◌≡◌, refl, ◌⊎◌, List, [], ◌∷◌, ◌++◌, none, arith, replicate, length,
}
use iftopcolor.Stringmap.{Text}
use iftopcolor.Hash.Size.{size}
use iftopcolor.Hash.Replace.{IsMap}
use iftopcolor.Resolver.{
  AddrStorage, make_storage, ns_fns, ns_hash_compare, ns_hash_hash, sum_bytes, resolver_initialise,
  resolve, ns_hash_evict_if_full, enqueue, is_full, stays_numerical, take_request, store_result,
}
use iftopcolor.Hash.{hash_find, find_in, hash_insert, hash_initialise}
use iftopcolor.Resolver.Ring.{IsRing, pending, slice}
use iftopcolor.Resolver.Workers.{
  asleep, awake, Threads, threads_start, ask, round, finish, update, start, signalled, unheard, run,
  finished, asked, Reaches, here, later,
}
use iftopcolor.Resolver.Workers.Sound.{max_entries_seen, Reaches-in_order}
use iftopcolor.Resolver.Workers.Wake.{Sleeps, Reaches-all_taken}
use iftopcolor.Resolver.Workers.Drain.{Runs, none_yet, one_more, Goes, Reaches-Runs, Runs-drain}

abbrev blank : ℕ → AddrStorage
blank i = record { address_family = 0; addr = replicate 16 0 }

abbrev bytes : ℕ → List ℕ → Text
bytes af addr = addr

abbrev host : List ℕ
host = 10 ∷ 0 ∷ 0 ∷ 7 ∷ []

abbrev zeroth : Threads
zeroth = threads_start blank

-- Both workers have come to their first pthread_cond_wait.
abbrev ready : Threads
ready = record zeroth { worker = update (update zeroth.worker 0 asleep) 1 asleep }

to_ready : Reaches zeroth ready
unfolding threads_start
to_ready = later _ _ (later _ _ here (start 0 (omega arith) refl)) (start 1 (omega arith) refl)

ready-Sleeps : Sleeps ready
ready-Sleeps = (refl, refl)

ready-idle : pending ready.resolver ≡ []
unfolding threads_start resolver_initialise slice
ready-idle = refl

abbrev requested : Threads
requested = ask bytes 31 2 host ready

to_requested : Reaches ready requested
to_requested = later _ _ here (asked bytes 31 2 host)

Reaches-in_order_example :
    IsMap requested.resolver.ns_hash
    × (size requested.resolver.ns_hash ≡ requested.resolver.n_entries)
    × (requested.resolver.n_entries ≤ max_entries_seen)
    × IsRing requested.resolver
    × (requested.accepted ≡ requested.taken ++ pending requested.resolver)
Reaches-in_order_example =
    Reaches-in_order blank requested (later _ _ to_ready (asked bytes 31 2 host))

requested-signals : requested.signals ≡ 1
unfolding threads_start ask resolve enqueue ns_hash_compare ns_hash_hash sum_bytes
    ns_hash_evict_if_full is_full stays_numerical hash_find find_in hash_insert hash_initialise
    resolver_initialise make_storage
requested-signals = refl

-- The signal wakes a worker, which takes the request, gets no answer and sleeps again.
abbrev woken : Threads
woken = record requested {
  worker = update requested.worker 0 awake;
  signals = requested.signals - 1;
}

abbrev looking_up : Threads
looking_up = round 0 woken

abbrev settled : Threads
settled = finish 0 32 (make_storage 2 host) none looking_up

a_run : Runs requested 3 settled
unfolding threads_start ask round finish resolve enqueue take_request store_result ns_hash_compare
    ns_hash_hash sum_bytes ns_hash_evict_if_full is_full stays_numerical hash_find find_in
    hash_insert hash_initialise resolver_initialise make_storage
a_run =
    one_more 2 _ _
      (one_more 1 _ _
        (one_more 0 _ _ none_yet (signalled 0 (omega arith) (omega (arith, requested-signals)) refl)
          refl)
        (run 0 (omega arith) refl) refl)
      (finished 0 32 (make_storage 2 host) none (omega arith) refl) refl

to_settled : Reaches ready settled
to_settled = Reaches-Runs ready requested settled 3 to_requested a_run

Runs-drain_example :
    (3 ≤ 2 * requested.signals + 21) × (Goes settled ⊎ (settled.accepted ≡ settled.taken))
Runs-drain_example =
    Runs-drain blank ready requested settled 3 to_ready ready-Sleeps ready-idle to_requested a_run

settled-Sleeps : Sleeps settled
unfolding threads_start ask round finish resolve enqueue take_request store_result ns_hash_compare
    ns_hash_hash sum_bytes ns_hash_evict_if_full is_full stays_numerical hash_find find_in
    hash_insert hash_initialise resolver_initialise make_storage
settled-Sleeps = (refl, refl)

settled-quiet : settled.signals ≡ 0
unfolding threads_start ask round finish resolve enqueue take_request store_result ns_hash_compare
    ns_hash_hash sum_bytes ns_hash_evict_if_full is_full stays_numerical hash_find find_in
    hash_insert hash_initialise resolver_initialise make_storage
settled-quiet = refl

Reaches-all_taken_example : (pending settled.resolver ≡ []) × (settled.accepted ≡ settled.taken)
Reaches-all_taken_example =
    Reaches-all_taken blank ready settled to_ready ready-Sleeps ready-idle to_settled settled-Sleeps
      settled-quiet

-- A request before the workers' first pthread_cond_wait: nobody hears its signal, and both workers
-- go to sleep while it waits.
abbrev early : Threads
early = ask bytes 31 2 host zeroth

early-signals : early.signals ≡ 1
unfolding threads_start ask resolve enqueue ns_hash_compare ns_hash_hash sum_bytes
    ns_hash_evict_if_full is_full stays_numerical hash_find find_in hash_insert hash_initialise
    resolver_initialise make_storage
early-signals = refl

abbrev lost : Threads
lost = record early {
  worker = update (update early.worker 0 asleep) 1 asleep;
  signals = early.signals - 1;
}

lost_request :
    Reaches zeroth lost × Sleeps lost × (lost.signals ≡ 0) × (length (pending lost.resolver) ≡ 1)
unfolding threads_start ask round finish resolve enqueue take_request store_result ns_hash_compare
    ns_hash_hash sum_bytes ns_hash_evict_if_full is_full stays_numerical hash_find find_in
    hash_insert hash_initialise resolver_initialise make_storage slice
lost_request = (
  later _ _
      (later _ _
        (later _ _ (later _ _ here (asked bytes 31 2 host))
          (unheard (omega (arith, early-signals)) (λ i lt e. cc)))
        (start 0 (omega arith) refl))
      (start 1 (omega arith) refl),
  (refl, refl),
  refl,
  refl,
)
