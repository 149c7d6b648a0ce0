-- ===== src/Resolver/Workers/Sound.antt =====
-- What holds in every state of the threads, whatever the order of their steps.
use iftopcolor.Shared.{
  ℕ, zero, suc, ◌+◌, ◌-◌, ◌≤◌, ◌<◌, ◌≡◌, refl, sym, ◌∙◌, ap, Bool, true, false, List, [], ◌∷◌, ◌++◌,
  append_assoc, Option, arith, if◌then◌else◌, length, Option-cases, inl, inr,
}
use iftopcolor.Stringmap.{Text}
use iftopcolor.Hash.Size.{size, size-hash_initialise}
use iftopcolor.Hash.Replace.{IsMap, hash_initialise-IsMap}
use iftopcolor.Resolver.Defs.{
  AddrStorage, ns_fns, Resolver, ns_hash_max_entries, resolver_initialise, resolve, take_request,
  store_result,
}
use iftopcolor.Resolver.Ring.{IsRing, waiting, pending, slice, length-slice}
use iftopcolor.Resolver.Workers.Defs.{
  Worker, asleep, awake, resolving, Threads, workers, update, threads_start, ask, round, finish,
  Step, start, wake, signalled, unheard, run, finished, asked, Reaches, here, later,
}
use iftopcolor.Resolver.Workers.Cached.{
  IsCache, resolve-Resolved, store_result-Stored, take_request-Took,
}

-- Whether a worker is in do_resolve.
abbrev pub in_lookup : Worker → ℕ
in_lookup (resolving a) = 1
in_lookup w = 0

abbrev pub total : (Worker → ℕ) → (ℕ → Worker) → ℕ
total f worker = f (worker 0) + f (worker 1)

pub total-update :
    (f : Worker → ℕ) (worker : ℕ → Worker) (i : ℕ) (w : Worker)
    → i < workers
    → total f (update worker i w) + f (worker i) ≡ total f worker + f w
total-update f worker zero w lt = omega arith
total-update f worker (suc zero) w lt = omega arith
total-update f worker (suc (suc i)) w lt = absurd (omega arith)

abbrev pub max_entries_seen : ℕ
max_entries_seen = ns_hash_max_entries + 21

-- Each lookup that is waited for or under way may still add one entry, so the bound is on their sum.
pub record IsSound (t : Threads) : Type 0 where
  pub cache : IsCache t.resolver
  pub bounded :
      t.resolver.n_entries + length (pending t.resolver) + total in_lookup t.worker
      ≤ max_entries_seen
  pub in_order : t.accepted ≡ t.taken ++ pending t.resolver

in_lookup-le : (w : Worker) → in_lookup w ≤ 1
in_lookup-le w = ground arith

pub threads_start-IsSound : (queue : ℕ → AddrStorage) → IsSound (threads_start queue)
unfolding threads_start resolver_initialise
threads_start-IsSound queue = record {
  cache = record {
    ring = record { head_in = omega arith; tail_in = omega arith };
    unique = hash_initialise-IsMap;
    counted = size-hash_initialise AddrStorage Text;
  };
  bounded = unfold slice in omega arith;
  in_order = unfold slice in refl;
}

round-IsSound :
    (i : ℕ) (t : Threads)
    → i < workers
    → IsCache t.resolver
    → t.resolver.n_entries + length (pending t.resolver) + total in_lookup t.worker
      ≤ max_entries_seen + in_lookup (t.worker i)
    → t.accepted ≡ t.taken ++ pending t.resolver
    → IsSound (round i t)
unfolding round
round-IsSound i t lt v b o = elim (Option-cases (take_request t.resolver)) [
  | inl e ↦
      rw (round, e)
        (record {
          cache = v;
          bounded = omega (arith, total-update in_lookup t.worker i asleep lt);
          in_order = o;
        })
  | inr ((a, s), e) ↦
      let k = take_request-Took t.resolver a s v e in
      rw (round, e)
        (record {
          cache = k.cache;
          bounded = omega (
            arith,
            total-update in_lookup t.worker i (resolving a) lt,
            k.entries,
            ap length k.oldest,
          );
          in_order =
              o ∙ ap (◌++◌ t.taken) k.oldest ∙ sym (append_assoc t.taken (a ∷ []) (pending s));
        })
]

pub pending-le : (s : Resolver) → length (pending s) ≤ 19
pending-le s = omega (arith, length-slice s.resolve_queue s.tail (waiting s))

accepts :
    (a : AddrStorage) (l l' m n : List AddrStorage) (added : Bool)
    → l' ≡ (if added then l ++ a ∷ [] else l)
    → m ≡ n ++ l
    → (if added then m ++ a ∷ [] else m) ≡ n ++ l'
accepts a l l' m n false e f = f ∙ ap (◌++◌ n) (sym e)
accepts a l l' m n true e f =
    ap (λ k. k ++ a ∷ []) f ∙ append_assoc n l (a ∷ []) ∙ ap (◌++◌ n) (sym e)

ask-IsSound :
    (inet_ntop : ℕ → List ℕ → Text) (node af : ℕ) (addr : List ℕ) (t : Threads)
    → IsSound t
    → IsSound (ask inet_ntop node af addr t)
unfolding ask
ask-IsSound inet_ntop node af addr t v =
    let r = resolve inet_ntop node af addr t.resolver in
    let k = resolve-Resolved inet_ntop node af addr t.resolver v.cache in
    record {
      cache = k.cache;
      bounded = elim k.few [
        | inl same ↦ rw same v.bounded
        | inr few ↦
            omega (arith, few, pending-le r.0, in_lookup-le (t.worker 0), in_lookup-le (t.worker 1))
      ];
      in_order = accepts _ _ _ _ _ r.2 k.waits v.in_order;
    }

-- A worker that moves and is not in a lookup before or after.
moved-IsSound :
    (i : ℕ) (t : Threads) (w : Worker) (signals : ℕ)
    → i < workers
    → in_lookup w ≡ in_lookup (t.worker i)
    → IsSound t
    → IsSound (record t { worker = update t.worker i w; signals = signals })
moved-IsSound i t w signals lt e v = record {
  cache = v.cache;
  bounded = omega (arith, total-update in_lookup t.worker i w lt, v.bounded, e);
  in_order = v.in_order;
}

finish-IsSound :
    (i node : ℕ) (a : AddrStorage) (hostname : Option Text) (t : Threads)
    → i < workers
    → t.worker i ≡ resolving a
    → IsSound t
    → IsSound (finish i node a hostname t)
unfolding finish
finish-IsSound i node a hostname t lt e v =
    let k = store_result-Stored node a hostname t.resolver v.cache in
    round-IsSound i (record t { resolver = store_result node a hostname t.resolver }) lt k.cache
      (omega (arith, v.bounded, k.one_more, ap length k.waits, ap in_lookup e))
      (v.in_order ∙ ap (◌++◌ t.taken) (sym k.waits))

pub Step-IsSound : (t u : Threads) → Step t u → IsSound t → IsSound u
Step-IsSound t u (start i lt e) v = moved-IsSound i t asleep t.signals lt (rw e) v
Step-IsSound t u (wake i lt e) v = moved-IsSound i t awake t.signals lt (rw e) v
Step-IsSound t u (signalled i lt left e) v = moved-IsSound i t awake (t.signals - 1) lt (rw e) v
Step-IsSound t u (unheard left deaf) v = record {
  cache = v.cache;
  bounded = v.bounded;
  in_order = v.in_order;
}
Step-IsSound t u (run i lt e) v = round-IsSound i t lt v.cache (omega (arith, v.bounded)) v.in_order
Step-IsSound t u (finished i node a hostname lt e) v = finish-IsSound i node a hostname t lt e v
Step-IsSound t u (asked inet_ntop node af addr) v = ask-IsSound inet_ntop node af addr t v

pub Reaches-IsSound : (t u : Threads) → Reaches t u → IsSound t → IsSound u
Reaches-IsSound t u here v = v
Reaches-IsSound t u (later w x path step) v = Step-IsSound w x step (Reaches-IsSound t w path v)

-- From the start of the threads, in every order of their steps, the cache has at most one name
-- for an address, its counter is the number of its nodes and is at most 16405, both ends of the
-- ring are in range, and the requests that the workers have taken, in order, with those that wait
-- behind them, are the ones that the ring has accepted.
pub Reaches-in_order :
    (queue : ℕ → AddrStorage) (t : Threads)
    → Reaches (threads_start queue) t
    → IsMap t.resolver.ns_hash
      × (size t.resolver.ns_hash ≡ t.resolver.n_entries)
      × (t.resolver.n_entries ≤ max_entries_seen)
      × IsRing t.resolver
      × (t.accepted ≡ t.taken ++ pending t.resolver)
Reaches-in_order queue t path =
    let v = Reaches-IsSound (threads_start queue) t path (threads_start-IsSound queue) in
    (v.cache.unique, v.cache.counted, omega (arith, v.bounded), v.cache.ring, v.in_order)
