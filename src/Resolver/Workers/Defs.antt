-- ===== src/Resolver/Workers/Defs.antt =====
-- The two workers and the callers of `resolve` as a step relation.
use iftopcolor.Shared.{
  ℕ, ◌+◌, ◌-◌, ◌<◌, ◌≡◌, ◌≢◌, List, [], ◌∷◌, ◌++◌, Option, none, some, ◌==◌, if◌then◌else◌,
}
use iftopcolor.Stringmap.{Text}
use iftopcolor.Resolver.Defs.{
  AddrStorage, Resolver, resolver_initialise, resolve, make_storage, take_request, store_result,
}

-- Where a worker stands.
pub data Worker : Type 0 where
  starting : Worker  -- before its first pthread_cond_wait
  asleep : Worker  -- in pthread_cond_wait
  awake : Worker  -- woken, before it has the mutex again
  resolving : AddrStorage → Worker  -- in do_resolve, without the mutex

-- `signals` are the callers of `resolve` that have unlocked the mutex and still have to signal. The
-- last two fields record the past: the requests that the ring has taken in and given out.
pub record Threads : Type 0 where
  pub resolver : Resolver
  pub worker : ℕ → Worker
  pub signals : ℕ
  pub accepted : List AddrStorage
  pub taken : List AddrStorage

abbrev pub workers : ℕ
workers = 2

abbrev pub update : (ℕ → Worker) → ℕ → Worker → ℕ → Worker
update worker i w j = if j == i then w else worker j

-- resolver_initialise, with the threads that it creates.
unfoldable pub threads_start : (ℕ → AddrStorage) → Threads
threads_start queue = record {
  resolver = resolver_initialise queue;
  worker = λ i. starting;
  signals = 0;
  accepted = [];
  taken = [];
}

-- A call of `resolve`, up to its unlock.
unfoldable pub ask : (ℕ → List ℕ → Text) → ℕ → ℕ → List ℕ → Threads → Threads
ask inet_ntop node af addr t =
    let r = resolve inet_ntop node af addr t.resolver in
    record t {
      resolver = r.0;
      signals = if r.2 then t.signals + 1 else t.signals;
      accepted = if r.2 then t.accepted ++ make_storage af addr ∷ [] else t.accepted;
    }

-- The test of the inner loop: worker `i` takes a request, or goes back to sleep.
unfoldable pub round : ℕ → Threads → Threads
round i t = elim (take_request t.resolver) [
  | none ↦ record t { worker = update t.worker i asleep }
  | some (a, s) ↦ record t {
    resolver = s;
    worker = update t.worker i (resolving a);
    taken = t.taken ++ a ∷ [];
  }
]

-- What worker `i` does with the answer of do_resolve, up to its next unlock.
unfoldable pub finish : ℕ → ℕ → AddrStorage → Option Text → Threads → Threads
finish i node a hostname t =
    round i (record t { resolver = store_result node a hostname t.resolver })

-- `wake` is any return from pthread_cond_wait, which may return without a signal.
pub data Step (t : Threads) : Threads → Type 0 where
  start :
      (i : ℕ)
      → i < workers
      → t.worker i ≡ starting
      → Step t (record t { worker = update t.worker i asleep })
  wake :
      (i : ℕ)
      → i < workers
      → t.worker i ≡ asleep
      → Step t (record t { worker = update t.worker i awake })
  signalled :
      (i : ℕ)
      → i < workers
      → 0 < t.signals
      → t.worker i ≡ asleep
      → Step t (record t { worker = update t.worker i awake; signals = t.signals - 1 })
  unheard :
      0 < t.signals
      → ((i : ℕ) → i < workers → t.worker i ≢ asleep)
      → Step t (record t { signals = t.signals - 1 })
  run : (i : ℕ) → i < workers → t.worker i ≡ awake → Step t (round i t)
  finished :
      (i node : ℕ) (a : AddrStorage) (hostname : Option Text)
      → i < workers
      → t.worker i ≡ resolving a
      → Step t (finish i node a hostname t)
  asked :
      (inet_ntop : ℕ → List ℕ → Text) (node af : ℕ) (addr : List ℕ)
      → Step t (ask inet_ntop node af addr t)

pub data Reaches (t : Threads) : Threads → Type 0 where
  here : Reaches t t
  later : (u v : Threads) → Reaches t u → Step u v → Reaches t v
