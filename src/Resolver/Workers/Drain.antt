-- ===== src/Resolver/Workers/Drain.antt =====
-- The workers' own steps, which end.
use iftopcolor.Shared.{
  ℕ, zero, suc, ◌+◌, ◌*◌, ◌≤◌, ◌<◌, ◌≡◌, refl, ap, Bool, true, false, List, [], Option, none, arith,
  length, ◌⊎◌, Option-cases, inl, inr,
}
use iftopcolor.Resolver.Defs.{AddrStorage, take_request, store_result}
use iftopcolor.Resolver.Ring.{pending}
use iftopcolor.Resolver.Workers.Defs.{
  Worker, starting, asleep, awake, resolving, Threads, workers, threads_start, round, finish, Step,
  start, wake, signalled, unheard, run, finished, asked, Reaches, later,
}
use iftopcolor.Resolver.Workers.Cached.{IsCache, take_request-Took, store_result-Stored}
use iftopcolor.Resolver.Workers.Sound.{IsSound, total, total-update, Step-IsSound, pending-le}
use iftopcolor.Resolver.Workers.Wake.{Sleeps, Reaches-Attended, Reaches-all_taken}

-- A step that is neither a new call of `resolve` nor a return from pthread_cond_wait for nothing.
abbrev pub is_own : {t u : Threads} → Step t u → Bool
is_own (wake i lt e) = false
is_own (asked inet_ntop node af addr) = false
is_own step = true

-- `n` such steps in a row.
pub data Runs (t : Threads) : ℕ → Threads → Type 0 where
  none_yet : Runs t 0 t
  one_more :
      (n : ℕ) (u v : Threads)
      → Runs t n u
      → (step : Step u v) → is_own step ≡ true
      → Runs t (suc n) v

abbrev pub effort : Worker → ℕ
effort asleep = 0
effort w = 1

-- What is left to do, in steps.
abbrev pub work : Threads → ℕ
work t = 2 * t.signals + length (pending t.resolver) + total effort t.worker

round-work :
    (i : ℕ) (t : Threads)
    → i < workers
    → IsCache t.resolver
    → effort (t.worker i) ≡ 1
    → work (round i t) < work t
unfolding round
round-work i t lt v busy = elim (Option-cases (take_request t.resolver)) [
  | inl e ↦ rw (round, e) (omega (arith, busy, total-update effort t.worker i asleep lt))
  | inr ((a, s), e) ↦
      let k = take_request-Took t.resolver a s v e in
      rw (round, e)
        (omega (arith, busy, ap length k.oldest, total-update effort t.worker i (resolving a) lt))
]

finish-work :
    (i node : ℕ) (a : AddrStorage) (hostname : Option (List ℕ)) (t : Threads)
    → i < workers
    → IsCache t.resolver
    → effort (t.worker i) ≡ 1
    → work (finish i node a hostname t) < work t
unfolding finish
finish-work i node a hostname t lt v busy =
    let k = store_result-Stored node a hostname t.resolver v in
    let t' : Threads = record t { resolver = store_result node a hostname t.resolver } in
    omega (arith, round-work i t' lt k.cache busy, ap length k.waits)

Step-work : (t u : Threads) (step : Step t u) → is_own step ≡ true → IsSound t → work u < work t
Step-work t u (start i lt e) own v =
    omega (arith, ap effort e, total-update effort t.worker i asleep lt)
Step-work t u (wake i lt e) own v = cc
Step-work t u (signalled i lt left e) own v =
    omega (arith, left, ap effort e, total-update effort t.worker i awake lt)
Step-work t u (unheard left deaf) own v = omega (arith, left)
Step-work t u (run i lt e) own v = round-work i t lt v.cache (ap effort e)
Step-work t u (finished i node a hostname lt e) own v =
    finish-work i node a hostname t lt v.cache (ap effort e)
Step-work t u (asked inet_ntop node af addr) own v = cc

Runs-IsSound : (t u : Threads) (n : ℕ) → Runs t n u → IsSound t → IsSound u
Runs-IsSound t u n none_yet v = v
Runs-IsSound t u n (one_more k w x path step own) v =
    Step-IsSound w x step (Runs-IsSound t w k path v)

Runs-work : (t u : Threads) (n : ℕ) → Runs t n u → IsSound t → n + work u ≤ work t
Runs-work t u n none_yet v = omega arith
Runs-work t u n (one_more k w x path step own) v =
    omega (arith, Runs-work t w k path v, Step-work w x step own (Runs-IsSound t w k path v))

pub Reaches-Runs : (t u v : Threads) (n : ℕ) → Reaches t u → Runs u n v → Reaches t v
Reaches-Runs t u v n path none_yet = path
Reaches-Runs t u v n path (one_more k w x steps step own) =
    later w x (Reaches-Runs t u w k path steps) step

-- One of the workers' own steps can follow.
abbrev pub Goes : Threads → Type 0
Goes t = (u : Threads) × (step : Step t u) × (is_own step ≡ true)

goes_on : (t : Threads) (i : ℕ) (w : Worker) → i < workers → t.worker i ≡ w → Goes t ⊎ (w ≡ asleep)
goes_on t i starting lt e = inl (_, start i lt e, refl)
goes_on t i asleep lt e = inr refl
goes_on t i awake lt e = inl (_, run i lt e, refl)
goes_on t i (resolving a) lt e = inl (_, finished i 0 a none lt e, refl)

signal_goes : (t : Threads) (n : ℕ) → t.signals ≡ n → t.worker 0 ≡ asleep → Goes t ⊎ (t.signals ≡ 0)
signal_goes t zero e s = inr e
signal_goes t (suc n) e s = inl (_, signalled 0 (omega arith) (omega (arith, e)) s, refl)

pub Goes-or_Sleeps : (t : Threads) → Goes t ⊎ (Sleeps t × (t.signals ≡ 0))
Goes-or_Sleeps t = elim (goes_on t 0 (t.worker 0) (omega arith) refl) [
  | inl go ↦ inl go
  | inr a ↦ elim (goes_on t 1 (t.worker 1) (omega arith) refl) [
    | inl go ↦ inl go
    | inr b ↦ elim (signal_goes t t.signals refl a) [
      | inl go ↦ inl go
      | inr quiet ↦ inr ((a, b), quiet)
    ]
  ]
]

-- From any state `u` that the threads come to after a state in which both workers sleep and no
-- request waits: in every order, a run of the workers' own steps, without new calls of `resolve`
-- and without wake-ups for nothing, has at most 21 steps and two for each signal on its way, and
-- where it cannot go on, the workers have taken every request that the ring has accepted.
pub Runs-drain :
    (queue : ℕ → AddrStorage) (t u v : Threads) (n : ℕ)
    → Reaches (threads_start queue) t
    → Sleeps t
    → pending t.resolver ≡ []
    → Reaches t u
    → Runs u n v
    → (n ≤ 2 * u.signals + 21) × (Goes v ⊎ (v.accepted ≡ v.taken))
Runs-drain queue t u v n before waits idle path steps =
    let (sound, a) = Reaches-Attended queue t u before waits idle path in
    (
      omega (
        arith,
        Runs-work u v n steps sound,
        pending-le u.resolver,
        effort-le (u.worker 0),
        effort-le (u.worker 1),
      ),
      elim (Goes-or_Sleeps v) [
        | inl go ↦ inl go
        | inr (sleeps, quiet) ↦
            inr
              (Reaches-all_taken queue t v before waits idle (Reaches-Runs t u v n path steps)
                sleeps quiet).1
      ],
    )
  where
    effort-le : (w : Worker) → effort w ≤ 1
    effort-le w = ground arith
