-- ===== src/Resolver/Workers/Wake.antt =====
-- Whether a request can wait while both workers sleep.
use iftopcolor.Shared.{
  ℕ, zero, suc, ◌+◌, ◌-◌, ◌<◌, ◌≡◌, ◌≢◌, refl, ◌∙◌, ap, Bool, true, false, List, [], ◌∷◌, ◌++◌,
  append-nil, arith, if◌then◌else◌, length, Option-cases, inl, inr,
}
use iftopcolor.Stringmap.{Text}
use iftopcolor.Resolver.Defs.{AddrStorage, resolve, take_request, store_result}
use iftopcolor.Resolver.Ring.{IsRing, pending, take_request-Taken}
use iftopcolor.Resolver.Workers.Defs.{
  Worker, starting, asleep, awake, resolving, Threads, workers, update, threads_start, ask, round,
  finish, Step, start, wake, signalled, unheard, run, finished, asked, Reaches, here, later,
}
use iftopcolor.Resolver.Workers.Cached.{resolve-Resolved, store_result-Stored}
use iftopcolor.Resolver.Workers.Sound.{
  IsSound, total, total-update, threads_start-IsSound, Reaches-IsSound,
}

-- Whether a worker will look at the ring before it sleeps.
abbrev pub is_active : Worker → ℕ
is_active awake = 1
is_active (resolving a) = 1
is_active w = 0

abbrev pub is_starting : Worker → ℕ
is_starting starting = 1
is_starting w = 0

-- Every worker has come to its first pthread_cond_wait, and while a request waits, a signal is on
-- its way or a worker will look at the ring.
pub record IsAttended (t : Threads) : Type 0 where
  pub started : total is_starting t.worker ≡ 0
  pub attended : 0 < length (pending t.resolver) → 0 < t.signals + total is_active t.worker

active_now :
    (worker : ℕ → Worker) (i : ℕ) (a : AddrStorage)
    → i < workers
    → 0 < total is_active (update worker i (resolving a))
active_now worker zero a lt = omega arith
active_now worker (suc zero) a lt = omega arith
active_now worker (suc (suc i)) a lt = absurd (omega arith)

round-IsAttended :
    (i : ℕ) (t : Threads)
    → i < workers
    → IsRing t.resolver
    → total is_starting t.worker ≡ 0
    → IsAttended (round i t)
unfolding round
round-IsAttended i t lt ring s = elim (Option-cases (take_request t.resolver)) [
  | inl e ↦
      let idle : pending t.resolver ≡ [] = rw e at (take_request-Taken t.resolver ring) in
      rw (round, e)
        (record {
          started = omega (arith, s, total-update is_starting t.worker i asleep lt);
          attended = λ h. absurd (omega (arith, h, ap length idle));
        })
  | inr ((a, r), e) ↦
      rw (round, e)
        (record {
          started = omega (arith, s, total-update is_starting t.worker i (resolving a) lt);
          attended = λ h. omega (arith, active_now t.worker i a lt);
        })
]

ask-IsAttended :
    (inet_ntop : ℕ → List ℕ → Text) (node af : ℕ) (addr : List ℕ) (t : Threads)
    → IsSound t
    → IsAttended t
    → IsAttended (ask inet_ntop node af addr t)
unfolding ask
ask-IsAttended inet_ntop node af addr t v a =
    let r = resolve inet_ntop node af addr t.resolver in
    let k = resolve-Resolved inet_ntop node af addr t.resolver v.cache in
    record { started = a.started; attended = signals_if _ _ _ _ _ r.2 k.waits a.attended }
  where
    signals_if :
        (x : AddrStorage) (l l' : List AddrStorage) (signals active : ℕ) (added : Bool)
        → l' ≡ (if added then l ++ x ∷ [] else l)
        → (0 < length l → 0 < signals + active)
        → 0 < length l'
        → 0 < (if added then signals + 1 else signals) + active
    signals_if x l l' signals active false e h p = h (omega (arith, p, ap length e))
    signals_if x l l' signals active true e h p = omega arith

unheard-IsAttended :
    (t : Threads)
    → ((i : ℕ) → i < workers → t.worker i ≢ asleep)
    → IsAttended t
    → IsAttended (record t { signals = t.signals - 1 })
unheard-IsAttended t deaf a = record {
  started = a.started;
  attended = λ h. omega (
    arith,
    both (t.worker 0) (t.worker 1) (deaf 0 (omega arith)) (deaf 1 (omega arith)) a.started,
  );
}
  where
    both :
        (x y : Worker)
        → x ≢ asleep
        → y ≢ asleep
        → is_starting x + is_starting y ≡ 0
        → is_active x + is_active y ≡ 2
    both x y p q s = ground arith

Step-IsAttended : (t u : Threads) → Step t u → IsSound t → IsAttended t → IsAttended u
Step-IsAttended t u (start i lt e) v a =
    absurd
      (omega (arith, a.started, total-update is_starting t.worker i asleep lt, ap is_starting e))
Step-IsAttended t u (wake i lt e) v a = record {
  started =
      omega (arith, a.started, total-update is_starting t.worker i awake lt, ap is_starting e);
  attended = λ h. omega (arith, total-update is_active t.worker i awake lt, ap is_active e);
}
Step-IsAttended t u (signalled i lt left e) v a = record {
  started =
      omega (arith, a.started, total-update is_starting t.worker i awake lt, ap is_starting e);
  attended = λ h. omega (arith, total-update is_active t.worker i awake lt, ap is_active e);
}
Step-IsAttended t u (unheard left deaf) v a = unheard-IsAttended t deaf a
Step-IsAttended t u (run i lt e) v a = round-IsAttended i t lt v.cache.ring a.started
Step-IsAttended t u (finished i node x hostname lt e) v a =
    unfold finish in
    round-IsAttended i (record t { resolver = store_result node x hostname t.resolver }) lt
      (store_result-Stored node x hostname t.resolver v.cache).cache.ring a.started
Step-IsAttended t u (asked inet_ntop node af addr) v a = ask-IsAttended inet_ntop node af addr t v a

Reaches-IsAttended : (t u : Threads) → Reaches t u → IsSound t → IsAttended t → IsAttended u
Reaches-IsAttended t u here v a = a
Reaches-IsAttended t u (later w x path step) v a =
    Step-IsAttended w x step (Reaches-IsSound t w path v) (Reaches-IsAttended t w path v a)

-- Both workers sleep.
abbrev pub Sleeps : Threads → Type 0
Sleeps t = (t.worker 0 ≡ asleep) × (t.worker 1 ≡ asleep)

module _ (queue : ℕ → AddrStorage) (t u : Threads) (before : Reaches (threads_start queue) t)
    (waits : Sleeps t) (idle : pending t.resolver ≡ []) (path : Reaches t u) where
  pub Reaches-Attended : IsSound u × IsAttended u
  Reaches-Attended =
      let v = Reaches-IsSound (threads_start queue) t before (threads_start-IsSound queue) in
      (
        Reaches-IsSound t u path v,
        Reaches-IsAttended t u path v (record {
          started = omega (arith, ap is_starting waits.0, ap is_starting waits.1);
          attended = λ h. absurd (omega (arith, h, ap length idle));
        }),
      )

  -- From a state that the threads come to, in which both workers sleep and no request waits, in
  -- every order of the steps: when both workers sleep again and no signal is on its way, no
  -- request waits, and the workers have taken every request that the ring has accepted, in order.
  pub Reaches-all_taken :
      Sleeps u → u.signals ≡ 0 → (pending u.resolver ≡ []) × (u.accepted ≡ u.taken)
  Reaches-all_taken sleeps quiet =
      let (v, a) = Reaches-Attended in
      let done : pending u.resolver ≡ [] =
        ended (pending u.resolver)
          (λ h. omega (arith, a.attended h, quiet, ap is_active sleeps.0, ap is_active sleeps.1)) in
      (done, v.in_order ∙ ap (◌++◌ u.taken) done ∙ append-nil u.taken)
    where
      ended : (l : List AddrStorage) → (0 < length l → ⊥) → l ≡ []
      ended [] h = refl
      ended (x ∷ l) h = absurd (h (omega arith))
