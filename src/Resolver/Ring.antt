-- ===== src/Resolver/Ring.antt =====
-- The ring of requests as a first-in first-out queue.
use iftopcolor.Shared.{
  ℕ, zero, suc, ◌+◌, ◌-◌, ◌%◌, ◌≤◌, ◌<◌, ◌≡◌, refl, ap, Bool, true, false, ◌||◌, List, [], ◌∷◌,
  ◌++◌, Option, none, some, arith, ◌==◌, if◌then◌else◌, Bool-cases, inl, inr, length,
}
use iftopcolor.Resolver.Defs.{
  AddrStorage, Resolver, resolve_queue_length, is_full, stays_numerical, place, enqueue,
  take_request,
}

-- `n` requests from a place of the ring on.
unfoldable pub slice : (ℕ → AddrStorage) → ℕ → ℕ → List AddrStorage
slice queue i zero = []
slice queue i (suc n) = queue i ∷ slice queue ((i + 1) % 20) n

-- How many requests wait.
abbrev pub waiting : Resolver → ℕ
waiting s = (s.head + 20 - s.tail) % 20

-- The requests that wait, the oldest first.
abbrev pub pending : Resolver → List AddrStorage
pending s = slice s.resolve_queue s.tail (waiting s)

pub record IsRing (s : Resolver) : Type 0 where
  pub head_in : s.head < resolve_queue_length
  pub tail_in : s.tail < resolve_queue_length

slice-place :
    (queue : ℕ → AddrStorage) (a : AddrStorage) (n i h : ℕ)
    → i < 20
    → n ≤ 19
    → (i + n) % 20 ≡ h
    → slice (place queue h a) i (suc n) ≡ slice queue i n ++ a ∷ []
unfolding slice
slice-place queue a zero i h lt le e =
    let same : i == h ≡ true = ground (arith, lt, e) in rw same refl
slice-place queue a (suc n) i h lt le e =
    let other : i == h ≡ false = ground (arith, lt, le, e) in
    rw other (
      ap (◌∷◌ (queue i))
        (slice-place queue a n ((i + 1) % 20) h (omega arith) (omega arith) (omega (arith, e))))

pub length-slice : (queue : ℕ → AddrStorage) (i n : ℕ) → length (slice queue i n) ≡ n
unfolding slice
length-slice queue i zero = refl
length-slice queue i (suc n) = ap suc (length-slice queue ((i + 1) % 20) n)

-- The state after a request is offered: a worker is signalled exactly if it waits now.
pub record Offered (a : AddrStorage) (s : Resolver) (r : Resolver × Bool) : Type 0 where
  pub still : IsRing r.0
  pub waits : pending r.0 ≡ (if r.1 then pending s ++ a ∷ [] else pending s)
  pub refused : r.1 ≡ (if is_full s || stays_numerical a then false else true)
  pub bounded : length (pending r.0) ≤ 19

waiting-le : (s : Resolver) → length (pending s) ≤ 19
waiting-le s = omega (arith, length-slice s.resolve_queue s.tail (waiting s))

-- With both ends of the ring in range, the queue of `resolve` takes a new request behind the ones
-- that wait unless the ring is full or the address is link-local or site-local; it signals a
-- worker exactly if it takes the request, never holds more than 19, and keeps the ends in range.
pub enqueue-Offered : (a : AddrStorage) (s : Resolver) → IsRing s → Offered a s (enqueue a s)
unfolding enqueue
enqueue-Offered a s v = elim (Bool-cases (is_full s || stays_numerical a)) [
  | inl e ↦
      rw (enqueue, e)
        (record { still = v; waits = refl; refused = rw e refl; bounded = waiting-le s })
  | inr e ↦
      let room : is_full s ≡ false = left_false (is_full s) (stays_numerical a) e in
      let s' : Resolver = record s {
        resolve_queue = place s.resolve_queue s.head a;
        head = (s.head + 1) % resolve_queue_length;
      } in
      let more : waiting s' ≡ suc (waiting s) =
        unfold is_full in ground (arith, v.head_in, v.tail_in, room) in
      rw (enqueue, e)
        (record {
          still = record { head_in = omega arith; tail_in = v.tail_in };
          waits = rw more (
              slice-place s.resolve_queue a (waiting s) s.tail s.head v.tail_in (omega arith)
                (omega (arith, v.head_in, v.tail_in)));
          refused = rw e refl;
          bounded = waiting-le s';
        })
]
  where
    left_false : (x y : Bool) → x || y ≡ false → x ≡ false
    left_false x y e = ground (arith, e)

-- A worker takes the oldest request, and none only if none waits.
abbrev pub Taken : Resolver → Option (AddrStorage × Resolver) → Type 0
Taken s none = pending s ≡ []
Taken s (some (a, s')) = IsRing s' × (pending s ≡ a ∷ pending s')

-- With both ends of the ring in range, a worker takes the oldest request that waits and leaves
-- the others in order, and takes none only if none waits.
pub take_request-Taken : (s : Resolver) → IsRing s → Taken s (take_request s)
unfolding take_request
take_request-Taken s v = elim (Bool-cases (s.head == s.tail)) [
  | inl e ↦
      let none_waits : waiting s ≡ 0 = ground (arith, e, v.head_in) in
      rw (take_request, e, none_waits) (unfold slice in refl)
  | inr e ↦
      let s' : Resolver = record s { tail = (s.tail + 1) % resolve_queue_length } in
      let fewer : waiting s ≡ suc (waiting s') = ground (arith, e, v.head_in, v.tail_in) in
      rw (take_request, e)
        (record { head_in = v.head_in; tail_in = omega arith }, rw fewer (unfold slice in refl))
]
