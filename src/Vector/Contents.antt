-- ===== src/Vector/Contents.antt =====
-- A vector as the list of its used items.
use iftopcolor.Shared.{
  ℕ, zero, suc, ◌-◌, ◌*◌, ◌≤◌, ◌<◌, ◌≡◌, refl, ap, ◌∙◌, true, List, [], ◌∷◌, ◌++◌, arith, ltb, leb,
  ◌==◌, set, take, replicate, length, length-set, length-take, length-append, length-replicate,
  ◌||◌, Bool-cases, inl, inr,
}
use native.Mathlib.Numerals.{add-one}
use iftopcolor.Vector.Defs.{Vector, vector_new, vector_reallocate, vector_push_back, store_back}

abbrev pub contents : Vector → List ℕ
contents v = take v.n_used v.items

pub record IsVector (v : Vector) : Type 0 where
  pub allocated : length v.items ≡ v.capacity
  pub fits : v.n_used ≤ v.capacity
  pub room : 1 ≤ v.capacity

-- The item before which a list is cut out.
abbrev pub cut_out : ℕ → List ℕ → List ℕ
cut_out i [] = []
cut_out zero (x ∷ xs) = xs
cut_out (suc i) (x ∷ xs) = x ∷ cut_out i xs

pub take_append_le : (n : ℕ) (xs ys : List ℕ) → n ≤ length xs → take n (xs ++ ys) ≡ take n xs
take_append_le zero xs ys h = refl
take_append_le (suc n) [] ys h = absurd (omega arith)
take_append_le (suc n) (x ∷ xs) ys h = ap (◌∷◌ x) (take_append_le n xs ys (omega arith))

pub take-take : (n m : ℕ) (xs : List ℕ) → n ≤ m → take n (take m xs) ≡ take n xs
take-take zero m xs h = refl
take-take (suc n) zero xs h = absurd (omega arith)
take-take (suc n) (suc m) [] h = refl
take-take (suc n) (suc m) (x ∷ xs) h = ap (◌∷◌ x) (take-take n m xs (omega arith))

take-set_end :
    (n : ℕ) (xs : List ℕ) (v : ℕ) → n < length xs → take (suc n) (set xs n v) ≡ take n xs ++ v ∷ []
take-set_end zero [] v h = absurd (omega arith)
take-set_end zero (x ∷ xs) v h = refl
take-set_end (suc n) [] v h = absurd (omega arith)
take-set_end (suc n) (x ∷ xs) v h = ap (◌∷◌ x) (take-set_end n xs v (omega arith))

pub take-set_later : (n i : ℕ) (xs : List ℕ) (v : ℕ) → n ≤ i → take n (set xs i v) ≡ take n xs
take-set_later zero i xs v h = refl
take-set_later (suc n) i [] v h = refl
take-set_later (suc n) zero (x ∷ xs) v h = absurd (omega arith)
take-set_later (suc n) (suc i) (x ∷ xs) v h = ap (◌∷◌ x) (take-set_later n i xs v (omega arith))

length_kept :
    (n c : ℕ) (xs : List ℕ) → n ≤ length xs → n ≤ c → length (take n xs ++ replicate (c - n) 0) ≡ c
length_kept n c xs h k = omega (
  arith,
  length-append (take n xs) (replicate (c - n) 0),
  length-take n xs,
  length-replicate {A = ℕ} (c - n) 0,
)

contents_kept :
    (n c : ℕ) (xs : List ℕ) → n ≤ length xs → take n (take n xs ++ replicate c 0) ≡ take n xs
contents_kept n c xs h =
    take_append_le n (take n xs) (replicate c 0) (omega (arith, length-take n xs))
    ∙ take-take n n xs (omega arith)

-- A new capacity, or a refusal, and the same items.
pub record Resized (v w : Vector) : Type 0 where
  pub still : IsVector w
  pub same : contents w ≡ contents v
  pub used : w.n_used ≡ v.n_used

pub vector_reallocate-Resized :
    (v : Vector) (c : ℕ) → IsVector v → Resized v (vector_reallocate v c)
unfolding vector_reallocate
vector_reallocate-Resized v c h = elim (Bool-cases (ltb c v.n_used || leb c 0)) [
  | inl e ↦ rw (vector_reallocate, e) (record { still = h; same = refl; used = refl })
  | inr e ↦
      rw (vector_reallocate, e)
        (record {
          still = record {
            allocated =
                length_kept v.n_used c v.items (omega (arith, h.fits, h.allocated)) (ground arith);
            fits = ground arith;
            room = ground arith;
          };
          same = contents_kept v.n_used (c - v.n_used) v.items (omega (arith, h.fits, h.allocated));
          used = refl;
        })
]

pub vector_new-IsVector : IsVector vector_new × (contents vector_new ≡ [])
unfolding vector_new
vector_new-IsVector = (record { allocated = refl; fits = omega arith; room = omega arith }, refl)

store_back-contents :
    (v : Vector) (x : ℕ)
    → IsVector v
    → v.n_used < v.capacity
    → IsVector (store_back v x) × (contents (store_back v x) ≡ contents v ++ x ∷ [])
unfolding store_back
store_back-contents v x h lt = (
  record {
    allocated = length-set v.items v.n_used x ∙ h.allocated;
    fits = omega arith;
    room = h.room;
  },
  ap (λ (n : ℕ). take n (set v.items v.n_used x)) (add-one v.n_used)
      ∙ take-set_end v.n_used v.items x (omega (arith, h.allocated)),
)

-- vector_push_back on a well-formed vector appends the item, doubling the memory when it is full,
-- and leaves the vector well formed.
pub vector_push_back-contents :
    (v : Vector) (x : ℕ)
    → IsVector v
    → IsVector (vector_push_back v x) × (contents (vector_push_back v x) ≡ contents v ++ x ∷ [])
unfolding vector_push_back
vector_push_back-contents v x h = elim (Bool-cases (v.n_used == v.capacity)) [
  | inl full ↦
      let r = vector_reallocate-Resized v (v.capacity * 2) h in
      let s = store_back-contents (vector_reallocate v (v.capacity * 2)) x r.still (grown full r) in
      rw (vector_push_back, full) (s.0, s.1 ∙ ap (λ c. c ++ x ∷ []) r.same)
  | inr room ↦ rw (vector_push_back, room) (store_back-contents v x h (ground (arith, h.fits)))
]
  where
    grown :
        (v.n_used == v.capacity) ≡ true
        → Resized v (vector_reallocate v (v.capacity * 2))
        → (vector_reallocate v (v.capacity * 2)).n_used
          < (vector_reallocate v (v.capacity * 2)).capacity
    grown full r = unfold vector_reallocate in ground (arith, h.room)
