-- ===== src/Vector/Removal.antt =====
-- Taking items out of a vector: at the end, and at any place.
use iftopcolor.Shared.{
  ℕ, zero, suc, ◌+◌, ◌-◌, ◌/◌, ◌≤◌, ◌<◌, ◌≡◌, refl, ap, ◌∙◌, sym, false, List, [], ◌∷◌, ◌++◌, arith,
  ltb, leb, set, take, drop, length, length-set, length-take, length-drop, length-append,
  Bool-cases, inl, inr, ◌&&◌, if◌then◌else◌, true, none, some,
}
use iftopcolor.Vector.Defs.{
  Vector, vector_pop_back, Removal, null, at, overrun_move, overrun_clear, vector_remove, memmove,
  memset, shrunk,
}
use iftopcolor.Vector.Contents.{
  contents, IsVector, cut_out, vector_reallocate-Resized, take_append_le, take-take, take-set_later,
}

take-empty : (n : ℕ) (xs : List ℕ) → ltb 0 n ≡ false → take n xs ≡ take (n - 1) (take n xs)
take-empty zero xs e = refl
take-empty (suc n) xs e = absurd (ground arith)

-- vector_pop_back on a well-formed vector takes the last item away, if there is one, also when it
-- shrinks the memory, and leaves the vector well formed.
pub vector_pop_back-contents :
    (v : Vector)
    → IsVector v
    → IsVector (vector_pop_back v)
      × (contents (vector_pop_back v) ≡ take (v.n_used - 1) (contents v))
unfolding vector_pop_back
vector_pop_back-contents v h = elim (Bool-cases (ltb 0 v.n_used)) [
  | inr e ↦ rw (vector_pop_back, e) (h, take-empty v.n_used v.items e)
  | inl e ↦
      let w : Vector = record v { n_used = v.n_used - 1 } in
      let hw : IsVector w = record {
        allocated = h.allocated;
        fits = omega (arith, h.fits);
        room = h.room;
      } in
      elim (Bool-cases (ltb w.n_used (w.capacity / 2))) [
        | inl f ↦
            let r = vector_reallocate-Resized w (w.capacity / 2) hw in
            rw (vector_pop_back, e, f) (r.still, r.same ∙ shorter)
        | inr f ↦ rw (vector_pop_back, e, f) (hw, shorter)
      ]
]
  where
    shorter : take (v.n_used - 1) v.items ≡ take (v.n_used - 1) (contents v)
    shorter = sym (take-take (v.n_used - 1) v.n_used v.items (omega arith))

take-cut_out :
    (n i : ℕ) (xs zs : List ℕ)
    → i < n
    → n < length xs
    → take n (take i xs ++ (take (suc n - i) (drop (i + 1) xs) ++ zs)) ≡ cut_out i (take (suc n) xs)
take-cut_out n i [] zs lt k = absurd (omega arith)
take-cut_out n zero (x ∷ xs) zs lt k =
    let e : suc n - 0 ≡ suc n = omega arith in
    rw e (
      take_append_le n (take (suc n) xs) zs (omega (arith, length-take (suc n) xs))
      ∙ take-take n (suc n) xs (omega arith))
take-cut_out zero (suc i) (x ∷ xs) zs lt k = absurd (omega arith)
take-cut_out (suc n) (suc i) (x ∷ xs) zs lt k =
    let e : suc (suc n) - suc i ≡ suc n - i = omega arith in
    let f : suc i + 1 ≡ suc (i + 1) = omega arith in
    rw (e, f) (ap (◌∷◌ x) (take-cut_out n i xs zs (omega arith) (omega arith)))

cut_out_last : (n : ℕ) (xs : List ℕ) → n < length xs → take n xs ≡ cut_out n (take (suc n) xs)
cut_out_last n [] k = absurd (omega arith)
cut_out_last zero (x ∷ xs) k = refl
cut_out_last (suc n) (x ∷ xs) k = ap (◌∷◌ x) (cut_out_last n xs (omega arith))

-- The outcomes of a removal at an index.
abbrev pub Removes : Vector → ℕ → Removal → Type 0
Removes v i (null w) = (v.n_used ≤ i) × (w ≡ v)
Removes v i (at j w) =
    (i < v.n_used)
    × (v.n_used < v.capacity)
    × (j ≡ i)
    × IsVector w
    × (contents w ≡ cut_out i (contents v))
Removes v i overrun_move = (suc i < v.n_used) × (v.n_used ≡ v.capacity)
Removes v i overrun_clear = (suc i ≡ v.n_used) × (v.n_used ≡ v.capacity)

-- What the memmove leaves.
abbrev moved : ℕ → ℕ → List ℕ → List ℕ
moved n i items =
    if ltb (i + 1) n
    then take i items ++ (take (n - i) (drop (i + 1) items) ++ drop n items)
    else items

-- And what the memset leaves behind it.
abbrev shift_down : Vector → ℕ → Vector
shift_down vec i = record vec {
  items = set (moved vec.n_used i vec.items) vec.n_used 0;
  n_used = vec.n_used - 1;
}

moved-contents :
    (n i : ℕ) (xs : List ℕ)
    → i < n
    → n < length xs
    → take (n - 1) (set (moved n i xs) n 0) ≡ cut_out i (take n xs)
moved-contents zero i xs lt k = absurd (omega arith)
moved-contents (suc m) i xs lt k =
    let e : suc m - 1 ≡ m = omega arith in
    rw (e, take-set_later m (suc m) (moved (suc m) i xs) 0 (omega arith))
      (elim (Bool-cases (ltb (i + 1) (suc m))) [
        | inl f ↦ rw f (take-cut_out m i xs (drop (suc m) xs) (ground arith) (omega arith))
        | inr f ↦
            let last : i ≡ m = ground arith in rw (moved, f, last) (cut_out_last m xs (omega arith))
      ])

length-moved : (n i : ℕ) (xs : List ℕ) → i < n → n < length xs → length (moved n i xs) ≡ length xs
length-moved n i xs lt k = elim (Bool-cases (ltb (i + 1) n)) [
  | inr f ↦ rw f
  | inl f ↦ rw f (
      omega (
        arith,
        length-append (take i xs) (take (n - i) (drop (i + 1) xs) ++ drop n xs),
        length-append (take (n - i) (drop (i + 1) xs)) (drop n xs),
        length-take i xs,
        length-take (n - i) (drop (i + 1) xs),
        length-drop (i + 1) xs,
        length-drop n xs,
      ))
]

shift_down-contents :
    (v : Vector) (i : ℕ)
    → IsVector v
    → i < v.n_used
    → v.n_used < v.capacity
    → IsVector (shift_down v i) × (contents (shift_down v i) ≡ cut_out i (contents v))
shift_down-contents v i h lt room =
    let inside : v.n_used < length v.items = omega (arith, h.allocated) in
    (
      record {
        allocated =
            length-set (moved v.n_used i v.items) v.n_used 0
            ∙ length-moved v.n_used i v.items lt inside
            ∙ h.allocated;
        fits = omega arith;
        room = h.room;
      },
      moved-contents v.n_used i v.items lt inside,
    )

-- The memmove and the memset with room to spare.
memmove-moved :
    (n i : ℕ) (items : List ℕ)
    → i < n
    → n < length items
    → memmove n i items ≡ some (moved n i items)
unfolding memmove
memmove-moved n i items lt k = elim (Bool-cases (ltb (i + 1) n)) [
  | inr e ↦ rw (memmove, e) refl
  | inl e ↦
      let inside : leb (i + 1 + (n - i)) (length items) ≡ true = ground (arith, lt, k) in
      rw (memmove, e, inside) refl
]

memset-set : (n : ℕ) (items : List ℕ) → n < length items → memset n items ≡ some (set items n 0)
unfolding memset
memset-set n items k = ground arith

memmove-none :
    (n i : ℕ) (items : List ℕ) → ltb (i + 1) n ≡ true → length items ≡ n → memmove n i items ≡ none
unfolding memmove
memmove-none n i items e k =
    let outside : leb (i + 1 + (n - i)) (length items) ≡ false = ground (arith, e, k) in
    rw (memmove, e, outside) refl

memset-none : (n : ℕ) (items : List ℕ) → length items ≡ n → memset n items ≡ none
unfolding memset
memset-none n items k = ground arith

shrunk-contents :
    (v : Vector) → IsVector v → IsVector (shrunk v) × (contents (shrunk v) ≡ contents v)
unfolding shrunk
shrunk-contents v h = elim (Bool-cases (ltb v.n_used (v.capacity / 2) && ltb 16 v.capacity)) [
  | inl g ↦
      let r = vector_reallocate-Resized v (v.capacity / 2) h in rw (shrunk, g) (r.still, r.same)
  | inr g ↦ rw (shrunk, g) (h, refl)
]

-- vector_remove of a place behind the used ones changes nothing and returns NULL. Of a used place
-- in a well-formed vector with room to spare it cuts the item out and returns that place. In a
-- vector that is full it touches one item behind the allocation: of the last place, where it does
-- not move anything, only the memset does so; of an earlier place already the memmove.
pub vector_remove-Removes : (v : Vector) (i : ℕ) → IsVector v → Removes v i (vector_remove v i)
unfolding vector_remove
vector_remove-Removes v i h = elim (Bool-cases (leb v.n_used i)) [
  | inl e ↦ rw (vector_remove, e) (ground arith, refl)
  | inr e ↦ elim (Bool-cases (ltb v.n_used v.capacity)) [
    | inl f ↦
        let inside : v.n_used < length v.items = ground (arith, h.allocated) in
        let lt : i < v.n_used = ground arith in
        let room : v.n_used < v.capacity = ground arith in
        let s = shift_down-contents v i h lt room in
        let r = shrunk-contents (shift_down v i) s.0 in
        let same = length-moved v.n_used i v.items lt inside in
        let set_lem = memset-set v.n_used (moved v.n_used i v.items) (omega (arith, same)) in
        rw (vector_remove, e, memmove-moved v.n_used i v.items lt inside, set_lem)
          (lt, room, refl, r.0, r.1 ∙ s.1)
    | inr f ↦ elim (Bool-cases (ltb (i + 1) v.n_used)) [
      | inl g ↦
          let out : memmove v.n_used i v.items ≡ none =
            memmove-none v.n_used i v.items g (ground (arith, h.allocated, h.fits)) in
          rw (vector_remove, e, out) (ground arith, ground (arith, h.fits))
      | inr g ↦
          let kept : memmove v.n_used i v.items ≡ some v.items = rw (memmove, g) refl in
          let out : memset v.n_used v.items ≡ none =
            memset-none v.n_used v.items (ground (arith, h.allocated, h.fits)) in
          rw (vector_remove, e, kept, out) (ground arith, ground (arith, h.fits))
    ]
  ]
]
