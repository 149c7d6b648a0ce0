-- ===== src/SortedList/Sorted.antt =====
-- The order that an insertion keeps.
use mathlib.Core.List.{Perm}
use mathlib.Core.List.Perm
use iftopcolor.Shared.{
  ℕ, ◌≡◌, Bool, true, false, List, [], ◌∷◌, arith, Bool-cases, inl, inr, map, ◌⊎◌,
}
use iftopcolor.SortedList.Defs.{SortedNode, SortedList, insert_node, sorted_list_insert}

module _ {A : Type 0} (compare : A → A → Bool) where
  -- `a` may stand in front of `b`: `b` goes behind it, or it does not go behind `b`.
  abbrev pub Before : A → A → Type 0
  Before a b = (compare b a ≡ true) ⊎ (compare a b ≡ false)

  abbrev pub IsSorted : List A → Type 0
  IsSorted [] = Unit {0}
  IsSorted (a ∷ []) = Unit {0}
  IsSorted (a ∷ b ∷ l) = Before a b × IsSorted (b ∷ l)

abbrev pub listed {ℓ} : {A : Type ℓ} → List (SortedNode A) → List A
listed = map (λ n. n.item)

module _ {A : Type 0} (compare : A → A → Bool) where
  IsSorted-tail : (a : A) (l : List A) → IsSorted compare (a ∷ l) → IsSorted compare l
  IsSorted-tail a [] s = tt
  IsSorted-tail a (b ∷ l) s = s.1

  insert_node-after :
      (n m : SortedNode A) (l : List (SortedNode A))
      → compare n.item m.item ≡ true
      → IsSorted compare (listed (m ∷ l))
      → IsSorted compare (listed (insert_node compare n l))
      → IsSorted compare (listed (m ∷ insert_node compare n l))
  unfolding insert_node
  insert_node-after n m [] c s t = ground arith
  insert_node-after n m (k ∷ l) c s t = elim (Bool-cases (compare n.item k.item)) [
    | inl e ↦ rw e (s.0, rw e at t)
    | inr e ↦ rw e (inl c, rw e at t)
  ]

  insert_node-IsSorted :
      (n : SortedNode A) (l : List (SortedNode A))
      → IsSorted compare (listed l)
      → IsSorted compare (listed (insert_node compare n l))
  unfolding insert_node
  insert_node-IsSorted n [] s = tt
  insert_node-IsSorted n (m ∷ l) s = elim (Bool-cases (compare n.item m.item)) [
    | inl e ↦
        rw e (
          insert_node-after n m l e s
            (insert_node-IsSorted n l (IsSorted-tail m.item (listed l) s)))
    | inr e ↦ rw e (inr e, s)
  ]

  insert_node-perm :
      (n : SortedNode A) (l : List (SortedNode A))
      → Perm (listed (insert_node compare n l)) (n.item ∷ listed l)
  unfolding insert_node
  insert_node-perm n [] = Perm.refl _
  insert_node-perm n (m ∷ l) = elim (Bool-cases (compare n.item m.item)) [
    | inl e ↦
        rw e (
          Perm.trans (Perm.cons m.item (insert_node-perm n l)) (Perm.swap n.item m.item (listed l)))
    | inr e ↦ rw e (Perm.refl _)
  ]

  -- Whatever the comparison is, sorted_list_insert into a list in order leaves a list in order
  -- that holds the old items and the new one.
  pub sorted_list_insert-IsSorted :
      (list : SortedList A) (block : ℕ) (item : A)
      → IsSorted compare (listed list.nodes)
      → IsSorted compare (listed (sorted_list_insert compare list block item).nodes)
        × Perm
            (listed (sorted_list_insert compare list block item).nodes)
            (item ∷ listed list.nodes)
  unfolding sorted_list_insert
  sorted_list_insert-IsSorted list block item s =
      (insert_node-IsSorted _ list.nodes s, insert_node-perm _ list.nodes)
