-- ===== src/SortedList/Blocks.antt =====
-- The memory of the list: what insertions allocate and what `sorted_list_destroy` frees.
use iftopcolor.Shared.{
  ℕ, ◌+◌, ◌≡◌, refl, Bool, false, List, [], ◌∷◌, arith, map, count, to_nat, ◌==◌,
}
use iftopcolor.SortedList.Defs.{
  SortedNode, SortedList, insert_node, sorted_list_insert, sorted_list_initialise,
  sorted_list_destroy, freed_blocks, emptied,
}

module _ {A : Type 0} where
  abbrev blocks : List (SortedNode A) → List ℕ
  blocks = map (λ n. n.block)

  -- Insertions one after the other, each with the block that it allocates.
  pub insert_all : (A → A → Bool) → SortedList A → List (ℕ × A) → SortedList A
  insert_all compare list [] = list
  insert_all compare list ((b, x) ∷ rest) =
      insert_all compare (sorted_list_insert compare list b x) rest

  abbrev pub allocated : List (ℕ × A) → List ℕ
  allocated = map (λ p. p.0)

  module _ (compare : A → A → Bool) where
    count-insert_node :
        (a : ℕ) (n : SortedNode A) (l : List (SortedNode A))
        → count a (blocks (insert_node compare n l)) ≡ to_nat (n.block == a) + count a (blocks l)
    unfolding insert_node
    count-insert_node a n [] = refl
    count-insert_node a n (m ∷ l) = ground (arith, count-insert_node a n l)

    insert_all-blocks :
        (a : ℕ) (list : SortedList A) (xs : List (ℕ × A))
        → list.batch_allocated ≡ false
        → (count a (blocks (insert_all compare list xs).nodes)
            ≡ count a (allocated xs) + count a (blocks list.nodes))
          × ((insert_all compare list xs).batch_allocated ≡ false)
    unfolding insert_all sorted_list_insert
    insert_all-blocks a list [] h = (omega arith, h)
    insert_all-blocks a list ((b, x) ∷ rest) h =
        let ih = insert_all-blocks a (sorted_list_insert compare list b x) rest h in
        (omega (arith, ih.0, count-insert_node a (record { block = b; item = x }) list.nodes), ih.1)

    freed-single : (l : List (SortedNode A)) → freed_blocks false l ≡ blocks l
    unfolding freed_blocks
    freed-single [] = refl
    freed-single (n ∷ l) = refl

    emptied-nodes :
        (l : List (SortedNode A)) (list : SortedList A)
        → list.nodes ≡ l
        → (emptied l list).nodes ≡ []
    unfolding emptied
    emptied-nodes [] list e = e
    emptied-nodes (n ∷ l) list e = refl

    -- sorted_list_destroy of a list that single insertions have built from the empty one leaves
    -- no nodes and frees every block that the insertions allocated, as often as it was allocated.
    pub sorted_list_destroy-inserted :
        (xs : List (ℕ × A)) (a : ℕ)
        → let r = sorted_list_destroy (insert_all compare sorted_list_initialise xs) in
          (r.0.nodes ≡ []) × (count a r.1 ≡ count a (allocated xs))
    unfolding sorted_list_destroy sorted_list_initialise
    sorted_list_destroy-inserted xs a =
        let built = insert_all compare sorted_list_initialise xs in
        let h = insert_all-blocks a sorted_list_initialise xs refl in
        (
          emptied-nodes built.nodes built refl,
          rw (h.1, freed-single built.nodes) (omega (arith, h.0)),
        )
