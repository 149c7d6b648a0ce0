-- ===== src/SortedList/Defs.antt =====
-- The operations of src/data/sorted_list.c.
use iftopcolor.Shared.{
  ℕ, ◌+◌, Bool, true, false, List, [], ◌∷◌, Option, none, some, if◌then◌else◌, get_elem?, map,
}

pub record SortedNode {ℓ} (A : Type ℓ) : Type ℓ where
  pub block : ℕ
  pub item : A

pub record SortedList {ℓ} (A : Type ℓ) : Type ℓ where
  pub nodes : List (SortedNode A)
  pub batch_allocated : Bool

module _ {ℓ} {A : Type ℓ} where
  unfoldable pub sorted_list_initialise : SortedList A
  sorted_list_initialise = record { nodes = []; batch_allocated = false }

  -- `compare a b` is a positive result: `a` goes behind `b`.
  unfoldable pub insert_node :
      (A → A → Bool) → SortedNode A → List (SortedNode A) → List (SortedNode A)
  insert_node compare n [] = n ∷ []
  insert_node compare n (m ∷ l) =
      if compare n.item m.item then m ∷ insert_node compare n l else n ∷ m ∷ l

  unfoldable pub sorted_list_insert : (A → A → Bool) → SortedList A → ℕ → A → SortedList A
  unfolding insert_node
  sorted_list_insert compare list block item = record list {
    nodes = insert_node compare (record { block = block; item = item }) list.nodes;
  }

  -- The nodes of a batch lie in one block, and take the place of what the list held.
  unfoldable pub sorted_list_insert_batch :
      (List A → List A) → SortedList A → ℕ → List A → SortedList A
  sorted_list_insert_batch qsort list block [] = list
  sorted_list_insert_batch qsort list block (x ∷ xs) = record {
    nodes = map (λ y. record { block = block; item = y }) (qsort (x ∷ xs));
    batch_allocated = true;
  }

  -- The node behind a node, which is known by its place, or the first one.
  unfoldable pub sorted_list_next_item : SortedList A → Option ℕ → Option (SortedNode A)
  sorted_list_next_item list none = get_elem? list.nodes 0
  sorted_list_next_item list (some i) = get_elem? list.nodes (i + 1)

  -- The blocks that are freed: that of the first node of a batch, or each node's.
  unfoldable pub freed_blocks : Bool → List (SortedNode A) → List ℕ
  freed_blocks batch [] = []
  freed_blocks true (n ∷ l) = n.block ∷ []
  freed_blocks false (n ∷ l) = map (λ m. m.block) (n ∷ l)

  unfoldable pub emptied : List (SortedNode A) → SortedList A → SortedList A
  emptied [] list = list
  emptied (n ∷ l) list = record { nodes = []; batch_allocated = false }

  unfoldable pub sorted_list_destroy : SortedList A → SortedList A × List ℕ
  unfolding freed_blocks emptied
  sorted_list_destroy list = (emptied list.nodes list, freed_blocks list.batch_allocated list.nodes)
