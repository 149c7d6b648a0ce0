-- ===== src/Stringmap/Dictionary.antt =====
-- The tree as a dictionary.
use Prim.Native.Nat.{Ordering}
use iftopcolor.Shared.{◌≡◌, refl, Option, none, some, arith, Bool, true, false, if◌then◌else◌}
use iftopcolor.Stringmap.Defs.{
  Text, strcmp, Tree, leaf, node, Stringmap, null, blank, root, insert_at, find_at,
  stringmap_insert, stringmap_find, stringmap_assign, assign_at, stringmap_new,
}
use iftopcolor.Stringmap.Order.{strcmp_refl, strcmp-eq}

abbrev pub text_eq : Text → Text → Bool
text_eq a b = elim (strcmp a b) [ Ordering.eq ↦ true | _ ↦ false ]

abbrev pub or_else {ℓ} : {A : Type ℓ} → Option A → Option A → Option A
or_else (some a) b = some a
or_else none b = b

-- The new item, where there was one.
abbrev pub kept {ℓ} : {A : Type ℓ} → Option A → A → Option A
kept (some a) b = some b
kept none b = none

module _ {V : Type 0} where
  find_at-insert_at :
      (t : Tree V) (k j : Text) (v : V)
      → find_at (insert_at t k v) j
        ≡ (if text_eq j k then or_else (find_at t k) (some v) else find_at t j)
  unfolding find_at insert_at
  find_at-insert_at leaf k j v = ground arith
  find_at-insert_at (node i w l g) k j v = ground (
    arith,
    find_at-insert_at l k j v,
    find_at-insert_at g k j v,
    strcmp-eq j k,
    strcmp-eq k i,
    strcmp-eq j i,
    strcmp_refl k,
    strcmp_refl i,
    strcmp_refl j,
  )

  find_at-assign_at :
      (t : Tree V) (k j : Text) (v : V)
      → find_at (assign_at t k v) j ≡ (if text_eq j k then kept (find_at t k) v else find_at t j)
  unfolding find_at assign_at
  find_at-assign_at leaf k j v = ground arith
  find_at-assign_at (node i w l g) k j v = ground (
    arith,
    find_at-assign_at l k j v,
    find_at-assign_at g k j v,
    strcmp-eq j k,
    strcmp-eq k i,
    strcmp-eq j i,
    strcmp_refl k,
    strcmp_refl i,
    strcmp_refl j,
  )

  -- A map that has been allocated.
  abbrev pub IsMap : Stringmap V → Type 0
  IsMap null = ⊥
  IsMap blank = Unit
  IsMap (root k v l g) = Unit

  -- stringmap_insert into a map that is not NULL returns what a lookup of the key finds;
  -- afterwards that key has its old item, or the new one if it had none, and every other key what
  -- it had.
  pub stringmap_insert-find :
      (m : Stringmap V) (k j : Text) (v : V)
      → IsMap m
      → IsMap (stringmap_insert m k v).0
        × ((stringmap_insert m k v).1 ≡ stringmap_find m k)
        × (stringmap_find (stringmap_insert m k v).0 j
            ≡ (if text_eq j k then or_else (stringmap_find m k) (some v) else stringmap_find m j))
  unfolding stringmap_insert stringmap_find find_at
  stringmap_insert-find null k j v h = absurd h
  stringmap_insert-find blank k j v h = (tt, refl, ground arith)
  stringmap_insert-find (root i w l g) k j v h = (
    ground arith,
    ground arith,
    unfold insert_at in ground (arith, find_at-insert_at (node i w l g) k j v),
  )

  -- A write through the pointer that stringmap_find returns changes the item of that key, if it
  -- has one, and no other.
  pub stringmap_assign-find :
      (m : Stringmap V) (k j : Text) (v : V)
      → stringmap_find (stringmap_assign m k v) j
        ≡ (if text_eq j k then kept (stringmap_find m k) v else stringmap_find m j)
  unfolding stringmap_assign stringmap_find assign_at
  stringmap_assign-find null k j v = ground arith
  stringmap_assign-find blank k j v = ground arith
  stringmap_assign-find (root i w l g) k j v =
      ground (arith, find_at-assign_at (node i w l g) k j v)

  pub stringmap_new-find :
      (j : Text) → IsMap (stringmap_new {V = V}) × (stringmap_find (stringmap_new {V = V}) j ≡ none)
  unfolding stringmap_new stringmap_find
  stringmap_new-find j = (tt, refl)
