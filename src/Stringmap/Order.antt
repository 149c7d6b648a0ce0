-- ===== src/Stringmap/Order.antt =====
-- `strcmp` is a total order.
use Prim.Native.Nat.{Ordering}
use iftopcolor.Shared.{◌≡◌, refl, [], ◌∷◌, arith, ◌↔◌}
use iftopcolor.Stringmap.Defs.{Text, strcmp}

pub strcmp_refl : (a : Text) → strcmp a a ≡ Ordering.eq
unfolding strcmp
strcmp_refl [] = refl
strcmp_refl (x ∷ xs) = ground (arith, strcmp_refl xs)

pub strcmp-eq : (a b : Text) → strcmp a b ≡ Ordering.eq → a ≡ b
unfolding strcmp
strcmp-eq [] [] h = refl
strcmp-eq [] (y ∷ ys) h = cc
strcmp-eq (x ∷ xs) [] h = cc
strcmp-eq (x ∷ xs) (y ∷ ys) h = ground (arith, strcmp-eq xs ys)

-- The other way round the sign is the opposite one.
pub strcmp_symm : (a b : Text) → (strcmp a b ≡ Ordering.lt) ↔ (strcmp b a ≡ Ordering.gt)
unfolding strcmp
strcmp_symm [] [] = ground arith
strcmp_symm [] (y ∷ ys) = ground arith
strcmp_symm (x ∷ xs) [] = ground arith
strcmp_symm (x ∷ xs) (y ∷ ys) = ground (arith, strcmp_symm xs ys)

pub strcmp_trans :
    (a b c : Text) → strcmp a b ≡ Ordering.lt → strcmp b c ≡ Ordering.lt → strcmp a c ≡ Ordering.lt
unfolding strcmp
strcmp_trans [] [] c h k = cc
strcmp_trans [] (y ∷ ys) [] h k = cc
strcmp_trans [] (y ∷ ys) (z ∷ zs) h k = refl
strcmp_trans (x ∷ xs) [] c h k = cc
strcmp_trans (x ∷ xs) (y ∷ ys) [] h k = cc
strcmp_trans (x ∷ xs) (y ∷ ys) (z ∷ zs) h k = ground (arith, strcmp_trans xs ys zs)
