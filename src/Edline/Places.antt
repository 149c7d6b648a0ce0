-- ===== src/Edline/Places.antt =====
-- Places in a zipper's text: what the buffer's operations make of it.
use iftopcolor.Shared.{
  ℕ, suc, ◌+◌, ◌≡◌, refl, sym, ◌∙◌, [], ◌∷◌, ◌++◌, length, take, drop, get_or, arith, append-nil,
}
use iftopcolor.Stringmap.{Text}
use iftopcolor.Edline.Defs.{cut}
use iftopcolor.Edline.Zipper.{onto}

-- A place behind the cursor, counted from it.
abbrev pub at : Text → ℕ → ℕ
at [] k = k
at (c ∷ b) k = at b (suc k)

pub at-length : (b : Text) (k : ℕ) → at b k ≡ length b + k
at-length [] k = omega arith
at-length (c ∷ b) k = omega (arith, at-length b (suc k))

at-cursor : (b : Text) → at b 0 ≡ length b
at-cursor b = omega (arith, at-length b 0)

at-next : (b : Text) → at b 1 ≡ length b + 1
at-next b = omega (arith, at-length b 1)

take-at : (b a : Text) (k : ℕ) → take (at b k) (onto b a) ≡ onto b (take k a)
take-at [] a k = refl
take-at (c ∷ b) a k = take-at b (c ∷ a) (suc k)

drop-at : (b a : Text) (k : ℕ) → drop (at b k) (onto b a) ≡ drop k a
drop-at [] a k = refl
drop-at (c ∷ b) a k = drop-at b (c ∷ a) (suc k)

pub get_or-at : (b a : Text) (k : ℕ) → get_or (onto b a) (at b k) 0 ≡ get_or a k 0
get_or-at [] a k = refl
get_or-at (c ∷ b) a k = get_or-at b (c ∷ a) (suc k)

pub length-onto : (b a : Text) → length (onto b a) ≡ length b + length a
length-onto [] a = omega arith
length-onto (c ∷ b) a = omega (arith, length-onto b (c ∷ a))

pub onto-append : (b d a : Text) → onto b d ++ a ≡ onto b (d ++ a)
onto-append [] d a = refl
onto-append (c ∷ b) d a = onto-append b (c ∷ d) a

pub onto-turned : (a b : Text) → onto (onto a b) [] ≡ onto b a
onto-turned a b = go a b [] ∙ append-nil (onto b a)
  where
    go : (a b d : Text) → onto (onto a b) d ≡ onto b a ++ d
    go [] b d = sym (onto-append b [] d)
    go (c ∷ a) b d = go a (c ∷ b) d

pub take-cursor : (b a : Text) → take (length b) (onto b a) ≡ onto b []
take-cursor b a = rw⁻¹ (at-cursor b) (take-at b a 0)

pub drop-cursor : (b a : Text) → drop (length b) (onto b a) ≡ a
drop-cursor b a = rw⁻¹ (at-cursor b) (drop-at b a 0)

pub cut-cursor :
    (b a : Text) (n : ℕ) (d e : Text)
    → n ≡ length e
    → onto e d ≡ onto b a
    → cut (length b) n (onto b a) ≡ onto b d
unfolding cut
cut-cursor b a n d e len same =
    rw (take-cursor b a, len) (rw⁻¹ same (rw (drop-cursor e d) (onto-append b [] d)))
