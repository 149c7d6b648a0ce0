-- ===== src/AddrHash/Keys.antt =====
-- The table's interface to src/data/map/hash.c: comparing and hashing flow keys.
use iftopcolor.Shared.{ℕ, ◌<◌, ◌≡◌, refl, ap, ◌↔◌, true, List, [], ◌∷◌, arith}
use Prim.Native.Nat.{bit_and}
use iftopcolor.Shared.Bits.{bit_and-le}
use iftopcolor.Hash.{HashFns}
use iftopcolor.AddrHash.Defs.{AddrPair, addr_compare, addr_hash_bucket, bytes_eq, hash_table_size}

pub bytes_eq_refl : (a : List ℕ) → bytes_eq a a ≡ true
unfolding bytes_eq
bytes_eq_refl [] = refl
bytes_eq_refl (x ∷ xs) = ground (arith, bytes_eq_refl xs)

pub bytes_eq_sound : (a b : List ℕ) → bytes_eq a b ≡ true → a ≡ b
unfolding bytes_eq
bytes_eq_sound [] [] h = refl
bytes_eq_sound [] (y ∷ ys) h = cc
bytes_eq_sound (x ∷ xs) [] h = cc
bytes_eq_sound (x ∷ xs) (y ∷ ys) h = ground (arith, bytes_eq_sound xs ys)

-- Two flow keys compare equal exactly if they have the same address family, protocol, ports and
-- address bytes.
pub addr_compare_iff : (a b : AddrPair) → (addr_compare a b ≡ true) ↔ (a ≡ b)
unfolding addr_compare
addr_compare_iff a b = ground (
  arith,
  bytes_eq_sound a.src b.src,
  bytes_eq_sound a.dst b.dst,
  bytes_eq_refl a.src,
  bytes_eq_refl a.dst,
)

mask-lt : (h : ℕ) → bit_and h 2047 < hash_table_size
mask-lt h = omega (arith, bit_and-le h 2047)

pub addr_hash_bucket-lt : (a : AddrPair) → addr_hash_bucket a < hash_table_size
unfolding addr_hash_bucket
addr_hash_bucket-lt a = mask-lt _

pub addr_compare_refl : (a : AddrPair) → addr_compare a a ≡ true
addr_compare_refl a = (addr_compare_iff a a).1 refl

pub addr_compare_symm : (a b : AddrPair) → addr_compare a b ≡ addr_compare b a
addr_compare_symm a b = ground (arith, addr_compare_iff a b, addr_compare_iff b a)

pub addr_compare_trans :
    (a b c : AddrPair) → addr_compare a b ≡ true → addr_compare b c ≡ true → addr_compare a c ≡ true
addr_compare_trans a b c h k =
    ground (arith, addr_compare_iff a b, addr_compare_iff b c, addr_compare_iff a c)

pub addr_hash_bucket_congr :
    (a b : AddrPair) → addr_compare a b ≡ true → addr_hash_bucket a ≡ addr_hash_bucket b
addr_hash_bucket_congr a b h = ap addr_hash_bucket ((addr_compare_iff a b).0 h)

-- What `addr_hash_create` sets in the `hash_type`.
instance abbrev pub addr_fns : HashFns AddrPair
addr_fns = record {
  compare = addr_compare;
  hash = addr_hash_bucket;
  size = hash_table_size;
  compare_refl = addr_compare_refl;
  compare_symm = addr_compare_symm;
  compare_trans = addr_compare_trans;
  hash-compare = addr_hash_bucket_congr;
  hash-lt-size = addr_hash_bucket-lt;
}
