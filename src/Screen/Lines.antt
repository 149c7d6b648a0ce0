-- ===== src/Screen/Lines.antt =====
-- What one flow does to the lines.
use iftopcolor.Shared.{
  ℕ, ◌+◌, ◌≤◌, ◌≡◌, refl, ◌∙◌, sym, false, List, ◌++◌, flatten, Option, none, some, arith, ◌==◌,
  Option-cases, inl, inr, count, count-append, to_nat,
}
use iftopcolor.Pool.{Pool, pool_alloc}
use iftopcolor.Pool.Owned.{IsOwned, pool_alloc-IsOwned}
use iftopcolor.Hash.{addrs, hash_find, hash_insert}
use iftopcolor.Hash.Replace.{IsMap, hash_insert-IsMap, hash_find-hash_insert}
use iftopcolor.Hash.Census.{count-hash_insert}
use iftopcolor.Hash.Overwrite.{ids}
use iftopcolor.AddrHash.{AddrPair, addr_hash_find, addr_compare}
use iftopcolor.AddrHash.Keys.{addr_fns}
use iftopcolor.AddrHash.Generic.{addr_hash_find-generic, addr_hash_insert-generic}
use iftopcolor.Screen.Defs.{Num, HostPairLine, LineRef, Display, fresh_line, find_or_add}

module _ {V : Type 0} where
  -- One line to a key, each in an allocation of its own.
  pub record IsLines (d : Display V) : Type 0 where
    pub once : IsMap d.screen_hash
    pub alone : (a : ℕ) → count a (ids (λ r. r.block) (flatten d.screen_hash)) ≤ 1
    pub old : (a : ℕ) → d.next_block ≤ a → count a (ids (λ r. r.block) (flatten d.screen_hash)) ≡ 0

  -- The line that the table has for a key.
  abbrev pub line_of : Option (LineRef V) → Option (HostPairLine V)
  line_of none = none
  line_of (some r) = some r.line

  abbrev pub shown_line : Display V → AddrPair → Option (HostPairLine V)
  shown_line d q = line_of (addr_hash_find d.screen_hash q)

  -- The lines after some work on them: where they are, and what the work leaves alone.
  pub record Kept (pool : Pool) (d : Display V) (pool' : Pool) (d' : Display V) : Type 0 where
    pub still : IsLines d'
    pub owned :
        (live : List ℕ)
        → IsOwned (live ++ addrs (flatten d.screen_hash)) pool
        → IsOwned (live ++ addrs (flatten d'.screen_hash)) pool'
    pub grown :
        (a : ℕ)
        → count a (ids (λ r. r.block) (flatten d.screen_hash))
          ≤ count a (ids (λ r. r.block) (flatten d'.screen_hash))
    pub list : d'.screen_list ≡ d.screen_list

  pub kept_twice :
      {p₁ p₂ p₃ : Pool} {d₁ d₂ d₃ : Display V}
      → Kept p₁ d₁ p₂ d₂
      → Kept p₂ d₂ p₃ d₃
      → Kept p₁ d₁ p₃ d₃
  kept_twice k l = record {
    still = l.still;
    owned = λ live o. l.owned live (k.owned live o);
    grown = λ a. omega (arith, k.grown a, l.grown a);
    list = l.list ∙ k.list;
  }

module _ {V : Type 0} (num : Num V) where
  abbrev pub or_fresh : AddrPair → Option (HostPairLine V) → HostPairLine V
  or_fresh key none = fresh_line num key
  or_fresh key (some line) = line

  module _ (key : AddrPair) (pool : Pool) (d : Display V) where
    pub record Opened (r : LineRef V) (pool' : Pool) (d' : Display V) : Type 0 where
      pub kept : Kept pool d pool' d'
      pub here : hash_find d'.screen_hash key ≡ some r
      pub line : r.line ≡ or_fresh key (shown_line d key)
      pub elsewhere :
          (q : AddrPair)
          → addr_compare key q ≡ false
          → hash_find d'.screen_hash q ≡ hash_find d.screen_hash q

    abbrev new_ref : LineRef V
    new_ref = record { block = d.next_block; line = fresh_line num key }

    abbrev with_line : Display V
    with_line = record d {
      screen_hash = (hash_insert d.screen_hash (pool_alloc pool).0 key new_ref).1;
      next_block = d.next_block + 1;
    }

    created :
        addr_hash_find d.screen_hash key ≡ none
        → find_or_add num key pool d ≡ (new_ref, (pool_alloc pool).1, with_line)
    unfolding find_or_add
    created e = rw (find_or_add, e, addr_hash_insert-generic pool d.screen_hash key new_ref) refl

    with_line-IsLines : IsLines d → IsMap with_line.screen_hash → IsLines with_line
    with_line-IsLines v m = record {
      once = m;
      alone = λ a. ground (arith, v.alone a, v.old a, added a);
      old = λ a late. ground (arith, v.old a, added a);
    }
      where
        added :
            (a : ℕ)
            → count a (ids (λ r. r.block) (flatten with_line.screen_hash))
              ≡ to_nat (d.next_block == a) + count a (ids (λ r. r.block) (flatten d.screen_hash))
        added a =
            count-hash_insert (λ n. n.rec.block) a d.screen_hash (pool_alloc pool).0 key new_ref
              v.once.table

    pub find_or_add-Opened : IsLines d → let r = find_or_add num key pool d in Opened r.0 r.1 r.2
    unfolding find_or_add
    find_or_add-Opened v = elim (Option-cases (addr_hash_find d.screen_hash key)) [
      | inr (r, e) ↦
          rw (find_or_add, e)
            (record {
              kept = record {
                still = v;
                owned = λ live o. o;
                grown = λ a. omega arith;
                list = refl;
              };
              here = sym (addr_hash_find-generic d.screen_hash key) ∙ e;
              line = rw e refl;
              elsewhere = λ q ne. refl;
            })
      | inl e ↦
          let missing = sym (addr_hash_find-generic d.screen_hash key) ∙ e in
          let node : ℕ = (pool_alloc pool).0 in
          let found = hash_find-hash_insert d.screen_hash v.once key missing node new_ref in
          let m = hash_insert-IsMap d.screen_hash v.once key missing node new_ref in
          rw (created e) (record {
            kept = record {
              still = with_line-IsLines v m;
              owned = λ live o a. omega (
                arith,
                pool_alloc-IsOwned (live ++ addrs (flatten d.screen_hash)) pool o a,
                count-append a live (addrs (flatten d.screen_hash)),
                count-append a live (addrs (flatten with_line.screen_hash)),
                count-hash_insert (λ n. n.addr) a d.screen_hash node key new_ref v.once.table,
              );
              grown = λ a. omega (
                arith,
                count-hash_insert (λ n. n.rec.block) a d.screen_hash node key new_ref v.once.table,
              );
              list = refl;
            };
            here = rw (found key, addr_fns.compare_refl key) refl;
            line = rw e refl;
            elsewhere = λ q ne. rw (found q, ne) refl;
          })
    ]
