-- ===== src/Screen/Invariant.antt =====
-- The invariant of the screen: what its table, its list and the pools know of each other.
use iftopcolor.Shared.{
  ℕ, ◌≤◌, ◌≡◌, refl, List, [], ◌∷◌, ◌++◌, flatten, arith, Bool-cases, inl, inr, count, append-nil,
}
use iftopcolor.Pool.{Pool}
use iftopcolor.Pool.Owned.{IsOwned}
use iftopcolor.Hash.{addrs, clear_heads}
use iftopcolor.Hash.Replace.{clear_heads-IsMap}
use iftopcolor.Hash.Mapped.{map_recs, map-map_recs, map_recs-IsMap}
use iftopcolor.Hash.Overwrite.{ids}
use iftopcolor.AddrHash.{addr_hash_delete_all_free}
use iftopcolor.AddrHash.Keys.{addr_fns}
use iftopcolor.AddrHash.Emptied.{flatten-clear_heads, free_chains-IsOwned}
use iftopcolor.SortedList.{SortedNode, SortedList, sorted_list_destroy, emptied}
use iftopcolor.SortedList.Sorted.{listed}
use iftopcolor.Options.{Options}
use iftopcolor.Screen.Defs.{Num, LineRef, Display, no_rates}
use iftopcolor.Screen.Build.{clear_line, screen_hash_clear, screen_list_clear, restart_lines}
use iftopcolor.Screen.Lines.{IsLines}

listed_emptied : (list : SortedList ℕ) → listed (sorted_list_destroy list).0.nodes ≡ []
unfolding sorted_list_destroy emptied
listed_emptied list = split list.nodes refl
  where
    split : (l : List (SortedNode ℕ)) → list.nodes ≡ l → listed (emptied l list).nodes ≡ []
    split [] e = rw e refl
    split (n ∷ l) e = refl

module _ {V : Type 0} where
  abbrev pub line_blocks : Display V → List ℕ
  line_blocks d = ids (λ r. r.block) (flatten d.screen_hash)

  -- Every pointer of the list leads to a line of the table, and no line is listed twice.
  abbrev pub IsListed : Display V → Type 0
  IsListed d = (a : ℕ) → count a (listed d.screen_list.nodes) ≤ count a (line_blocks d)

  pub record IsDisplay (d : Display V) : Type 0 where
    pub lines : IsLines d
    pub list : IsListed d

  -- A loop over the lines that leaves them where they are.
  module _ (f : LineRef V → LineRef V) (same : (r : LineRef V) → (f r).block ≡ r.block)
      (d : Display V) where
    abbrev pub over_lines : Display V
    over_lines = record d { screen_hash = map_recs f d.screen_hash }

    pub over_lines-blocks : line_blocks over_lines ≡ line_blocks d
    over_lines-blocks = map-map_recs f (λ n. n.rec.block) d.screen_hash (λ n. same n.rec)

    pub over_lines-addrs : addrs (flatten over_lines.screen_hash) ≡ addrs (flatten d.screen_hash)
    over_lines-addrs = map-map_recs f (λ n. n.addr) d.screen_hash (λ n. refl)

    pub over_lines-IsLines : IsLines d → IsLines over_lines
    over_lines-IsLines v = record {
      once = map_recs-IsMap f d.screen_hash v.once;
      alone = rw over_lines-blocks v.alone;
      old = rw over_lines-blocks v.old;
    }

  -- The nodes of the emptied table.
  pub cleared-IsLines :
      (d : Display V) → IsLines d → IsLines (record d { screen_hash = clear_heads d.screen_hash })
  cleared-IsLines d v = record {
    once = clear_heads-IsMap d.screen_hash v.once;
    alone = λ a. rw (flatten-clear_heads d.screen_hash) (omega arith);
    old = λ a late. rw (flatten-clear_heads d.screen_hash) refl;
  }

module _ {V : Type 0} (num : Num V) (opts : Options) where
  -- Before the loop over the flows: emptied, or, with the order frozen, zeroed.
  pub record Restarted (pool : Pool) (d : Display V) (pool' : Pool) (d' : Display V) : Type 0 where
    pub still : IsDisplay d'
    pub owned :
        (live : List ℕ)
        → IsOwned (live ++ addrs (flatten d.screen_hash)) pool
        → IsOwned (live ++ addrs (flatten d'.screen_hash)) pool'

  pub restart_lines-Restarted :
      (pool : Pool) (d : Display V)
      → IsDisplay d
      → let r = restart_lines num opts pool d in Restarted pool d r.0 r.1
  unfolding restart_lines screen_hash_clear screen_list_clear addr_hash_delete_all_free
  restart_lines-Restarted pool d v = elim (Bool-cases opts.freezeorder) [
    | inl e ↦
        simp (restart_lines, e)
          (record {
            still = record {
              lines = over_lines-IsLines (clear_line num) (λ r. refl) start begun;
              list = rw (over_lines-blocks (clear_line num) (λ r. refl) d) v.list;
            };
            owned = λ live o. rw (over_lines-addrs (clear_line num) (λ r. refl) d) o;
          })
    | inr e ↦
        simp (restart_lines, e)
          (record {
            still = record {
              lines =
                  (let w = cleared-IsLines d v.lines in
                    record { once = w.once; alone = w.alone; old = w.old });
              list = λ a. rw (listed_emptied d.screen_list) (omega arith);
            };
            owned = λ live o.
                rw (flatten-clear_heads d.screen_hash, append-nil live)
                  (free_chains-IsOwned live d.screen_hash pool o);
          })
  ]
    where
      start : Display V
      start = record d { totals_recv = no_rates num; totals_sent = no_rates num }

      begun : IsLines start
      begun = record { once = v.lines.once; alone = v.lines.alone; old = v.lines.old }
