-- ===== src/Screen/Analysis.antt =====
-- One analysis of the flows, from the old lines to the new list.
use iftopcolor.Shared.{
  ℕ, ◌≤◌, ◌≡◌, refl, ◌∙◌, Bool, List, [], ◌∷◌, flatten, arith, Bool-cases, inl, inr, count, map,
}
use iftopcolor.Hash.{addrs}
use iftopcolor.AddrHash.Keys.{addr_fns}
use iftopcolor.SortedList.{SortedList, sorted_list_insert_batch}
use iftopcolor.SortedList.Sorted.{listed}
use iftopcolor.History.{Flows}
use iftopcolor.Packet.Accounts.{IsLedger}
use iftopcolor.Options.{Options, OptionSort, sort_div1, sort_div2, sort_div3, sort_src, sort_dest}
use iftopcolor.ProcInfo.{ProcInfo}
use iftopcolor.Screen.Defs.{Num, LineRef, Display, analyse_table}
use iftopcolor.Screen.Build.{
  Surroundings, scale_line, name_line, inverses, division_lengths, compare_pointers,
  make_screen_list, restart_lines, calculate_totals, analyse_data,
}
use iftopcolor.Screen.Sums.{analyse_table-Summed, analyse_table-flows}
use iftopcolor.Screen.Once.{analyse_table-IsMap}
use iftopcolor.Screen.Invariant.{
  IsDisplay, line_blocks, over_lines, over_lines-blocks, over_lines-addrs, over_lines-IsLines,
  restart_lines-Restarted,
}

-- What `qsort` promises of its result: it is the array in another order.
abbrev pub Permutes : {V : Type 0} → Surroundings V → Type 0
Permutes env =
    (compare : ℕ → ℕ → Bool) (l : List ℕ) (a : ℕ) → count a (env.qsort compare l) ≡ count a l

listed-batch :
    (qsort : List ℕ → List ℕ) (list : SortedList ℕ) (block a : ℕ) (l : List ℕ)
    → count a (qsort l) ≤ count a l
    → count a (listed list.nodes) ≤ count a l
    → count a (listed (sorted_list_insert_batch qsort list block l).nodes) ≤ count a l
unfolding sorted_list_insert_batch
listed-batch qsort list block a [] h k = k
listed-batch qsort list block a (x ∷ l) h k = rw (same (qsort (x ∷ l))) h
  where
    same : (l : List ℕ) → listed (map (λ y. record { block = block; item = y }) l) ≡ l
    same [] = refl
    same (y ∷ l) = rw (same l) refl

module _ {V : Type 0} (num : Num V) (opts : Options) (env : Surroundings V) (len : ℕ) where
  abbrev scaled : LineRef V → LineRef V
  scaled = scale_line num (inverses num (division_lengths num env.slot_elapsed len))

  scaled-block : (r : LineRef V) → (scaled r).block ≡ r.block
  unfolding scale_line
  scaled-block r = refl

  named-block : (r : LineRef V) → (name_line num opts env r).block ≡ r.block
  unfolding name_line
  named-block r = split opts.sort
    where
      split : (s : OptionSort) → (name_line num (record opts { sort = s }) env r).block ≡ r.block
      split sort_div1 = refl
      split sort_div2 = refl
      split sort_div3 = refl
      split sort_src = refl
      split sort_dest = refl

  -- The list is made again from lines that are all there, or stays as it is.
  pub make_screen_list-IsDisplay :
      (d : Display V)
      → Permutes env
      → IsDisplay d
      → IsDisplay (make_screen_list num opts env len d)
        × (addrs (flatten (make_screen_list num opts env len d).screen_hash)
            ≡ addrs (flatten d.screen_hash))
  unfolding make_screen_list
  make_screen_list-IsDisplay d perm v = elim (Bool-cases opts.freezeorder) [
    | inl e ↦
        simp (make_screen_list, e)
          (
            record {
              lines = over_lines-IsLines scaled scaled-block d v.lines;
              list = rw (over_lines-blocks scaled scaled-block d) v.list;
            },
            over_lines-addrs scaled scaled-block d,
          )
    | inr e ↦
        simp (make_screen_list, e)
          (
            record {
              lines =
                  (let w =
                      over_lines-IsLines (name_line num opts env) named-block d₁
                        (over_lines-IsLines scaled scaled-block d v.lines) in
                    record {
                      once = w.once;
                      alone = w.alone;
                      old = λ a late. w.old a (omega (arith, late));
                    });
              list = λ a.
                  listed-batch (env.qsort (compare_pointers num opts (flatten d₂.screen_hash)))
                    d.screen_list d.next_block a (line_blocks d₂)
                    (omega (
                      arith,
                      perm (compare_pointers num opts (flatten d₂.screen_hash)) (line_blocks d₂) a,
                    ))
                    (rw (over_lines-blocks (name_line num opts env) named-block d₁)
                      (rw (over_lines-blocks scaled scaled-block d) (v.list a)));
            },
            over_lines-addrs (name_line num opts env) named-block d₁
                ∙ over_lines-addrs scaled scaled-block d,
          )
  ]
    where
      d₁ : Display V
      d₁ = over_lines scaled scaled-block d

      d₂ : Display V
      d₂ = over_lines (name_line num opts env) named-block d₁

calculate_totals-IsDisplay :
    {V : Type 0} (num : Num V) (slot_elapsed : V) (s : Flows) (d : Display V)
    → IsDisplay d
    → IsDisplay (calculate_totals num slot_elapsed s d)
unfolding calculate_totals
calculate_totals-IsDisplay num slot_elapsed s d v = record {
  lines = record { once = v.lines.once; alone = v.lines.alone; old = v.lines.old };
  list = v.list;
}

module _ {V : Type 0} (num : Num V) (opts : Options) (procs : ProcInfo) (env : Surroundings V) where
  -- An analysis keeps the flows and the screen well formed: the flows' table and the screen's
  -- share the node pool, and each node of it that is handed out is in one of the two, once; the
  -- history pool's items are those of the flows; no flow has two records and no key two lines;
  -- every pointer of the screen's list leads to a line of the table, and to no line twice.
  -- `qsort` is taken to permute the array, and the state before to be well formed.
  pub analyse_data-IsDisplay :
      (s : Flows) (d : Display V)
      → Permutes env
      → IsLedger (addrs (flatten d.screen_hash)) s
      → IsDisplay d
      → let r = analyse_data num opts procs env s d in
        IsLedger (addrs (flatten r.1.screen_hash)) r.0 × IsDisplay r.1
  unfolding analyse_data calculate_totals
  analyse_data-IsDisplay s d perm ledger v = elim (Bool-cases opts.paused) [
    | inl e ↦ simp (analyse_data, e) (ledger, v)
    | inr e ↦
        let begun = restart_lines num opts s.node_pool d in
        let start = restart_lines-Restarted num opts s.node_pool d v in
        let done = analyse_table num opts procs s.history_pos s.history begun.0 begun.1 in
        let sums =
          analyse_table-Summed num opts procs s.history_pos s.history begun.0 begun.1
            start.still.lines in
        let w : IsDisplay done.2 = record {
          lines = sums.kept.still;
          list = λ a. rw (sums.kept.list) (omega (arith, start.still.list a, sums.kept.grown a));
        } in
        let made = make_screen_list-IsDisplay num opts env s.history_len done.2 perm w in
        simp (analyse_data, e)
          (
            record {
              flows = record {
                table =
                    (analyse_table-IsMap num opts procs s.history_pos s.history begun.0 begun.1
                      ledger.once).table;
                nodes =
                    rw
                      (
                        made.1,
                        analyse_table-flows num opts procs s.history_pos (λ n. n.addr)
                            (λ n r q. refl) s.history begun.0 begun.1,
                      )
                      (sums.kept.owned (addrs (flatten s.history))
                        (start.owned (addrs (flatten s.history)) ledger.flows.nodes));
                hists =
                    rw
                      (analyse_table-flows num opts procs s.history_pos (λ n. n.rec.item)
                        (λ n r q. q) s.history begun.0 begun.1)
                      ledger.flows.hists;
              };
              once =
                  analyse_table-IsMap num opts procs s.history_pos s.history begun.0 begun.1
                    ledger.once;
            },
            calculate_totals-IsDisplay num env.slot_elapsed
                (record s { history = done.0; node_pool = done.1 }) _ made.0,
          )
  ]
