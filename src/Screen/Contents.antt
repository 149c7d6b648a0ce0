-- ===== src/Screen/Contents.antt =====
-- What an analysis shows: the line of every key.
use iftopcolor.Shared.{
  ℕ, ◌-◌, ◌*◌, ltb, leb, Bool, true, ◌≡◌, refl, ap, ◌∙◌, false, flatten, Option, none, some,
  if◌then◌else◌, Bool-cases, inl, inr,
}
use iftopcolor.Pool.{Pool}
use iftopcolor.Hash.{hash_find, clear_heads}
use iftopcolor.Hash.Records.{records-clear_heads, hash_find-first}
use iftopcolor.Hash.Mapped.{map_recs, map_found, hash_find-map_recs}
use iftopcolor.AddrHash.{AddrPair, addr_hash_delete_all_free}
use iftopcolor.AddrHash.Keys.{addr_fns}
use iftopcolor.AddrHash.Generic.{addr_hash_find-generic}
use iftopcolor.History.{Flows}
use iftopcolor.Options.{Options, OptionSort, sort_div1, sort_div2, sort_div3, sort_src, sort_dest}
use iftopcolor.ProcInfo.{ProcInfo}
use iftopcolor.Screen.Defs.{Num, Rates, HostPairLine, LineRef, Display, analyse_table}
use iftopcolor.Screen.Build.{
  Surroundings, resolution, scale_line, name_line, inverses, division_lengths, division_length,
  make_screen_list, clear_line, screen_hash_clear, screen_list_clear, restart_lines,
  calculate_totals, analyse_data,
}
use iftopcolor.Screen.Lines.{shown_line, line_of}
use iftopcolor.Screen.Sums.{summed, analyse_table-Summed}
use iftopcolor.Screen.Invariant.{IsDisplay, restart_lines-Restarted}

module _ {V : Type 0} where
  abbrev pub on_line : (LineRef V → LineRef V) → HostPairLine V → HostPairLine V
  on_line f line = (f (record { block = 0; line = line })).line

  abbrev pub on_shown :
      (HostPairLine V → HostPairLine V) → Option (HostPairLine V) → Option (HostPairLine V)
  on_shown f none = none
  on_shown f (some line) = some (f line)

  over_shown :
      (f : LineRef V → LineRef V)
      → ((r : LineRef V) → (f r).line ≡ on_line f r.line)
      → (d : Display V) (q : AddrPair)
      → shown_line (record d { screen_hash = map_recs f d.screen_hash }) q
        ≡ on_shown (on_line f) (shown_line d q)
  over_shown f same d q =
      rw
        (
          addr_hash_find-generic (map_recs f d.screen_hash) q,
          addr_hash_find-generic d.screen_hash q,
          hash_find-map_recs f d.screen_hash q,
        )
        (split (hash_find d.screen_hash q))
    where
      split : (o : Option (LineRef V)) → line_of (map_found f o) ≡ on_shown (on_line f) (line_of o)
      split none = refl
      split (some r) = rw (same r) refl

module _ {V : Type 0} (num : Num V) (opts : Options) where
  -- The line that a key starts with: none, or, with the order frozen, its old one, zeroed.
  abbrev pub started : Display V → AddrPair → Option (HostPairLine V)
  started d q =
      if opts.freezeorder then on_shown (on_line (clear_line num)) (shown_line d q) else none

  restart_lines-started :
      (pool : Pool) (d : Display V) (q : AddrPair)
      → shown_line (restart_lines num opts pool d).1 q ≡ started d q
  unfolding restart_lines screen_hash_clear screen_list_clear addr_hash_delete_all_free
  restart_lines-started pool d q = elim (Bool-cases opts.freezeorder) [
    | inl e ↦ simp (restart_lines, e) (over_shown (clear_line num) (λ r. refl) d q)
    | inr e ↦
        simp (restart_lines, e)
          (rw
            (
              addr_hash_find-generic (clear_heads d.screen_hash) q,
              hash_find-first (clear_heads d.screen_hash) q,
              records-clear_heads d.screen_hash q,
            )
            refl)
  ]

  module _ (env : Surroundings V) (len : ℕ) where
    abbrev scaled : LineRef V → LineRef V
    scaled = scale_line num (inverses num (division_lengths num env.slot_elapsed len))

    -- A line once it is listed: its sums over the lengths of the divisions, and its name.
    abbrev finished_lines : HostPairLine V → HostPairLine V
    finished_lines =
        if opts.freezeorder
        then on_line scaled
        else (λ line. on_line (name_line num opts env) (on_line scaled line))

    scaled-line : (r : LineRef V) → (scaled r).line ≡ on_line scaled r.line
    unfolding scale_line
    scaled-line r = refl

    named-line :
        (r : LineRef V) → (name_line num opts env r).line ≡ on_line (name_line num opts env) r.line
    unfolding name_line
    named-line r = split opts.sort
      where
        split :
            (s : OptionSort)
            → (name_line num (record opts { sort = s }) env r).line
              ≡ on_line (name_line num (record opts { sort = s }) env) r.line
        split sort_div1 = refl
        split sort_div2 = refl
        split sort_div3 = refl
        split sort_src = refl
        split sort_dest = refl

    make_screen_list-finished :
        (d : Display V) (q : AddrPair)
        → shown_line (make_screen_list num opts env len d) q
          ≡ on_shown finished_lines (shown_line d q)
    unfolding make_screen_list
    make_screen_list-finished d q = elim (Bool-cases opts.freezeorder) [
      | inl e ↦ simp (make_screen_list, finished_lines, e) (over_shown scaled scaled-line d q)
      | inr e ↦
          simp (make_screen_list, finished_lines, e)
            (over_shown (name_line num opts env) named-line
                (record d { screen_hash = map_recs scaled d.screen_hash }) q
              ∙ ap (on_shown (on_line (name_line num opts env))) (over_shown scaled scaled-line d q)
              ∙ twice (shown_line d q))
    ]
      where
        twice :
            (o : Option (HostPairLine V))
            → on_shown (on_line (name_line num opts env)) (on_shown (on_line scaled) o)
              ≡ on_shown (λ l. on_line (name_line num opts env) (on_line scaled l)) o
        twice none = refl
        twice (some l) = refl

    -- The seconds of a division: those of its full slots but the newest, and of the newest one.
    abbrev pub seconds_of : ℕ → V
    seconds_of slots =
        let full : ℕ = if ltb len slots then len else slots in
        if leb full 1
        then if num.below (num.of_long 0) env.slot_elapsed
          then env.slot_elapsed
          else num.of_long resolution
        else num.add (num.of_long ((full - 1) * resolution)) env.slot_elapsed

    -- A sum by the length of its division, and 0 for a length that is not positive.
    abbrev pub over_length : V → V → V
    over_length total length =
        num.mul total (
          if num.below (num.of_long 0) length
          then num.div (num.of_long 1) length
          else num.of_long 0)

    abbrev pub over_lengths : Rates V → Rates V
    over_lengths r = record {
      div0 = over_length r.div0 (seconds_of 2);
      div1 = over_length r.div1 (seconds_of 10);
      div2 = over_length r.div2 (seconds_of 40);
    }

    -- The name of an address, if the lines are sorted by it.
    abbrev pub named_by : OptionSort → HostPairLine V → HostPairLine V
    named_by sort_div1 line = line
    named_by sort_div2 line = line
    named_by sort_div3 line = line
    named_by sort_src line = record line {
      cached_hostname =
          (if opts.dnsresolution then env.resolve else env.inet_ntop) line.ap.address_family
            line.ap.src;
    }
    named_by sort_dest line = record line {
      cached_hostname =
          (if opts.dnsresolution then env.resolve else env.inet_ntop) line.ap.address_family
            line.ap.dst;
    }

    -- A line once it is listed: its sums over the lengths of the divisions, and its name.
    abbrev pub finished : HostPairLine V → HostPairLine V
    finished line =
        let divided : HostPairLine V = record line {
          recv = over_lengths line.recv;
          sent = over_lengths line.sent;
        } in
        if opts.freezeorder then divided else named_by opts.sort divided

    on_line-named_by :
        (line : HostPairLine V) → on_line (name_line num opts env) line ≡ named_by opts.sort line
    unfolding name_line
    on_line-named_by line = split opts.sort
      where
        split :
            (s : OptionSort)
            → on_line (name_line num (record opts { sort = s }) env) line ≡ named_by s line
        split sort_div1 = refl
        split sort_div2 = refl
        split sort_div3 = refl
        split sort_src = refl
        split sort_dest = refl

    finished_lines-finished : (line : HostPairLine V) → finished_lines line ≡ finished line
    unfolding scale_line division_length
    finished_lines-finished line = split opts.freezeorder
      where
        divided : HostPairLine V
        divided = record line { recv = over_lengths line.recv; sent = over_lengths line.sent }

        split :
            (b : Bool)
            → (if b
                  then on_line scaled
                  else (λ l. on_line (name_line num opts env) (on_line scaled l)))
                line
              ≡ (if b then divided else named_by opts.sort divided)
        split true = refl
        split false = on_line-named_by (on_line scaled line)

    on_shown-finished :
        (o : Option (HostPairLine V)) → on_shown finished_lines o ≡ on_shown finished o
    on_shown-finished none = refl
    on_shown-finished (some line) = ap some (finished_lines-finished line)

  -- Unless the display is paused, an analysis leaves for every key the line that it starts with,
  -- charged with exactly those flows whose aggregated key it is, in the order of the walk: each
  -- adds its totals, and its newest 2, 10 and 40 slots, received and sent, to the divisions. Both
  -- are then multiplied by the inverses of the divisions' lengths, and the line is named after
  -- the address that it is sorted by. A key of no flow has a line only if the order is frozen and
  -- it had one. The screen is well formed before.
  pub analyse_data-summed :
      (procs : ProcInfo) (env : Surroundings V) (s : Flows) (d : Display V) (q : AddrPair)
      → opts.paused ≡ false
      → IsDisplay d
      → shown_line (analyse_data num opts procs env s d).1 q
        ≡ on_shown
            (finished env s.history_len)
            (summed num opts procs s.history_pos q (flatten s.history) (started d q))
  unfolding analyse_data calculate_totals
  analyse_data-summed procs env s d q e v =
      let begun = restart_lines num opts s.node_pool d in
      let start = restart_lines-Restarted num opts s.node_pool d v in
      let done = analyse_table num opts procs s.history_pos s.history begun.0 begun.1 in
      let sums =
        analyse_table-Summed num opts procs s.history_pos s.history begun.0 begun.1
          start.still.lines in
      simp (analyse_data, e)
        (make_screen_list-finished env s.history_len done.2 q
          ∙ ap (on_shown (finished_lines env s.history_len)) (
              sums.lines q
              ∙ ap (summed num opts procs s.history_pos q (flatten s.history))
                  (restart_lines-started s.node_pool d q))
          ∙ on_shown-finished env s.history_len
              (summed num opts procs s.history_pos q (flatten s.history) (started d q)))
