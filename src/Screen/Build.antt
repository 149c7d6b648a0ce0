-- ===== src/Screen/Build.antt =====
-- The rebuilding of the lines once the history is at hand: `analyse_data` and what it calls.
use iftopcolor.Shared.{
  ℕ, ◌+◌, ◌-◌, ◌*◌, ◌%◌, ◌^◌, Bool, true, ◌||◌, List, [], ◌∷◌, Option, none, some, ◌==◌,
  if◌then◌else◌, ltb, leb, get_or, range, map, flatten,
}
use iftopcolor.Pool.{Pool}
use iftopcolor.Hash.{Chain}
use iftopcolor.Hash.Mapped.{map_recs}
use iftopcolor.AddrHash.{AddrPair, addr_hash_delete_all_free, addr_hash_create}
use iftopcolor.History.{History, Flows, history_length}
use iftopcolor.Options.{Options, sort_div1, sort_div2, sort_div3, sort_src, sort_dest}
use iftopcolor.ProcInfo.{ProcInfo}
use iftopcolor.SortedList.{sorted_list_destroy, sorted_list_insert_batch, sorted_list_initialise}
use iftopcolor.Screen.Defs.{
  Num, Rates, HostPairLine, LineRef, Display, history_divs, no_rates, accumulate, analyse_table,
}
use iftopcolor.Screen.Compare.{screen_line_compare}

-- What lies outside of the screen: `slot_elapsed`, what `resolve`, or `inet_ntop` without the DNS,
-- writes for an address, and `qsort`.
pub record Surroundings (V : Type 0) : Type 0 where
  pub slot_elapsed : V
  pub resolve : ℕ → List ℕ → List ℕ
  pub inet_ntop : ℕ → List ℕ → List ℕ
  pub qsort : (ℕ → ℕ → Bool) → List ℕ → List ℕ

abbrev pub resolution : ℕ
resolution = 1

-- A long against an int that stands as a word: is it greater?
unfoldable pub exceeds : ℕ → ℕ → Bool
exceeds bytes peak = leb (2 ^ 31) peak || ltb peak bytes

unfoldable pub raise_peak : ℕ → ℕ → ℕ
raise_peak peak bytes = if exceeds bytes peak then bytes % 2 ^ 32 else peak

-- The loop over all slots.
unfoldable pub peaks : History → List ℕ → ℕ × ℕ × ℕ → ℕ × ℕ × ℕ
peaks totals [] p = p
peaks totals (i ∷ slots) (recv, sent, total) =
    let r = get_or totals.recv i 0 in
    let s = get_or totals.sent i 0 in
    peaks totals slots (raise_peak recv r, raise_peak sent s, raise_peak total (r + s))

module _ {V : Type 0} (num : Num V) where
  abbrev pub map_rates : (V → V → V) → Rates V → Rates V → Rates V
  map_rates f a b = record {
    div0 = f a.div0 b.div0;
    div1 = f a.div1 b.div1;
    div2 = f a.div2 b.div2;
  }

  -- history_length, of `history_divs[division]` slots
  unfoldable pub division_length : V → ℕ → ℕ → V
  division_length slot_elapsed history_len slots =
      let full_slots : ℕ = if ltb history_len slots then history_len else slots in
      if leb full_slots 1
      then if num.below (num.of_long 0) slot_elapsed then slot_elapsed else num.of_long resolution
      else num.add (num.of_long ((full_slots - 1) * resolution)) slot_elapsed

  abbrev pub division_lengths : V → ℕ → Rates V
  division_lengths slot_elapsed history_len = record {
    div0 = division_length slot_elapsed history_len history_divs.div0;
    div1 = division_length slot_elapsed history_len history_divs.div1;
    div2 = division_length slot_elapsed history_len history_divs.div2;
  }

  -- `inv_hist_len[i]`
  abbrev pub inverse : V → V
  inverse hl = if num.below (num.of_long 0) hl then num.div (num.of_long 1) hl else num.of_long 0

  abbrev pub inverses : Rates V → Rates V
  inverses r = record { div0 = inverse r.div0; div1 = inverse r.div1; div2 = inverse r.div2 }

  -- A total over the length of its division, if that is positive.
  abbrev pub per_second : V → V → V
  per_second total hl = if num.below (num.of_long 0) hl then num.div total hl else total

  unfoldable pub scale_line : Rates V → LineRef V → LineRef V
  scale_line inv_hist_len r = record r {
    line = record r.line {
      recv = map_rates num.mul r.line.recv inv_hist_len;
      sent = map_rates num.mul r.line.sent inv_hist_len;
    };
  }

  -- The name that a line is sorted by.
  unfoldable pub name_line : Options → Surroundings V → LineRef V → LineRef V
  name_line opts env r =
      let ntop = if opts.dnsresolution then env.resolve else env.inet_ntop in
      elim opts.sort [
        | sort_src ↦ record r {
          line = record r.line { cached_hostname = ntop r.line.ap.address_family r.line.ap.src };
        }
        | sort_dest ↦ record r {
          line = record r.line { cached_hostname = ntop r.line.ap.address_family r.line.ap.dst };
        }
        | sort_div1 ↦ r
        | sort_div2 ↦ r
        | sort_div3 ↦ r
      ]

  abbrev pub blocks : Chain AddrPair (LineRef V) → List ℕ
  blocks = map (λ n. n.rec.block)

  -- The line that a pointer leads to.
  unfoldable pub line_at : ℕ → Chain AddrPair (LineRef V) → Option (HostPairLine V)
  line_at block [] = none
  line_at block (n ∷ c) = if n.rec.block == block then some n.rec.line else line_at block c

  -- `screen_list.compare`, on pointers
  unfoldable pub compare_pointers : Options → Chain AddrPair (LineRef V) → ℕ → ℕ → Bool
  compare_pointers opts c left right = elim (line_at left c) [
    | none ↦ true
    | some aa ↦ elim (line_at right c) [
      | none ↦ true
      | some bb ↦ screen_line_compare num opts aa bb
    ]
  ]

  -- The walk over the lines, then, unless the order is frozen, the names and the sorted batch. A
  -- `realloc` that fails is left out.
  unfoldable pub make_screen_list : Options → Surroundings V → ℕ → Display V → Display V
  make_screen_list opts env history_len d =
      let table =
        map_recs (scale_line (inverses (division_lengths env.slot_elapsed history_len)))
          d.screen_hash in
      if opts.freezeorder
      then record d { screen_hash = table }
      else (let named = map_recs (name_line opts env) table in
          record d {
            screen_hash = named;
            screen_list =
                sorted_list_insert_batch (env.qsort (compare_pointers opts (flatten named)))
                  d.screen_list d.next_block (blocks (flatten named));
            next_block = d.next_block + 1;
          })

  abbrev pub clear_line : LineRef V → LineRef V
  clear_line r = record r {
    line = record r.line {
      total_recv = 0;
      total_sent = 0;
      recv = no_rates num;
      sent = no_rates num;
    };
  }

  unfoldable pub screen_hash_clear : Display V → Display V
  screen_hash_clear d = record d { screen_hash = map_recs clear_line d.screen_hash }

  unfoldable pub screen_list_clear : Display V → Display V
  screen_list_clear d = record d {
    peaksent = 0;
    peakrecv = 0;
    peaktotal = 0;
    screen_list = (sorted_list_destroy d.screen_list).0;
  }

  unfoldable pub calculate_totals : V → Flows → Display V → Display V
  calculate_totals slot_elapsed s d =
      let (recv, sent, total) =
        peaks s.history_totals (range 0 history_length) (d.peakrecv, d.peaksent, d.peaktotal) in
      let hl = division_lengths slot_elapsed s.history_len in
      record d {
        peakrecv = recv;
        peaksent = sent;
        peaktotal = total;
        totals_recv =
            map_rates per_second (accumulate num s.history_pos s.history_totals.recv d.totals_recv)
              hl;
        totals_sent =
            map_rates per_second (accumulate num s.history_pos s.history_totals.sent d.totals_sent)
              hl;
      }

  -- What stands before the loop over the flows: the node pool, and the display.
  unfoldable pub restart_lines : Options → Pool → Display V → Pool × Display V
  restart_lines opts pool d =
      let d' : Display V = record d { totals_recv = no_rates num; totals_sent = no_rates num } in
      if opts.freezeorder
      then (pool, screen_hash_clear d')
      else (let (pool', table, lines) = addr_hash_delete_all_free pool d'.screen_hash in
          (pool', record (screen_list_clear d') { screen_hash = table }))

  unfoldable pub analyse_data :
      Options → ProcInfo → Surroundings V → Flows → Display V → Flows × Display V
  analyse_data opts procs env s d =
      if opts.paused
      then (s, d)
      else (let (pool, d₁) = restart_lines opts s.node_pool d in
          let (history, pool', d₂) = analyse_table num opts procs s.history_pos s.history pool d₁ in
          let s' : Flows = record s { history = history; node_pool = pool' } in
          (s', calculate_totals env.slot_elapsed s' (make_screen_list opts env s.history_len d₂)))

  -- What `ui_init` sets up: screen_list_init and the table.
  unfoldable pub screen_init : Display V
  screen_init = record {
    screen_hash = addr_hash_create;
    screen_list = sorted_list_initialise;
    totals_recv = no_rates num;
    totals_sent = no_rates num;
    peaksent = 0;
    peakrecv = 0;
    peaktotal = 0;
    next_block = 0;
  }
