-- ===== src/Print/Frame.antt =====
-- The whole frame.
use iftopcolor.Shared.{
  ℕ, zero, suc, ◌+◌, ◌-◌, ◌%◌, ◌^◌, Bool, true, ◌&&◌, ◌||◌, not, List, [], ◌∷◌, ◌++◌, Option, none,
  some, ◌==◌, ltb, leb, if◌then◌else◌, take, codes,
}
use iftopcolor.Stringmap.{Text}
use iftopcolor.Options.{
  Options, OptionLinedisplay, two_line, one_line_both, one_line_recv, one_line_sent,
}
use iftopcolor.Screen.{HostPairLine, Rates, Num, is_empty}
use iftopcolor.Print.Defs.{
  Draw, addstr, rule, bar, hint, help, Floats, Terminal, Names, print_decimal, sprint_host,
  host_width, screen_filter_match, from_right, arrow, on, off, color_of, weight_of, next_row,
  readable_size, draw_line_total,
}

-- The globals that a frame shows: the sorted lines, the sums, and the help line if it is on. `marks`
-- are the marks of the bars' scale.
pub record Screenful (V : Type 0) : Type 0 where
  pub dontshowdisplay : Bool
  pub lines : List (HostPairLine V)
  pub totals_sent : Rates V
  pub totals_recv : Rates V
  pub peaksent : ℕ
  pub peakrecv : ℕ
  pub peaktotal : ℕ
  pub total_sent : ℕ
  pub total_recv : ℕ
  pub helpmsg : Option Text
  pub marks : List (ℕ × Text)

-- A division's rate.
abbrev pub rate_at : {V : Type 0} → ℕ → Rates V → V
rate_at zero r = r.div0
rate_at (suc zero) r = r.div1
rate_at (suc (suc j)) r = r.div2

abbrev pub from_bottom : Terminal → ℕ → Option ℕ
from_bottom term n = if leb n term.rows then some (term.rows - n) else none

-- By how much `y` grows with a line.
abbrev pub line_rows : OptionLinedisplay → ℕ
line_rows two_line = 2
line_rows one_line_both = 1
line_rows one_line_recv = 1
line_rows one_line_sent = 1

unfoldable pub proc_label : ℕ → Text → Text
proc_label pid name =
    take 79 (codes " [" ++ print_decimal pid ++ codes ":" ++ take 12 name ++ codes "]")

-- The first loop of ui_print, from a node on: how many nodes it has passed, and the last of them with
-- what follows it, or NULL.
unfoldable pub pass_lines : {A : Type 0} → ℕ → ℕ → Option (List A) → List A → ℕ × Option (List A)
pass_lines zero i nn next = (i, nn)
pass_lines (suc left) i nn [] = (i, none)
pass_lines (suc left) i nn (l ∷ rest) = pass_lines left (i + 1) (some rest) rest

-- The labels of the marks.
unfoldable pub draw_marks : {F : Type 0} → List (ℕ × Text) → List (Draw F)
draw_marks [] = []
draw_marks ((x, label) ∷ marks) =
    (on (color_of (codes "SCALE_MARKERS_COLOR"))
      ∷ ((addstr (some 0) (some x) label ∷ [])
          ++ off (color_of (codes "SCALE_MARKERS_COLOR")) ∷ []))
    ++ draw_marks marks

module _ {V F : Type 0} (num : Num V) (fl : Floats V F) (term : Terminal) (opts : Options) where
  -- The bar of a rate, in the colour and weight of an array.
  unfoldable pub one_bar : Option ℕ → V → Text → List (Draw F)
  one_bar row rate name =
      (on (weight_of name) ∷ ((bar row (fl.narrow rate) name ∷ []) ++ off (weight_of name) ∷ []))

  unfoldable pub draw_line_bars : Option ℕ → Rates V → Rates V → OptionLinedisplay → List (Draw F)
  draw_line_bars row sent recv two_line =
      one_bar row (rate_at opts.bar_interval sent) (codes "SENT_BAR_COLOR")
      ++ one_bar (next_row row) (rate_at opts.bar_interval recv) (codes "RECEIVE_BAR_COLOR")
  draw_line_bars row sent recv one_line_sent =
      one_bar row (rate_at opts.bar_interval sent) (codes "SENT_BAR_COLOR")
  draw_line_bars row sent recv one_line_recv =
      one_bar row (rate_at opts.bar_interval recv) (codes "RECEIVE_BAR_COLOR")
  draw_line_bars row sent recv one_line_both =
      one_bar row (num.add (rate_at opts.bar_interval recv) (rate_at opts.bar_interval sent))
        (codes "BOTH_BAR_COLOR")

  -- One of the columns of rates.
  abbrev pub column : Option ℕ → Rates V → Rates V → OptionLinedisplay → ℕ → List (Draw F)
  column row sent recv display j =
      draw_line_total fl (fl.narrow (rate_at j sent)) (fl.narrow (rate_at j recv)) row
        (from_right term 24 j) display opts.bandwidth_in_bytes

  unfoldable pub draw_line_totals : Option ℕ → Rates V → Rates V → OptionLinedisplay → List (Draw F)
  draw_line_totals row sent recv display =
      (column row sent recv display 0
        ++ column row sent recv display 1
        ++ column row sent recv display 2)
      ++ (if opts.showbars then draw_line_bars row sent recv display else [])

  -- The sum of a division, in the last row.
  abbrev pub sum_column : Rates V → Rates V → ℕ → List (Draw F)
  sum_column sent recv j =
      (on (color_of (codes "TOTAL_LABEL_COLOR"))
        ∷ ((addstr (from_bottom term 1) (from_right term 24 j) (
                readable_size fl (fl.narrow (num.add (rate_at j sent) (rate_at j recv))) 10 1024
                  opts.bandwidth_in_bytes)
              ∷ [])
            ++ off (color_of (codes "TOTAL_LABEL_COLOR")) ∷ []))

  unfoldable pub draw_totals : Rates V → Rates V → List (Draw F)
  draw_totals sent recv =
      draw_line_totals (from_bottom term 3) sent recv two_line
      ++ sum_column sent recv 0
      ++ sum_column sent recv 1
      ++ sum_column sent recv 2

  -- draw_bar_scale: its calls, and the row behind it.
  unfoldable pub draw_bar_scale : List (ℕ × Text) → List (Draw F) × ℕ
  draw_bar_scale marks =
      if opts.showbars then (rule (some 1) ∷ draw_marks marks, 2) else (rule (some 0) ∷ [], 1)

  module _ (names : Names) (regexec : Text → Bool) where
    abbrev pub host1 : HostPairLine V → Text
    host1 l =
        sprint_host names opts l.ap.address_family l.ap.src l.ap.src_port l.ap.protocol
          (host_width term opts)

    abbrev pub host2 : HostPairLine V → Text
    host2 l =
        sprint_host names opts l.ap.address_family l.ap.dst l.ap.dst_port l.ap.protocol
          (host_width term opts)

    -- Not the case in which the loop goes on with the next line.
    abbrev pub passes : HostPairLine V → Bool
    passes l =
        screen_filter_match regexec opts (host1 l) || screen_filter_match regexec opts (host2 l)

    -- The parts of a line in row `y`.
    abbrev pub first_host : ℕ → HostPairLine V → List (Draw F)
    first_host y l =
        (on (color_of (codes "HOST1_COLOR"))
          ∷ ((addstr (some y) (some 0) (host1 l) ∷ [])
              ++ off (color_of (codes "HOST1_COLOR")) ∷ []))

    abbrev pub its_arrow : ℕ → List (Draw F)
    its_arrow y =
        (on (color_of (codes "DL_UL_INDICATOR_COLOR"))
          ∷ ((arrow y (host_width term opts) opts.linedisplay)
              ++ off (color_of (codes "DL_UL_INDICATOR_COLOR")) ∷ []))

    abbrev pub second_host : ℕ → HostPairLine V → List (Draw F)
    second_host y l =
        (on (color_of (codes "HOST2_COLOR"))
          ∷ ((addstr (some y) (some (host_width term opts + 4)) (host2 l) ∷ [])
              ++ off (color_of (codes "HOST2_COLOR")) ∷ []))

    abbrev pub its_process : ℕ → HostPairLine V → List (Draw F)
    its_process y l =
        let x = host_width term opts + 4 + host_width term opts in
        (on (color_of (codes "PROC_NAME_COLOR"))
          ∷ ((addstr (some y) (some x) (proc_label l.pid l.process_name) ∷ [])
              ++ off (color_of (codes "PROC_NAME_COLOR")) ∷ []))

    abbrev pub its_sum : ℕ → HostPairLine V → List (Draw F)
    its_sum y l =
        draw_line_total fl (fl.of_nat l.total_sent) (fl.of_nat l.total_recv) (some y)
          (from_right term 32 0) opts.linedisplay true

    abbrev pub names_process : HostPairLine V → Bool
    names_process l = opts.show_processes && not (is_empty l.process_name)

    unfoldable pub draw_line : ℕ → HostPairLine V → List (Draw F)
    draw_line y l =
        first_host y l
        ++ its_arrow y
        ++ second_host y l
        ++ (if names_process l then its_process y l else [])
        ++ (if opts.show_totals then its_sum y l else [])
        ++ draw_line_totals (some y) l.sent l.recv opts.linedisplay

    -- The second loop, from a row on, over the nodes that are left.
    unfoldable pub print_from : ℕ → List (HostPairLine V) → List (Draw F)
    print_from y [] = []
    print_from y (l ∷ lines) =
        let over = print_from y lines in
        let shown = draw_line y l ++ print_from (y + line_rows opts.linedisplay) lines in
        if ltb y (term.rows - 5) then (if passes l then shown else over) else []

    unfoldable pub print_lines : ℕ → List (HostPairLine V) → List (Draw F)
    print_lines y lines =
        let (i, nn) = pass_lines opts.screen_offset 0 none lines in
        elim nn [ some rest ↦ print_from y rest | none ↦ if i == 0 then print_from y lines else [] ]

    -- A figure, in the three rows of the sums.
    abbrev pub figure : ℕ → ℕ → F → Bool → Draw F
    figure n x rate bytes =
        addstr (from_bottom term n) (some x) (readable_size fl rate 10 1024 bytes)

    -- Divided by RESOLUTION.
    abbrev pub peak : ℕ → F
    peak p = fl.div (fl.of_int p) (fl.of_nat 1)

    unfoldable pub draw_footer : Screenful V → List (Draw F)
    draw_footer sh =
        (on (color_of (codes "BOTTOM_BAR_COLOR"))
          ∷ ((rule (from_bottom term 4) ∷ []) ++ off (color_of (codes "BOTTOM_BAR_COLOR")) ∷ []))
        ++ addstr (from_bottom term 3) (some 0) (codes "TX: ")
          ∷ addstr (from_bottom term 2) (some 0) (codes "RX: ")
          ∷ []
        ++ (on (color_of (codes "TOTAL_LABEL_COLOR"))
            ∷ ((addstr (from_bottom term 1) (some 0) (codes "TOTAL: ") ∷ [])
                ++ off (color_of (codes "TOTAL_LABEL_COLOR")) ∷ []))
        ++ (on (color_of (codes "CUM_LABEL_COLOR"))
            ∷ ((addstr (from_bottom term 3) (some 16) (codes "cum: ") ∷ [])
                ++ off (color_of (codes "CUM_LABEL_COLOR")) ∷ []))
        ++ (on (color_of (codes "CUM_TRANSFER_COLUMN_COLOR"))
            ∷ ((figure 3 22 (fl.of_nat sh.total_sent) true
                  ∷ figure 2 22 (fl.of_nat sh.total_recv) true
                  ∷ figure 1 22 (fl.of_nat ((sh.total_recv + sh.total_sent) % 2 ^ 64)) true
                  ∷ [])
                ++ off (color_of (codes "CUM_TRANSFER_COLUMN_COLOR")) ∷ []))
        ++ (on (color_of (codes "PEAK_LABEL_COLOR"))
            ∷ ((addstr (from_bottom term 3) (some 32) (codes "peak: ") ∷ [])
                ++ off (color_of (codes "PEAK_LABEL_COLOR")) ∷ []))
        ++ (on (color_of (codes "PEAK_TRANSFER_COLUMN_COLOR"))
            ∷ ((figure 3 39 (peak sh.peaksent) opts.bandwidth_in_bytes
                  ∷ figure 2 39 (peak sh.peakrecv) opts.bandwidth_in_bytes
                  ∷ figure 1 39 (peak sh.peaktotal) opts.bandwidth_in_bytes
                  ∷ [])
                ++ off (color_of (codes "PEAK_TRANSFER_COLUMN_COLOR")) ∷ []))
        ++ (on (color_of (codes "RATES_LABEL_COLOR"))
            ∷ ((addstr (from_bottom term 3) (from_right term 32 0) (codes "rates:") ∷ [])
                ++ off (color_of (codes "RATES_LABEL_COLOR")) ∷ []))
        ++ draw_totals sh.totals_sent sh.totals_recv
        ++ elim sh.helpmsg [ none ↦ [] | some msg ↦ hint msg ∷ [] ]

    unfoldable pub ui_print : Screenful V → List (Draw F)
    ui_print sh =
        let (scale, y) = draw_bar_scale sh.marks in
        if sh.dontshowdisplay
        then []
        else (on (color_of (codes "SCALE_BAR_COLOR"))
            ∷ (scale ++ off (color_of (codes "SCALE_BAR_COLOR")) ∷ []))
          ++ (if opts.showhelp then help y ∷ [] else print_lines y sh.lines)
          ++ draw_footer sh
