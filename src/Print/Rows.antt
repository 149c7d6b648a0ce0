-- ===== src/Print/Rows.antt =====
-- The rows that a line is drawn into.
use iftopcolor.Shared.{
  ℕ, ◌+◌, ◌-◌, ◌≤◌, ◌<◌, Bool, true, false, ◌&&◌, not, List, [], ◌∷◌, ◌++◌, Option, none, some,
  arith, ltb, if◌then◌else◌, All, All-append, drop, Bool-cases, inl, inr, codes,
}
use iftopcolor.Stringmap.{Text}
use iftopcolor.Options.{
  Options, OptionLinedisplay, two_line, one_line_both, one_line_recv, one_line_sent,
}
use iftopcolor.Screen.{HostPairLine, Rates, Num, is_empty}
use iftopcolor.Print.Defs.{
  Draw, on, off, color_of, addstr, rule, bar, hint, help, Floats, Terminal, Names, host_width,
  arrow, draw_rate, draw_line_total, from_right,
}
use iftopcolor.Print.Frame.{
  line_rows, one_bar, draw_line_bars, column, draw_line_totals, first_host, its_arrow, second_host,
  its_process, its_sum, passes, draw_line, print_from, print_lines,
}
use iftopcolor.Print.Lines.{print_lines-from}

module _ {F : Type 0} where
  -- A call that draws into rows from one on and before another, or nowhere.
  abbrev pub IsBetween : ℕ → ℕ → Draw F → Type 0
  IsBetween y h (addstr (some row) place text) = (y ≤ row) × (row < h)
  IsBetween y h (bar (some row) rate name) = (y ≤ row) × (row < h)
  IsBetween y h (rule (some row)) = (y ≤ row) × (row < h)
  IsBetween y h (help row) = (y ≤ row) × (row < h)
  IsBetween y h (hint msg) = (y ≤ 0) × (0 < h)
  IsBetween y h draw = Unit {0}

  abbrev pub AreBetween : ℕ → ℕ → List (Draw F) → Type 0
  AreBetween y h = All (IsBetween y h)

  IsBetween-wider :
      (y h y' h' : ℕ) (d : Draw F) → y' ≤ y → h ≤ h' → IsBetween y h d → IsBetween y' h' d
  IsBetween-wider y h y' h' (addstr (some row) place text) le lt b = omega (arith, b)
  IsBetween-wider y h y' h' (bar (some row) rate name) le lt b = omega (arith, b)
  IsBetween-wider y h y' h' (rule (some row)) le lt b = omega (arith, b)
  IsBetween-wider y h y' h' (help row) le lt b = omega (arith, b)
  IsBetween-wider y h y' h' (hint msg) le lt b = omega (arith, b)
  IsBetween-wider y h y' h' (addstr none place text) le lt b = tt
  IsBetween-wider y h y' h' (bar none rate name) le lt b = tt
  IsBetween-wider y h y' h' (rule none) le lt b = tt
  IsBetween-wider y h y' h' (on a) le lt b = tt
  IsBetween-wider y h y' h' (off a) le lt b = tt

  AreBetween-wider :
      (y h y' h' : ℕ) (ds : List (Draw F))
      → y' ≤ y
      → h ≤ h'
      → AreBetween y h ds
      → AreBetween y' h' ds
  AreBetween-wider y h y' h' [] le lt b = tt
  AreBetween-wider y h y' h' (d ∷ ds) le lt b =
      (IsBetween-wider y h y' h' d le lt b.0, AreBetween-wider y h y' h' ds le lt b.1)

  beside :
      (y h : ℕ) (ds es : List (Draw F))
      → AreBetween y h ds
      → AreBetween y h es
      → AreBetween y h (ds ++ es)
  beside y h ds es = All-append (IsBetween y h) ds es

  colored-AreBetween :
      (y h : ℕ) (name : Text) (ds : List (Draw F))
      → AreBetween y h ds
      → AreBetween y h ((on (color_of name) ∷ (ds ++ off (color_of name) ∷ [])))
  colored-AreBetween y h name ds b = (tt, beside y h ds (off (color_of name) ∷ []) b (tt, tt))

  when :
      (y h : ℕ) (t : Bool) (ds : List (Draw F))
      → AreBetween y h ds
      → AreBetween y h (if t then ds else [])
  when y h true ds b = b
  when y h false ds b = tt

arrow-AreBetween :
    (F : Type 0) (y x : ℕ) (d : OptionLinedisplay)
    → AreBetween {F = F} y (y + line_rows d) (arrow y x d)
arrow-AreBetween F y x two_line = ground arith
arrow-AreBetween F y x one_line_both = ground arith
arrow-AreBetween F y x one_line_recv = ground arith
arrow-AreBetween F y x one_line_sent = ground arith

below_rows : (y : ℕ) (d : OptionLinedisplay) → (y < y + line_rows d) × (y + line_rows d ≤ y + 2)
below_rows y two_line = omega arith
below_rows y one_line_both = omega arith
below_rows y one_line_recv = omega arith
below_rows y one_line_sent = omega arith

module _ {V F : Type 0} (num : Num V) (fl : Floats V F) (term : Terminal) (opts : Options) where
  draw_line_total-AreBetween :
      (sent recv : F) (y : ℕ) (col : Option ℕ) (d : OptionLinedisplay) (bytes : Bool)
      → AreBetween y (y + line_rows d) (draw_line_total fl sent recv (some y) col d bytes)
  unfolding draw_line_total draw_rate
  draw_line_total-AreBetween sent recv y col two_line bytes = ground arith
  draw_line_total-AreBetween sent recv y col one_line_both bytes = ground arith
  draw_line_total-AreBetween sent recv y col one_line_recv bytes = ground arith
  draw_line_total-AreBetween sent recv y col one_line_sent bytes = ground arith

  draw_line_bars-AreBetween :
      (sent recv : Rates V) (y : ℕ) (d : OptionLinedisplay)
      → AreBetween y (y + line_rows d) (draw_line_bars num fl term opts (some y) sent recv d)
  unfolding draw_line_bars one_bar
  draw_line_bars-AreBetween sent recv y two_line = ground arith
  draw_line_bars-AreBetween sent recv y one_line_both = ground arith
  draw_line_bars-AreBetween sent recv y one_line_recv = ground arith
  draw_line_bars-AreBetween sent recv y one_line_sent = ground arith

  draw_line_totals-AreBetween :
      (sent recv : Rates V) (y : ℕ) (d : OptionLinedisplay)
      → AreBetween y (y + line_rows d) (draw_line_totals num fl term opts (some y) sent recv d)
  unfolding draw_line_totals
  draw_line_totals-AreBetween sent recv y d =
      let h = y + line_rows d in
      let at : ℕ → List (Draw F) = column num fl term opts (some y) sent recv d in
      let b : (j : ℕ) → AreBetween y h (at j) =
        λ j. draw_line_total-AreBetween _ _ y (from_right term 24 j) d opts.bandwidth_in_bytes in
      beside y h (at 0 ++ at 1 ++ at 2) _
        (beside y h (at 0 ++ at 1) (at 2) (beside y h (at 0) (at 1) (b 0) (b 1)) (b 2))
        (when y h opts.showbars (draw_line_bars num fl term opts (some y) sent recv d)
          (draw_line_bars-AreBetween sent recv y d))

  module _ (names : Names) (regexec : Text → Bool) where
    abbrev line_draws : ℕ → HostPairLine V → List (Draw F)
    line_draws = draw_line num fl term opts names regexec

    -- Every part of a line stays in the line's rows.
    draw_line-AreBetween :
        (y : ℕ) (l : HostPairLine V)
        → AreBetween y
            (y + line_rows opts.linedisplay)
            (draw_line num fl term opts names regexec y l)
    unfolding draw_line
    draw_line-AreBetween y l =
        let d = opts.linedisplay in
        let h = y + line_rows d in
        let lt : y < h = (below_rows y d).0 in
        let l1 : List (Draw F) = first_host num fl term opts names regexec y l in
        let l2 : List (Draw F) = its_arrow num fl term opts names regexec y in
        let l3 : List (Draw F) = second_host num fl term opts names regexec y l in
        let l4 : List (Draw F) = its_process num fl term opts names regexec y l in
        let l5 : List (Draw F) = its_sum num fl term opts names regexec y l in
        let named = opts.show_processes && not (is_empty l.process_name) in
        let l4' : List (Draw F) = if named then l4 else [] in
        let l5' : List (Draw F) = if opts.show_totals then l5 else [] in
        beside y h (l1 ++ l2 ++ l3 ++ l4' ++ l5') _
          (beside y h (l1 ++ l2 ++ l3 ++ l4') l5'
            (beside y h (l1 ++ l2 ++ l3) l4'
              (beside y h (l1 ++ l2) l3
                (beside y h l1 l2 (tt, ((omega arith, lt), (tt, tt)))
                  (colored-AreBetween y h (codes "DL_UL_INDICATOR_COLOR")
                    (arrow y (host_width term opts) d)
                    (arrow-AreBetween F y (host_width term opts) d)))
                (tt, ((omega arith, lt), (tt, tt))))
              (when y h named l4 (tt, ((omega arith, lt), (tt, tt)))))
            (when y h opts.show_totals l5 (
              draw_line_total-AreBetween (fl.of_nat l.total_sent) (fl.of_nat l.total_recv) y
                (from_right term 32 0) d true)))
          (draw_line_totals-AreBetween l.sent l.recv y d)

    print_from-AreBetween :
        (y : ℕ) (lines : List (HostPairLine V))
        → AreBetween y (term.rows - 4) (print_from num fl term opts names regexec y lines)
    unfolding print_from
    print_from-AreBetween y [] = tt
    print_from-AreBetween y (l ∷ lines) = elim (Bool-cases (ltb y (term.rows - 5))) [
      | inl e ↦
          let room = (below_rows y opts.linedisplay).1 in
          let next = y + line_rows opts.linedisplay in
          elim (Bool-cases (passes num fl term opts names regexec l)) [
            | inl f ↦
                rw (e, f)
                  (beside y (term.rows - 4) _ _
                    (AreBetween-wider y next y (term.rows - 4) (line_draws y l) (omega arith)
                      (ground (arith, e, room)) (draw_line-AreBetween y l))
                    (AreBetween-wider next (term.rows - 4) y (term.rows - 4) _ (omega arith)
                      (omega arith) (print_from-AreBetween next lines)))
            | inr f ↦ rw (e, f) (print_from-AreBetween y lines)
          ]
      | inr e ↦ rw e tt
    ]

    -- Drawn from row `y` on, the lines stay below the rows above them and above the rule of the
    -- sums, which stands in the fourth row from below.
    pub print_lines-AreBetween :
        (y : ℕ) (lines : List (HostPairLine V))
        → AreBetween y (term.rows - 4) (print_lines num fl term opts names regexec y lines)
    print_lines-AreBetween y lines =
        rw (print_lines-from num fl term opts names regexec y lines)
          (print_from-AreBetween y (drop opts.screen_offset lines))
