-- ===== src/Print/Attributes.antt =====
-- The colours and weights that a frame switches on.
use iftopcolor.Shared.{
  ℕ, ◌+◌, ◌≡◌, refl, Bool, true, false, ◌&&◌, not, List, [], ◌∷◌, ◌++◌, append_assoc, append-nil,
  Option, none, some, if◌then◌else◌, Bool-cases, inl, inr, codes, ltb, drop, ◌-◌,
}
use iftopcolor.Stringmap.{Text}
use iftopcolor.Options.{
  Options, OptionLinedisplay, two_line, one_line_both, one_line_recv, one_line_sent,
}
use iftopcolor.Screen.{HostPairLine, Rates, Num, is_empty}
use iftopcolor.Print.Defs.{
  Attribute, color_of, Draw, on, off, addstr, rule, bar, hint, help, Floats, Terminal, Names,
  host_width, arrow, draw_rate, rate_color, rate_color_off, draw_line_total,
}
use iftopcolor.Print.Frame.{
  Screenful, one_bar, draw_line_bars, column, from_bottom, draw_line_totals, sum_column,
  draw_totals, draw_marks, draw_bar_scale, first_host, its_arrow, second_host, its_process, its_sum,
  passes, draw_line, print_from, print_lines, draw_footer, ui_print, line_rows,
}
use iftopcolor.Print.Lines.{print_lines-from}

module _ {F : Type 0} where
  -- From some attributes that are on, the latest first: each `off` is for the latest one, and none is
  -- left on.
  abbrev pub Closes : List (Draw F) → List Attribute → Type 0
  Closes [] [] = Unit {0}
  Closes [] (a ∷ ons) = ⊥
  Closes (on a ∷ ds) ons = Closes ds (a ∷ ons)
  Closes (off a ∷ ds) [] = ⊥
  Closes (off a ∷ ds) (b ∷ ons) = (a ≡ b) × Closes ds ons
  Closes (addstr row place text ∷ ds) ons = Closes ds ons
  Closes (rule row ∷ ds) ons = Closes ds ons
  Closes (bar row rate name ∷ ds) ons = Closes ds ons
  Closes (hint msg ∷ ds) ons = Closes ds ons
  Closes (help row ∷ ds) ons = Closes ds ons

  -- Calls that leave the attributes as they are.
  abbrev Keeps : List (Draw F) → Type 0
  Keeps ds = (ons : List Attribute) (es : List (Draw F)) → Closes es ons → Closes (ds ++ es) ons

  beside : (ds es : List (Draw F)) → Keeps ds → Keeps es → Keeps (ds ++ es)
  beside ds es p q ons fs c = rw (append_assoc ds es fs) (p ons (es ++ fs) (q ons fs c))

  when : (t : Bool) (ds : List (Draw F)) → Keeps ds → Keeps (if t then ds else [])
  when true ds p = p
  when false ds p = λ ons es c. c

  unless : (t : Bool) (ds : List (Draw F)) → Keeps ds → Keeps (if t then [] else ds)
  unless true ds p = λ ons es c. c
  unless false ds p = p

  within : (a : Attribute) (ds : List (Draw F)) → Keeps ds → Keeps (on a ∷ (ds ++ off a ∷ []))
  within a ds p ons es c = rw (append_assoc ds (off a ∷ []) es) (p (a ∷ ons) (off a ∷ es) (refl, c))

arrow-Keeps : (F : Type 0) (y x : ℕ) (d : OptionLinedisplay) → Keeps {F = F} (arrow y x d)
arrow-Keeps F y x two_line = λ ons es c. c
arrow-Keeps F y x one_line_both = λ ons es c. c
arrow-Keeps F y x one_line_recv = λ ons es c. c
arrow-Keeps F y x one_line_sent = λ ons es c. c

draw_marks-Keeps : (F : Type 0) (marks : List (ℕ × Text)) → Keeps {F = F} (draw_marks marks)
unfolding draw_marks
draw_marks-Keeps F [] = λ ons es c. c
draw_marks-Keeps F ((x, text) ∷ marks) = λ ons es c. (refl, draw_marks-Keeps F marks ons es c)

module _ {V F : Type 0} (num : Num V) (fl : Floats V F) (term : Terminal) (opts : Options) where
  draw_line_total-Keeps :
      (sent recv : F) (row col : Option ℕ) (d : OptionLinedisplay) (bytes : Bool)
      → Keeps (draw_line_total fl sent recv row col d bytes)
  unfolding draw_line_total draw_rate rate_color rate_color_off
  draw_line_total-Keeps sent recv row col two_line bytes = λ ons es c. (refl, (refl, c))
  draw_line_total-Keeps sent recv row col one_line_both bytes = λ ons es c. (refl, c)
  draw_line_total-Keeps sent recv row col one_line_recv bytes = λ ons es c. (refl, c)
  draw_line_total-Keeps sent recv row col one_line_sent bytes = λ ons es c. (refl, c)

  draw_line_bars-Keeps :
      (row : Option ℕ) (sent recv : Rates V) (d : OptionLinedisplay)
      → Keeps (draw_line_bars num fl term opts row sent recv d)
  unfolding draw_line_bars one_bar
  draw_line_bars-Keeps row sent recv two_line = λ ons es c. (refl, (refl, c))
  draw_line_bars-Keeps row sent recv one_line_both = λ ons es c. (refl, c)
  draw_line_bars-Keeps row sent recv one_line_recv = λ ons es c. (refl, c)
  draw_line_bars-Keeps row sent recv one_line_sent = λ ons es c. (refl, c)

  draw_line_totals-Keeps :
      (row : Option ℕ) (sent recv : Rates V) (d : OptionLinedisplay)
      → Keeps (draw_line_totals num fl term opts row sent recv d)
  unfolding draw_line_totals
  draw_line_totals-Keeps row sent recv d =
      let at : ℕ → List (Draw F) = column num fl term opts row sent recv d in
      let k : (j : ℕ) → Keeps (at j) =
        λ j. draw_line_total-Keeps _ _ row _ d opts.bandwidth_in_bytes in
      beside (at 0 ++ at 1 ++ at 2) _
        (beside (at 0 ++ at 1) (at 2) (beside (at 0) (at 1) (k 0) (k 1)) (k 2))
        (when opts.showbars _ (draw_line_bars-Keeps row sent recv d))

  draw_totals-Keeps : (sent recv : Rates V) → Keeps (draw_totals num fl term opts sent recv)
  unfolding draw_totals
  draw_totals-Keeps sent recv =
      let y = from_bottom term 3 in
      let rates : List (Draw F) = draw_line_totals num fl term opts y sent recv two_line in
      let at : ℕ → List (Draw F) = sum_column num fl term opts sent recv in
      let k : (j : ℕ) → Keeps (at j) = λ j ons es c. (refl, c) in
      beside (rates ++ at 0 ++ at 1) (at 2)
        (beside (rates ++ at 0) (at 1)
          (beside rates (at 0) (draw_line_totals-Keeps y sent recv two_line) (k 0)) (k 1))
        (k 2)

  module _ (names : Names) (regexec : Text → Bool) where
    draw_line-Keeps :
        (y : ℕ) (l : HostPairLine V) → Keeps (draw_line num fl term opts names regexec y l)
    unfolding draw_line
    draw_line-Keeps y l =
        let d = opts.linedisplay in
        let l1 : List (Draw F) = first_host num fl term opts names regexec y l in
        let l2 : List (Draw F) = its_arrow num fl term opts names regexec y in
        let l3 : List (Draw F) = second_host num fl term opts names regexec y l in
        let l4 : List (Draw F) = its_process num fl term opts names regexec y l in
        let l5 : List (Draw F) = its_sum num fl term opts names regexec y l in
        let named = opts.show_processes && not (is_empty l.process_name) in
        let l4' : List (Draw F) = if named then l4 else [] in
        let l5' : List (Draw F) = if opts.show_totals then l5 else [] in
        beside (l1 ++ l2 ++ l3 ++ l4' ++ l5') _
          (beside (l1 ++ l2 ++ l3 ++ l4') l5'
            (beside (l1 ++ l2 ++ l3) l4'
              (beside (l1 ++ l2) l3
                (beside l1 l2 (λ ons es c. (refl, c))
                  (within (color_of (codes "DL_UL_INDICATOR_COLOR"))
                    (arrow y (host_width term opts) d) (arrow-Keeps F y (host_width term opts) d)))
                (λ ons es c. (refl, c)))
              (when named l4 (λ ons es c. (refl, c))))
            (when opts.show_totals l5 (draw_line_total-Keeps _ _ (some y) _ d true)))
          (draw_line_totals-Keeps (some y) l.sent l.recv d)

    print_from-Keeps :
        (y : ℕ) (lines : List (HostPairLine V))
        → Keeps (print_from num fl term opts names regexec y lines)
    unfolding print_from
    print_from-Keeps y [] = λ ons es c. c
    print_from-Keeps y (l ∷ lines) = elim (Bool-cases (ltb y (term.rows - 5))) [
      | inl e ↦ elim (Bool-cases (passes num fl term opts names regexec l)) [
        | inl f ↦
            rw (e, f)
              (beside (draw_line num fl term opts names regexec y l) _ (draw_line-Keeps y l)
                (print_from-Keeps (y + line_rows opts.linedisplay) lines))
        | inr f ↦ rw (e, f) (print_from-Keeps y lines)
      ]
      | inr e ↦ rw e (λ ons es c. c)
    ]

    print_lines-Keeps :
        (y : ℕ) (lines : List (HostPairLine V))
        → Keeps (print_lines num fl term opts names regexec y lines)
    print_lines-Keeps y lines =
        rw (print_lines-from num fl term opts names regexec y lines)
          (print_from-Keeps y (drop opts.screen_offset lines))

    draw_footer-Keeps : (sh : Screenful V) → Keeps (draw_footer num fl term opts names regexec sh)
    unfolding draw_footer
    draw_footer-Keeps sh = λ ons es c.
        let both =
          beside (draw_totals num fl term opts sh.totals_sent sh.totals_recv) (hints sh.helpmsg)
            (draw_totals-Keeps sh.totals_sent sh.totals_recv) (hints-Keeps sh.helpmsg) in
        (refl, (refl, (refl, (refl, (refl, (refl, (refl, both ons es c)))))))
      where
        hints : Option Text → List (Draw F)
        hints o = elim o [ none ↦ [] | some msg ↦ hint msg ∷ [] ]

        hints-Keeps : (o : Option Text) → Keeps (hints o)
        hints-Keeps none = λ ons es c. c
        hints-Keeps (some msg) = λ ons es c. c

    scale-Keeps : (marks : List (ℕ × Text)) → Keeps (draw_bar_scale num fl term opts marks).0
    unfolding draw_bar_scale
    scale-Keeps marks = elim (Bool-cases opts.showbars) [
      | inl e ↦ rw (draw_bar_scale, e) (λ ons es c. draw_marks-Keeps F marks ons es c)
      | inr e ↦ rw (draw_bar_scale, e) (λ ons es c. c)
    ]

    lines-Keeps :
        (t : Bool) (y : ℕ) (lines : List (HostPairLine V))
        → Keeps (if t then help y ∷ [] else print_lines num fl term opts names regexec y lines)
    lines-Keeps true y lines = λ ons es c. c
    lines-Keeps false y lines = print_lines-Keeps y lines

    ui_print-Keeps : (sh : Screenful V) → Keeps (ui_print num fl term opts names regexec sh)
    unfolding ui_print
    ui_print-Keeps sh =
        let scale = draw_bar_scale num fl term opts sh.marks in
        let footer : List (Draw F) = draw_footer num fl term opts names regexec sh in
        let first : List (Draw F) =
          (on (color_of (codes "SCALE_BAR_COLOR"))
            ∷ (scale.0 ++ off (color_of (codes "SCALE_BAR_COLOR")) ∷ [])) in
        let body : List (Draw F) =
          if opts.showhelp
          then help scale.1 ∷ []
          else print_lines num fl term opts names regexec scale.1 sh.lines in
        unless sh.dontshowdisplay (first ++ body ++ footer) (
          beside (first ++ body) footer
            (beside first body
              (within (color_of (codes "SCALE_BAR_COLOR")) scale.0 (scale-Keeps sh.marks))
              (lines-Keeps opts.showhelp scale.1 sh.lines))
            (draw_footer-Keeps sh))

    -- Whatever the frame shows, each call of turnOffColor is for the colour of the latest call of
    -- turnOnColor that has none yet, with the two chains of tests that choose a rate's colour
    -- before and behind it, and the weight that a bar switches on is switched off behind that
    -- bar; nothing is left on. What the two functions do to the pair and the weight of a colour
    -- is not part of this.
    pub ui_print-Closes :
        (sh : Screenful V) → Closes (ui_print num fl term opts names regexec sh) []
    ui_print-Closes sh =
        let ds = ui_print num fl term opts names regexec sh in
        rw (append-nil ds) at (ui_print-Keeps sh [] [] tt)
