-- ===== src/Print/Lines.antt =====
-- Which lines a frame shows, and in which rows.
use iftopcolor.Shared.{
  ℕ, zero, suc, ◌+◌, ◌-◌, ◌/◌, ◌≤◌, ◌<◌, ◌≡◌, refl, ap, ◌∙◌, Bool, true, List, [], ◌∷◌, ◌++◌,
  Option, none, some, ◌==◌, arith, ltb, if◌then◌else◌, take, drop, Bool-cases, inl, inr,
}
use iftopcolor.Stringmap.{Text}
use iftopcolor.Options.{
  Options, OptionLinedisplay, two_line, one_line_both, one_line_recv, one_line_sent,
}
use iftopcolor.Screen.{HostPairLine, Num}
use iftopcolor.Print.Defs.{Draw, Floats, Terminal, Names, screen_filter_match}
use iftopcolor.Print.Frame.{
  line_rows, pass_lines, passes, host1, host2, draw_line, print_from, print_lines,
}

-- The lines that pass, in their order.
unfoldable pub filtered : {A : Type 0} → (A → Bool) → List A → List A
filtered p [] = []
filtered p (l ∷ lines) = if p l then l ∷ filtered p lines else filtered p lines

-- How many lines go into some rows: a line of two rows begins in the last of them, too.
abbrev pub fits : OptionLinedisplay → ℕ → ℕ
fits two_line rows = (rows + 1) / 2
fits one_line_both rows = rows
fits one_line_recv rows = rows
fits one_line_sent rows = rows

fits_next :
    (d : OptionLinedisplay) (y h : ℕ)
    → y < h
    → fits d (h - y) ≡ suc (fits d (h - (y + line_rows d)))
fits_next two_line y h lt = omega arith
fits_next one_line_both y h lt = omega arith
fits_next one_line_recv y h lt = omega arith
fits_next one_line_sent y h lt = omega arith

fits_none : (d : OptionLinedisplay) (y h : ℕ) → h ≤ y → fits d (h - y) ≡ 0
fits_none two_line y h le = omega arith
fits_none one_line_both y h le = omega arith
fits_none one_line_recv y h le = omega arith
fits_none one_line_sent y h le = omega arith

take-nil : {A : Type 0} (n : ℕ) → take {A = A} n [] ≡ []
take-nil zero = refl
take-nil (suc n) = refl

drop-nil : {A : Type 0} (n : ℕ) → drop {A = A} n [] ≡ []
drop-nil zero = refl
drop-nil (suc n) = refl

module _ {V F : Type 0} (num : Num V) (fl : Floats V F) (term : Terminal) (opts : Options)
    (names : Names) (regexec : Text → Bool) where
  abbrev step : ℕ
  step = line_rows opts.linedisplay

  abbrev line_draws : ℕ → HostPairLine V → List (Draw F)
  line_draws = draw_line num fl term opts names regexec

  -- Without a filter a text passes, with one if the regular expression matches it.
  abbrev pub passes_filter : Option Text → Text → Bool
  passes_filter none text = true
  passes_filter (some pattern) text = regexec text

  -- A line is shown if the text of its source or that of its destination passes.
  abbrev pub is_shown : HostPairLine V → Bool
  is_shown l =
      if passes_filter opts.screenfilter (host1 num fl term opts names regexec l)
      then true
      else passes_filter opts.screenfilter (host2 num fl term opts names regexec l)

  screen_filter_match_lem :
      (text : Text) → screen_filter_match regexec opts text ≡ passes_filter opts.screenfilter text
  unfolding screen_filter_match
  screen_filter_match_lem text = split opts.screenfilter
    where
      split :
          (o : Option Text)
          → screen_filter_match regexec (record opts { screenfilter = o }) text
            ≡ passes_filter o text
      split none = refl
      split (some pattern) = refl

  passes-is_shown : (l : HostPairLine V) → passes num fl term opts names regexec l ≡ is_shown l
  passes-is_shown l =
      rw
        (
          screen_filter_match_lem (host1 num fl term opts names regexec l),
          screen_filter_match_lem (host2 num fl term opts names regexec l),
        )
        (ground arith)

  -- Some lines, one below the other.
  unfoldable pub draw_all : ℕ → List (HostPairLine V) → List (Draw F)
  draw_all y [] = []
  draw_all y (l ∷ lines) =
      draw_line num fl term opts names regexec y l
      ++ draw_all (y + line_rows opts.linedisplay) lines

  abbrev shown_from : ℕ → List (HostPairLine V) → List (Draw F)
  shown_from y lines =
      draw_all y (take (fits opts.linedisplay (term.rows - 5 - y)) (filtered is_shown lines))

  print_from-shown :
      (y : ℕ) (lines : List (HostPairLine V))
      → print_from num fl term opts names regexec y lines ≡ shown_from y lines
  unfolding print_from filtered draw_all
  print_from-shown y [] = rw (take-nil (fits opts.linedisplay (term.rows - 5 - y))) refl
  print_from-shown y (l ∷ lines) = elim (Bool-cases (ltb y (term.rows - 5))) [
    | inl e ↦
        let more = fits_next opts.linedisplay y (term.rows - 5) (ground (arith, e)) in
        elim (Bool-cases (is_shown l)) [
          | inl f ↦
              rw (e, passes-is_shown l, f, more)
                (ap (◌++◌ (line_draws y l)) (print_from-shown (y + step) lines))
          | inr f ↦ rw (e, passes-is_shown l, f) (print_from-shown y lines)
        ]
    | inr e ↦
        let no_more = fits_none opts.linedisplay y (term.rows - 5) (ground (arith, e)) in
        rw (e, no_more) refl
  ]

  -- Where the first loop has ended, as the second one goes on.
  abbrev resumed : ℕ → List (HostPairLine V) → ℕ × Option (List (HostPairLine V)) → List (Draw F)
  resumed y lines r = elim r.1 [
    | some rest ↦ print_from num fl term opts names regexec y rest
    | none ↦ if r.0 == 0 then print_from num fl term opts names regexec y lines else []
  ]

  passed :
      (y left i : ℕ) (lines next : List (HostPairLine V))
      → 0 < i
      → resumed y lines (pass_lines left i (some next) next)
        ≡ print_from num fl term opts names regexec y (drop left next)
  unfolding pass_lines print_from
  passed y zero i lines next lt = refl
  passed y (suc left) i lines [] lt = ground (arith, lt)
  passed y (suc left) i lines (l ∷ rest) lt = passed y left (i + 1) lines rest (omega arith)

  passed_offset :
      (y left : ℕ) (lines : List (HostPairLine V))
      → resumed y lines (pass_lines left 0 none lines)
        ≡ print_from num fl term opts names regexec y (drop left lines)
  unfolding pass_lines
  passed_offset y zero lines = refl
  passed_offset y (suc left) [] = refl
  passed_offset y (suc left) (l ∷ rest) = passed y left 1 (l ∷ rest) rest (omega arith)

  pub print_lines-from :
      (y : ℕ) (lines : List (HostPairLine V))
      → print_lines num fl term opts names regexec y lines
        ≡ print_from num fl term opts names regexec y (drop opts.screen_offset lines)
  unfolding print_lines
  print_lines-from y lines = passed_offset y opts.screen_offset lines

  -- ui_print shows the lines behind the first `screen_offset` ones whose source or destination
  -- passes the filter, or all of them without a filter, in their order, each in its row or in
  -- two, from the first row on, as many as begin above the last five rows; the second row of the
  -- last line may be the first of these five.
  pub print_lines-shown :
      (y : ℕ) (lines : List (HostPairLine V))
      → print_lines num fl term opts names regexec y lines
        ≡ draw_all y (
            take
              (fits opts.linedisplay (term.rows - 5 - y))
              (filtered is_shown (drop opts.screen_offset lines)))
  print_lines-shown y lines =
      print_lines-from y lines ∙ print_from-shown y (drop opts.screen_offset lines)
