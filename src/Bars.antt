-- ===== src/Bars.antt =====
-- The scale of the bars in src/ui/ui.c: which entry of the table of rates the bars are drawn against.
-- The arithmetic on floats that makes a length of a rate is a parameter.
pub mod Range
use iftopcolor.Shared.{
  ℕ, suc, ◌+◌, ◌/◌, Bool, true, false, ◌&&◌, List, [], ◌∷◌, Option, none, some, ◌==◌, ltb,
  if◌then◌else◌, get_elem?,
}
use iftopcolor.Options.{Options}

-- `scale`: the greatest rate of each entry. `interval` is never read.
abbrev pub scale : List ℕ
scale = 64000 ∷ 128000 ∷ 256000 ∷ 1000000 ∷ 10000000 ∷ 100000000 ∷ 1000000000 ∷ []

-- The globals.
pub record Scale : Type 0 where
  pub rateidx : ℕ
  pub wantbiggerrate : Bool
  pub rateidx_init : ℕ

abbrev pub first_scale : Scale
first_scale = record { rateidx = 0; wantbiggerrate = false; rateidx_init = 0 }

-- The search from an entry on. `none` reads behind the table.
unfoldable pub search_rate : ℕ → List ℕ → ℕ → Option ℕ
search_rate rate [] i = none
search_rate rate (max ∷ entries) i =
    let rest = search_rate rate entries (suc i) in if ltb max rate then rest else some (suc i)

-- What get_bar_length_eighths does to the globals; `none` reads behind the table. A rate that is not
-- positive stands as 0.
unfoldable pub note_rate : ℕ → Scale → Option Scale
note_rate rate s = if rate == 0 then some s else elim (get_elem? scale s.rateidx) [
  | none ↦ none
  | some max ↦
      if ltb max rate
      then if s.rateidx_init == 0
        then elim (search_rate rate scale 0) [
          | none ↦ none
          | some i ↦ some (record { rateidx = i; wantbiggerrate = true; rateidx_init = i })
        ]
        else some (record s { wantbiggerrate = true })
      else some s
]

unfoldable pub get_max_bandwidth : Options → Scale → Option ℕ
get_max_bandwidth opts s =
    if ltb 0 opts.max_bandwidth then some opts.max_bandwidth else get_elem? scale s.rateidx

-- The length, by the conversion of a rate and the scale's greatest one, for a logarithmic scale or a
-- linear one.
unfoldable pub get_bar_length_eighths :
    (Bool → ℕ → ℕ → ℕ) → Options → ℕ → Scale → Option (ℕ × Scale)
get_bar_length_eighths to_length opts rate s =
    if rate == 0 then some (0, s) else elim (note_rate rate s) [
      | none ↦ none
      | some s' ↦ elim (get_max_bandwidth opts s') [
        | none ↦ none
        | some max ↦ some (to_length opts.log_scale rate max, s')
      ]
    ]

unfoldable pub get_bar_length : (Bool → ℕ → ℕ → ℕ) → Options → ℕ → Scale → Option (ℕ × Scale)
get_bar_length to_length opts rate s = elim (get_bar_length_eighths to_length opts rate s) [
  | none ↦ none
  | some (eighths, s') ↦ some (eighths / 8, s')
]

-- The end of ui_print.
unfoldable pub bigger_rate : Options → Scale → Scale
bigger_rate opts s =
    if s.wantbiggerrate && opts.max_bandwidth == 0
    then record s { rateidx = suc s.rateidx; wantbiggerrate = false }
    else s

-- The bars of one ui_print, by their rates, and its end.
unfoldable pub draw_bars : (Bool → ℕ → ℕ → ℕ) → Options → List ℕ → Scale → Option Scale
draw_bars to_length opts [] s = some (bigger_rate opts s)
draw_bars to_length opts (rate ∷ rates) s = elim (get_bar_length to_length opts rate s) [
  | none ↦ none
  | some (length, s') ↦ draw_bars to_length opts rates s'
]

-- The marks of draw_bar_scale, by their rates: what it does to the globals is what get_bar_length
-- does.
unfoldable pub place_marks : (Bool → ℕ → ℕ → ℕ) → Options → List ℕ → Scale → Option Scale
place_marks to_length opts [] s = some s
place_marks to_length opts (rate ∷ rates) s = elim (get_bar_length to_length opts rate s) [
  | none ↦ none
  | some (length, s') ↦ place_marks to_length opts rates s'
]

-- draw_bar_scale: the marks are those for the greatest rate, which is read once, in front of the
-- loop. Their floats, in the logarithmic scale or the linear one, are a parameter.
unfoldable pub scale_marks :
    (Bool → ℕ → ℕ → ℕ) → (Bool → ℕ → List ℕ) → Options → Scale → Option Scale
unfolding place_marks
scale_marks to_length markers opts s = elim (get_max_bandwidth opts s) [
  | none ↦ none
  | some max ↦
      if opts.showbars then place_marks to_length opts (markers opts.log_scale max) s else some s
]

-- Several calls of ui_print: the scale with its marks, then the bars.
unfoldable pub draw_frames :
    (Bool → ℕ → ℕ → ℕ) → (Bool → ℕ → List ℕ) → Options → List (List ℕ) → Scale → Option Scale
unfolding scale_marks
draw_frames to_length markers opts [] s = some s
draw_frames to_length markers opts (rates ∷ frames) s =
    elim (scale_marks to_length markers opts s) [
      | none ↦ none
      | some s₁ ↦ elim (draw_bars to_length opts rates s₁) [
        | none ↦ none
        | some s' ↦ draw_frames to_length markers opts frames s'
      ]
    ]
