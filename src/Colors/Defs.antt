-- ===== src/Colors/Defs.antt =====
-- The colour arrays, and the reading of ~/.iftopcolors.
use iftopcolor.Shared.{
  ℕ, zero, suc, ◌+◌, Bool, false, ◌&&◌, ◌||◌, List, [], ◌∷◌, Option, none, some, ◌==◌, leb,
  if◌then◌else◌, map, codes,
}
use iftopcolor.Stringmap.{Text}
use iftopcolor.Stringmap.Dictionary.{text_eq}
use iftopcolor.ConfigFile.{skip_while, up_to, newline}

abbrev pub green_foreground : ℕ
green_foreground = 4

abbrev pub red_foreground : ℕ
red_foreground = 5

abbrev pub blue_foreground : ℕ
blue_foreground = 6

abbrev pub yellow_foreground : ℕ
yellow_foreground = 7

abbrev pub magenta_foreground : ℕ
magenta_foreground = 8

abbrev pub cyan_foreground : ℕ
cyan_foreground = 9

-- One of the arrays `int X[] = {pair, bold}`, with the directive that sets it and the local array
-- that getColors reads its colour's name into.
pub record Color : Type 0 where
  pub directive : Text
  pub pair : ℕ
  pub bold : ℕ
  pub name : Text

abbrev color : Text → ℕ → ℕ → Text → Color
color directive pair bold name = record {
  directive = directive;
  pair = pair;
  bold = bold;
  name = name;
}

-- The arrays as they start, in the order in which getColors tests for their directives.
unfoldable pub default_colors : List Color
default_colors =
    color (codes "RECEIVE_BAR_COLOR") green_foreground 1 (codes "green")
    ∷ color (codes "SENT_BAR_COLOR") blue_foreground 1 (codes "blue")
    ∷ color (codes "BOTH_BAR_COLOR") red_foreground 1 (codes "magenta")
    ∷ color (codes "SCALE_BAR_COLOR") blue_foreground 1 (codes "magenta")
    ∷ color (codes "SCALE_MARKERS_COLOR") blue_foreground 1 (codes "blue")
    ∷ color (codes "DL_UL_INDICATOR_COLOR") blue_foreground 1 (codes "blue")
    ∷ color (codes "HOST1_COLOR") cyan_foreground 1 (codes "cyan")
    ∷ color (codes "HOST2_COLOR") magenta_foreground 1 (codes "magenta")
    ∷ color (codes "TWO_SECOND_TRANSFER_COLUMN_COLOR") blue_foreground 0 (codes "blue")
    ∷ color (codes "TEN_SECOND_TRANSFER_COLUMN_COLOR") cyan_foreground 1 (codes "yellow")
    ∷ color (codes "FOURTY_SECOND_TRANSFER_COLUMN_COLOR") blue_foreground 1 (codes "yellow")
    ∷ color (codes "BOTTOM_BAR_COLOR") blue_foreground 1 (codes "blue")
    ∷ color (codes "CUM_LABEL_COLOR") yellow_foreground 0 (codes "yellow")
    ∷ color (codes "PEAK_LABEL_COLOR") magenta_foreground 1 (codes "yellow")
    ∷ color (codes "RATES_LABEL_COLOR") magenta_foreground 1 (codes "yellow")
    ∷ color (codes "TOTAL_LABEL_COLOR") blue_foreground 1 (codes "blue")
    ∷ color (codes "CUM_TRANSFER_COLUMN_COLOR") yellow_foreground 1 (codes "yellow")
    ∷ color (codes "PEAK_TRANSFER_COLUMN_COLOR") yellow_foreground 1 (codes "yellow")
    ∷ color (codes "PROC_NAME_COLOR") green_foreground 1 (codes "green")
    ∷ []

-- tolower in the C locale
unfoldable pub tolower : ℕ → ℕ
tolower c = if leb 65 c && leb c 90 then c + 32 else c

abbrev pub lower : Text → Text
lower = map tolower

-- convertColorToInt, on the text in lower case: `none` is -1.
unfoldable pub convert_color_to_int : Text → Option ℕ
convert_color_to_int color =
    if text_eq color (codes "green")
    then some 4
    else if text_eq color (codes "red")
    then some 5
    else if text_eq color (codes "blue")
    then some 6
    else if text_eq color (codes "yellow")
    then some 7
    else if text_eq color (codes "magenta")
    then some 8
    else if text_eq color (codes "cyan")
    then some 9
    else if text_eq color (codes "black")
    then some 10
    else if text_eq color (codes "white")
    then some 11
    else none

-- The test for -1.
abbrev pub pair_or : Option ℕ → ℕ → ℕ
pair_or none old = old
pair_or (some pair) old = pair

unfoldable pub convert_bold_to_int : Text → ℕ
convert_bold_to_int bold = if text_eq bold (codes "bold") then 1 else 0

abbrev pub is_space : ℕ → Bool
is_space c = c == 32 || leb 9 c && leb c 13

abbrev pub is_nul : ℕ → Bool
is_nul c = c == 0

-- At most `n` bytes that are not white space, and what follows them.
unfoldable pub take_word : ℕ → Text → Text × Text
take_word zero s = ([], s)
take_word (suc n) [] = ([], [])
take_word (suc n) (c ∷ s) =
    let r = take_word n s in if is_space c then ([], c ∷ s) else (c ∷ r.0, r.1)

-- fscanf of "%<n>s" into an array that holds `old`, which stays at the end of the file: the string in
-- the array, and what is left of the file.
unfoldable pub scan : ℕ → Text → Text → Text × Text
scan n old file = elim (skip_while is_space file) [
  | [] ↦ (old, [])
  | c ∷ s ↦ let r = take_word n (c ∷ s) in (up_to is_nul r.0, r.1)
]

-- fgets of at most `n` bytes: what is left of the file.
unfoldable pub skip_line : ℕ → Text → Text
skip_line zero file = file
skip_line (suc n) [] = []
skip_line (suc n) (c ∷ s) = let r = skip_line n s in if c == newline then s else r

-- The body of one `if`, with the array `boldBuffer`.
unfoldable pub set_color : Text → Text → Color → Color × Text × Text
set_color file bold c =
    let r = scan 99 c.name file in
    let name = lower r.0 in
    let b = scan 49 bold r.1 in
    (
      record c {
        name = name;
        pair = pair_or (convert_color_to_int name) c.pair;
        bold = convert_bold_to_int (lower b.0);
      },
      b.1,
      lower b.0,
    )

-- The `if`s one behind the other, which compare the same `buffer`.
unfoldable pub read_colors : Text → Text → Text → List Color → List Color × Text
read_colors buffer file bold [] = ([], file)
read_colors buffer file bold (c ∷ colors) =
    let r = if text_eq c.directive buffer then set_color file bold c else (c, file, bold) in
    let rest = read_colors buffer r.1 r.2 colors in (r.0 ∷ rest.0, rest.1)

-- What the arrays `buffer` and `boldBuffer` of a round hold before anything is read into them.
abbrev pub Stale : Type 0
Stale = ℕ → Text × Text

abbrev pub is_comment : Text → Bool
is_comment [] = false
is_comment (c ∷ s) = c == 35

-- The loop over the lines.
unfoldable pub read_rounds : Stale → ℕ → Text → List Color → List Color
read_rounds stale zero file colors = colors
read_rounds stale (suc n) file colors =
    let r = scan 254 (stale n).0 file in
    let next =
      if is_comment r.0
      then (colors, skip_line 254 r.1)
      else read_colors r.0 r.1 (stale n).1 colors in
    read_rounds stale n next.1 next.0

unfoldable pub count_lines : Text → ℕ
count_lines [] = 0
count_lines (c ∷ s) = (if c == newline then 1 else 0) + count_lines s

-- getColors; `none` is a file that is not there or cannot be opened.
unfoldable pub get_colors : Stale → Option Text → List Color → List Color
get_colors stale none colors = colors
get_colors stale (some file) colors = read_rounds stale (count_lines file) file colors
