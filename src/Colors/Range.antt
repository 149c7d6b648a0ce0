-- ===== src/Colors/Range.antt =====
-- Where the colours stay, whatever the file holds.
use iftopcolor.Shared.{
  ℕ, zero, suc, ◌≤◌, Bool, List, [], ◌∷◌, Option, none, some, arith, length, length-map, All,
  Bool-cases, inl, inr,
}
use iftopcolor.Stringmap.{Text}
use iftopcolor.Stringmap.Dictionary.{text_eq}
use iftopcolor.ConfigFile.{skip_while, up_to}
use iftopcolor.Colors.Defs.{
  Color, green_foreground, default_colors, convert_color_to_int, pair_or, convert_bold_to_int,
  tolower, lower, is_space, is_nul, take_word, scan, skip_line, set_color, read_colors, Stale,
  is_comment, read_rounds, count_lines, get_colors,
}

-- The pairs are the ones that ui_curses_init makes, and a name fits into its array of 100 with the
-- byte that ends it.
pub record IsShown (c : Color) : Type 0 where
  pub from_green : green_foreground ≤ c.pair
  pub to_white : c.pair ≤ 11
  pub bold_or_not : c.bold ≤ 1
  pub fits : length c.name ≤ 99

abbrev pub AreShown : List Color → Type 0
AreShown = All IsShown

up_to-le : (stop : ℕ → Bool) (s : Text) → length (up_to stop s) ≤ length s
unfolding up_to
up_to-le stop [] = omega arith
up_to-le stop (c ∷ s) = ground (arith, up_to-le stop s)

take_word-le : (n : ℕ) (s : Text) → length (take_word n s).0 ≤ n
unfolding take_word
take_word-le zero s = omega arith
take_word-le (suc n) [] = omega arith
take_word-le (suc n) (c ∷ s) = ground (arith, take_word-le n s)

scan-le : (n : ℕ) (old file : Text) → length old ≤ n → length (scan n old file).0 ≤ n
unfolding scan
scan-le n old file h = kept (skip_while is_space file)
  where
    kept :
        (left : Text)
        → let r : Text × Text = elim left [
          | [] ↦ (old, [])
          | c ∷ s ↦ let t = take_word n (c ∷ s) in (up_to is_nul t.0, t.1)
        ] in
          length r.0 ≤ n
    kept [] = h
    kept (c ∷ s) = omega (arith, up_to-le is_nul (take_word n (c ∷ s)).0, take_word-le n (c ∷ s))

convert_color_to_int-range :
    (name : Text) (old : ℕ)
    → green_foreground ≤ old
    → old ≤ 11
    → (green_foreground ≤ pair_or (convert_color_to_int name) old)
      × (pair_or (convert_color_to_int name) old ≤ 11)
unfolding convert_color_to_int
convert_color_to_int-range name old h k = ground arith

set_color-IsShown : (file bold : Text) (c : Color) → IsShown c → IsShown (set_color file bold c).0
unfolding set_color convert_bold_to_int
set_color-IsShown file bold c v =
    let name = lower (scan 99 c.name file).0 in
    let p = convert_color_to_int-range name c.pair v.from_green v.to_white in
    record {
      from_green = p.0;
      to_white = p.1;
      bold_or_not = ground arith;
      fits =
          omega (arith, length-map (scan 99 c.name file).0 tolower, scan-le 99 c.name file v.fits);
    }

read_colors-AreShown :
    (buffer file bold : Text) (colors : List Color)
    → AreShown colors
    → AreShown (read_colors buffer file bold colors).0
unfolding read_colors
read_colors-AreShown buffer file bold [] v = tt
read_colors-AreShown buffer file bold (c ∷ colors) v =
    elim (Bool-cases (text_eq c.directive buffer)) [
      | inl e ↦
          let r = set_color file bold c in
          rw (read_colors, e)
            (set_color-IsShown file bold c v.0, read_colors-AreShown buffer r.1 r.2 colors v.1)
      | inr e ↦ rw (read_colors, e) (v.0, read_colors-AreShown buffer file bold colors v.1)
    ]

read_rounds-AreShown :
    (stale : Stale) (n : ℕ) (file : Text) (colors : List Color)
    → AreShown colors
    → AreShown (read_rounds stale n file colors)
unfolding read_rounds
read_rounds-AreShown stale zero file colors v = v
read_rounds-AreShown stale (suc n) file colors v =
    let r = scan 254 (stale n).0 file in
    elim (Bool-cases (is_comment r.0)) [
      | inl e ↦ rw (read_rounds, e) (read_rounds-AreShown stale n (skip_line 254 r.1) colors v)
      | inr e ↦
          let next = read_colors r.0 r.1 (stale n).1 colors in
          rw (read_rounds, e)
            (read_rounds-AreShown stale n next.1 next.0
              (read_colors-AreShown r.0 r.1 (stale n).1 colors v))
    ]

-- Whatever the file holds, and whatever the arrays hold that nothing was read into: getColors
-- leaves every colour at one of the eight pairs that curses was given, bold or not, if they were
-- so before, and no colour's name is longer than the array that it is read into.
pub get_colors-AreShown :
    (stale : Stale) (file : Option Text) (colors : List Color)
    → AreShown colors
    → AreShown (get_colors stale file colors)
unfolding get_colors
get_colors-AreShown stale none colors v = v
get_colors-AreShown stale (some file) colors v =
    read_rounds-AreShown stale (count_lines file) file colors v

pub default_colors-AreShown : AreShown default_colors
unfolding default_colors
default_colors-AreShown = ground arith
