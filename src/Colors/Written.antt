-- ===== src/Colors/Written.antt =====
-- A file of lines of three words, a directive, a colour and `bold` or not.
use iftopcolor.Shared.{
  ℕ, zero, suc, ◌+◌, ◌≤◌, ◌≡◌, refl, ap, ◌∙◌, Bool, true, false, List, [], ◌∷◌, ◌++◌, some, arith,
  if◌then◌else◌, codes, length, All, Bool-cases, inl, inr, to_nat,
}
use iftopcolor.Stringmap.{Text}
use iftopcolor.Stringmap.Dictionary.{text_eq}
use iftopcolor.ConfigFile.{skip_while, newline}
use iftopcolor.ConfigFile.Format.{up_to-all}
use iftopcolor.Colors.Palette.{
  in_lower_case, palette, pair_of, lower-in_lower_case, pair_or-palette,
}
use iftopcolor.Colors.Defs.{
  Color, convert_bold_to_int, lower, is_space, is_nul, take_word, scan, set_color, read_colors,
  Stale, is_comment, read_rounds, count_lines, get_colors,
}

pub record ColorLine : Type 0 where
  pub directive : Text
  pub color : Text
  pub bold : Text

abbrev pub behind_color : ColorLine → Text → Text
behind_color l s = 32 ∷ (l.bold ++ newline ∷ s)

abbrev pub behind_directive : ColorLine → Text → Text
behind_directive l s = 32 ∷ (l.color ++ behind_color l s)

-- The words with a space between them, and a newline behind each line.
unfoldable pub written : List ColorLine → Text
written [] = []
written (l ∷ lines) = l.directive ++ behind_directive l (written lines)

-- What a line says, of each colour that has its directive.
unfoldable pub recolored : ColorLine → Color → Color
recolored l c = record c {
  name = in_lower_case l.color;
  pair = pair_of (in_lower_case l.color) palette c.pair;
  bold = if text_eq (in_lower_case l.bold) (codes "bold") then 1 else 0;
}

unfoldable pub assign : ColorLine → List Color → List Color
assign l [] = []
assign l (c ∷ colors) =
    (if text_eq c.directive l.directive then recolored l c else c) ∷ assign l colors

unfoldable pub assign_all : List ColorLine → List Color → List Color
assign_all [] colors = colors
assign_all (l ∷ lines) colors = assign_all lines (assign l colors)

-- How many colours have the directive.
unfoldable pub named : Text → List Color → ℕ
named directive [] = 0
named directive (c ∷ colors) = to_nat (text_eq c.directive directive) + named directive colors

-- A word that an array for `n` bytes and the end takes.
pub record IsWord (n : ℕ) (w : Text) : Type 0 where
  pub short : length w ≤ n
  pub some_byte : 1 ≤ length w
  pub unspaced : All (λ c. is_space c ≡ false) w
  pub no_nul : All (λ c. is_nul c ≡ false) w

pub record IsLine (colors : List Color) (l : ColorLine) : Type 0 where
  pub known : named l.directive colors ≡ 1
  pub no_comment : is_comment l.directive ≡ false
  pub first_word : IsWord 254 l.directive
  pub second_word : IsWord 99 l.color
  pub third_word : IsWord 49 l.bold

take_word-all :
    (n : ℕ) (w : Text) (c : ℕ) (s : Text)
    → length w ≤ n
    → All (λ d. is_space d ≡ false) w
    → is_space c ≡ true
    → take_word n (w ++ c ∷ s) ≡ (w, c ∷ s)
unfolding take_word
take_word-all zero [] c s le h e = refl
take_word-all zero (d ∷ w) c s le h e = absurd (omega arith)
take_word-all (suc n) [] c s le h e = rw e refl
take_word-all (suc n) (d ∷ w) c s le h e = rw (h.0, take_word-all n w c s (omega arith) h.1 e) refl

scan-word :
    (n : ℕ) (old w : Text) (c : ℕ) (s : Text)
    → IsWord n w
    → is_space c ≡ true
    → scan n old (w ++ c ∷ s) ≡ (w, c ∷ s)
unfolding scan skip_while
scan-word n old [] c s v e = absurd (omega (arith, v.some_byte))
scan-word n old (d ∷ w) c s v e =
    rw (scan, v.unspaced.0)
      (rw (take_word-all n (d ∷ w) c s v.short v.unspaced e, up_to-all is_nul (d ∷ w) v.no_nul)
        refl)

scan-space :
    (n : ℕ) (old : Text) (c : ℕ) (s : Text) → is_space c ≡ true → scan n old (c ∷ s) ≡ scan n old s
unfolding scan skip_while
scan-space n old c s e = rw (scan, e) refl

set_color-written :
    (l : ColorLine) (s bold : Text) (c : Color)
    → IsWord 99 l.color
    → IsWord 49 l.bold
    → set_color (behind_directive l s) bold c ≡ (recolored l c, newline ∷ s, lower l.bold)
unfolding set_color recolored convert_bold_to_int
set_color-written l s bold c v w =
    let first =
      scan-space 99 c.name 32 (l.color ++ behind_color l s) refl
      ∙ scan-word 99 c.name l.color 32 (l.bold ++ newline ∷ s) v refl in
    let second =
      scan-space 49 bold 32 (l.bold ++ newline ∷ s) refl
      ∙ scan-word 49 bold l.bold newline s w refl in
    rw
      (
        set_color,
        first,
        second,
        pair_or-palette (lower l.color) c.pair,
        lower-in_lower_case l.color,
        lower-in_lower_case l.bold,
      )
      refl

none_named :
    (l : ColorLine) (file bold : Text) (colors : List Color)
    → named l.directive colors ≡ 0
    → (read_colors l.directive file bold colors ≡ (colors, file)) × (assign l colors ≡ colors)
unfolding read_colors assign named
none_named l file bold [] e = (refl, refl)
none_named l file bold (c ∷ colors) e = elim (Bool-cases (text_eq c.directive l.directive)) [
  | inl f ↦ absurd (omega (arith, e, ap to_nat f))
  | inr f ↦
      let (r, a) = none_named l file bold colors (omega (arith, e, ap to_nat f)) in
      (rw (read_colors, f, r) refl, rw (f, a) refl)
]

read_colors-written :
    (l : ColorLine) (s bold : Text) (colors : List Color)
    → named l.directive colors ≡ 1
    → IsWord 99 l.color
    → IsWord 49 l.bold
    → read_colors l.directive (behind_directive l s) bold colors ≡ (assign l colors, newline ∷ s)
unfolding read_colors assign named
read_colors-written l s bold [] e v w = absurd (omega (arith, e))
read_colors-written l s bold (c ∷ colors) e v w =
    elim (Bool-cases (text_eq c.directive l.directive)) [
      | inl f ↦
          let (r, a) =
            none_named l (newline ∷ s) (lower l.bold) colors (omega (arith, e, ap to_nat f)) in
          rw (read_colors, f, set_color-written l s bold c v w, r, a) refl
      | inr f ↦
          rw
            (
              read_colors,
              f,
              read_colors-written l s bold colors (omega (arith, e, ap to_nat f)) v w,
            )
            refl
    ]

named-assign :
    (l : ColorLine) (directive : Text) (colors : List Color)
    → named directive (assign l colors) ≡ named directive colors
unfolding named assign recolored
named-assign l directive [] = refl
named-assign l directive (c ∷ colors) = elim (Bool-cases (text_eq c.directive l.directive)) [
  | inl f ↦ rw (f, named-assign l directive colors) refl
  | inr f ↦ rw (f, named-assign l directive colors) refl
]

assign-IsLine :
    (l k : ColorLine) (colors : List Color) → IsLine colors k → IsLine (assign l colors) k
assign-IsLine l k colors v = record {
  known = named-assign l k.directive colors ∙ v.known;
  no_comment = v.no_comment;
  first_word = v.first_word;
  second_word = v.second_word;
  third_word = v.third_word;
}

assign-AreLines :
    (l : ColorLine) (lines : List ColorLine) (colors : List Color)
    → All (IsLine colors) lines
    → All (IsLine (assign l colors)) lines
assign-AreLines l [] colors v = tt
assign-AreLines l (k ∷ lines) colors v =
    (assign-IsLine l k colors v.0, assign-AreLines l lines colors v.1)

-- What is left of the file, with the newline of the line before or without one.
abbrev behind : Bool → Text → Text
behind false s = s
behind true s = newline ∷ s

scan-behind : (n : ℕ) (old : Text) (b : Bool) (s : Text) → scan n old (behind b s) ≡ scan n old s
scan-behind n old false s = refl
scan-behind n old true s = scan-space n old newline s refl

read_rounds-written :
    (stale : Stale) (b : Bool) (lines : List ColorLine) (colors : List Color)
    → All (IsLine colors) lines
    → read_rounds stale (length lines) (behind b (written lines)) colors ≡ assign_all lines colors
unfolding read_rounds written assign_all
read_rounds-written stale b [] colors v = refl
read_rounds-written stale b (l ∷ lines) colors v =
    let n = length lines in
    let first =
      scan-behind 254 (stale n).0 b (l.directive ++ behind_directive l (written lines))
      ∙ scan-word 254 (stale n).0 l.directive 32 (l.color ++ behind_color l (written lines))
          v.0.first_word refl in
    rw
      (
        read_rounds,
        first,
        v.0.no_comment,
        read_colors-written l (written lines) (stale n).1 colors v.0.known v.0.second_word
            v.0.third_word,
      )
      (read_rounds-written stale true lines (assign l colors) (assign-AreLines l lines colors v.1))

count_lines-append : (a b : Text) → count_lines (a ++ b) ≡ count_lines a + count_lines b
unfolding count_lines
count_lines-append [] b = omega arith
count_lines-append (c ∷ a) b = omega (arith, count_lines-append a b)

count_lines-word : (w : Text) → All (λ c. is_space c ≡ false) w → count_lines w ≡ 0
unfolding count_lines
count_lines-word [] h = refl
count_lines-word (c ∷ w) h = ground (arith, h.0, count_lines-word w h.1)

count_lines-written :
    (lines : List ColorLine) (colors : List Color)
    → All (IsLine colors) lines
    → count_lines (written lines) ≡ length lines
unfolding count_lines written
count_lines-written [] colors v = refl
count_lines-written (l ∷ lines) colors v = omega (
  arith,
  count_lines-append l.directive (behind_directive l (written lines)),
  count_lines-append l.color (behind_color l (written lines)),
  count_lines-append l.bold (newline ∷ written lines),
  count_lines-word l.directive v.0.first_word.unspaced,
  count_lines-word l.color v.0.second_word.unspaced,
  count_lines-word l.bold v.0.third_word.unspaced,
  count_lines-written lines colors v.1,
)

-- A file of lines, each of a directive that exactly one colour has, the name of a colour and a
-- third word, whose words fit their arrays, have no white space and no zero byte and do not begin
-- the line with a hash: getColors assigns the lines in their order, one line to a round, so that
-- none is left out and none is read twice. A name that is not one of the eight colours' leaves
-- the pair, and a third word other than `bold`, in any case, means not bold.
pub get_colors-written :
    (stale : Stale) (lines : List ColorLine) (colors : List Color)
    → All (IsLine colors) lines
    → get_colors stale (some (written lines)) colors ≡ assign_all lines colors
unfolding get_colors
get_colors-written stale lines colors v =
    ap (λ n. read_rounds stale n (written lines) colors) (count_lines-written lines colors v)
    ∙ read_rounds-written stale false lines colors v
