-- ===== src/Tests/Palettes.antt =====
-- The colours' file.
use iftopcolor.Shared.{◌≡◌, refl, List, [], ◌∷◌, some, arith, All, codes}
use iftopcolor.Stringmap.{strcmp}
use iftopcolor.ConfigFile.{skip_while, up_to}
use iftopcolor.Colors.{
  Color, default_colors, tolower, convert_color_to_int, convert_bold_to_int, take_word, scan,
  skip_line, set_color, read_colors, Stale, read_rounds, count_lines, get_colors,
}
use iftopcolor.Colors.Range.{AreShown, default_colors-AreShown, get_colors-AreShown}
use iftopcolor.Colors.Written.{ColorLine, written, assign_all, named, IsLine, get_colors-written}

-- The arrays hold what they held in an earlier round, say a directive.
abbrev left_over : Stale
left_over n = (codes "HOST1_COLOR", codes "bold")

get_colors-AreShown_example :
    AreShown (get_colors left_over (some (codes "HOST2_COLOR purple bold\nx\n")) default_colors)
get_colors-AreShown_example =
    get_colors-AreShown left_over (some (codes "HOST2_COLOR purple bold\nx\n")) default_colors
      default_colors-AreShown

abbrev red_host : ColorLine
red_host = record { directive = codes "HOST1_COLOR"; color = codes "Red"; bold = codes "-" }

abbrev two_lines : List ColorLine
two_lines =
    red_host
    ∷ record { directive = codes "PROC_NAME_COLOR"; color = codes "cyan"; bold = codes "bold" }
    ∷ []

two_lines-AreLines : All (IsLine default_colors) two_lines
unfolding named default_colors strcmp
two_lines-AreLines = (
  record {
    known = refl;
    no_comment = refl;
    first_word = ground arith;
    second_word = ground arith;
    third_word = ground arith;
  },
  (
    record {
      known = refl;
      no_comment = refl;
      first_word = ground arith;
      second_word = ground arith;
      third_word = ground arith;
    },
    tt,
  ),
)

get_colors-written_example :
    get_colors left_over (some (written two_lines)) default_colors
    ≡ assign_all two_lines default_colors
get_colors-written_example =
    get_colors-written left_over two_lines default_colors two_lines-AreLines

abbrev small : List Color
small =
    record { directive = codes "HOST1_COLOR"; pair = 9; bold = 1; name = codes "cyan" }
    ∷ record { directive = codes "HOST2_COLOR"; pair = 8; bold = 1; name = codes "magenta" }
    ∷ []

abbrev nothing_left : Stale
nothing_left n = ([], [])

reads_names :
    get_colors nothing_left (some (codes "# colours\nHOST2_COLOR Red nonbold\n")) small
    ≡ record { directive = codes "HOST1_COLOR"; pair = 9; bold = 1; name = codes "cyan" }
      ∷ record { directive = codes "HOST2_COLOR"; pair = 5; bold = 0; name = codes "red" }
      ∷ []
unfolding strcmp skip_while up_to tolower convert_color_to_int convert_bold_to_int take_word scan
    skip_line set_color read_colors read_rounds count_lines get_colors
reads_names = refl

-- A directive that is not known takes three rounds, so that two lines at the end are not read.
unknown_directive :
    get_colors nothing_left
      (some (codes "HOST_COLOR red bold\nHOST1_COLOR red bold\nHOST2_COLOR red bold\n"))
      small
    ≡ small
unfolding strcmp skip_while up_to tolower convert_color_to_int convert_bold_to_int take_word scan
    skip_line set_color read_colors read_rounds count_lines get_colors
unknown_directive = refl

-- The line at the end of the file does not count without its newline.
no_last_newline : get_colors nothing_left (some (codes "HOST1_COLOR red bold")) small ≡ small
unfolding count_lines get_colors read_rounds
no_last_newline = refl

-- A line that is blank takes a round at the end, which compares what the array held before.
blank_line :
    get_colors left_over (some (codes "HOST2_COLOR red bold\n\n")) small
    ≡ record { directive = codes "HOST1_COLOR"; pair = 9; bold = 1; name = codes "cyan" }
      ∷ record { directive = codes "HOST2_COLOR"; pair = 5; bold = 1; name = codes "red" }
      ∷ []
unfolding strcmp skip_while up_to tolower convert_color_to_int convert_bold_to_int take_word scan
    skip_line set_color read_colors read_rounds count_lines get_colors
blank_line = refl
