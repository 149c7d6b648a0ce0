-- ===== src/Print/Defs.antt =====
-- One line of the display: its host names, its arrow and its columns of rates.
use iftopcolor.Shared.{
  ℕ, zero, suc, ◌+◌, ◌-◌, ◌*◌, ◌/◌, ◌%◌, Bool, true, ◌&&◌, List, [], ◌∷◌, ◌++◌, Option, none, some,
  ◌==◌, ltb, leb, if◌then◌else◌, length, take, replicate, codes,
}
use iftopcolor.Stringmap.{Text}
use iftopcolor.Options.{
  Options, OptionLinedisplay, two_line, one_line_both, one_line_recv, one_line_sent,
}

-- What a `turnOnColor` or an `attron(A_BOLD)` switches: the colour and weight of an array, or the
-- weight alone. An array goes by its directive.
pub data Attribute : Type 0 where
  color_of : Text → Attribute
  weight_of : Text → Attribute

pub data Draw (F : Type 0) : Type 0 where
  on : Attribute → Draw F  -- turnOnColor, or attron of A_BOLD
  off : Attribute → Draw F  -- turnOffColor, or attroff of A_BOLD
  addstr : (row column : Option ℕ) → Text → Draw F  -- mvaddstr
  rule : (row : Option ℕ) → Draw F  -- mvhline over the whole row
  bar : (row : Option ℕ) → F → Text → Draw F  -- draw_bar
  hint : Text → Draw F  -- the help line, in the first row
  help : (row : ℕ) → Draw F  -- mvaddstr of HELP_MESSAGE

-- The arithmetic on floats, the conversion of an int by its word, and snprintf of " %4.<n>f" and a unit.
pub record Floats (V F : Type 0) : Type 0 where
  pub narrow : V → F
  pub of_nat : ℕ → F
  pub of_int : ℕ → F
  pub add : F → F → F
  pub mul : F → F → F
  pub div : F → F → F
  pub below : F → F → Bool
  pub equal : F → F → Bool
  pub format : ℕ → F → Text → Text

-- `LINES` and `COLS`
pub record Terminal : Type 0 where
  pub rows : ℕ
  pub cols : ℕ

-- What fills an array with a host name: `resolve`, inet_ntop, and what the array held before. A service
-- has a name or not.
pub record Names : Type 0 where
  pub resolved : ℕ → List ℕ → Text
  pub inet_ntop : ℕ → List ℕ → Text
  pub held : Text
  pub serv_name : ℕ → ℕ → Option Text

abbrev pub unspecified : List ℕ → Bool
unspecified [] = true
unspecified (b ∷ bytes) = b == 0 && unspecified bytes

-- "%u" and "%llu": a number of 64 bits has at most twenty digits.
unfoldable pub print_digits : ℕ → ℕ → Text → Text
print_digits zero n s = s
print_digits (suc fuel) n s =
    let rest = print_digits fuel (n / 10) ((48 + n % 10) ∷ s) in
    if n / 10 == 0 then (48 + n % 10) ∷ s else rest

abbrev pub print_decimal : ℕ → Text
print_decimal n = print_digits 20 n []

-- "%-*s" into an array of one byte more: padded to the width, and cut there.
abbrev pub padded : ℕ → Text → Text
padded width s = take width (s ++ replicate width 32)

abbrev pub hostname_length : ℕ
hostname_length = 256

unfoldable pub hostname : Names → Options → ℕ → List ℕ → ℕ → Text
hostname names opts af addr maxlen =
    if unspecified addr
    then codes " * "
    else if opts.dnsresolution
    then if ltb 1 maxlen then take (maxlen - 1) (names.resolved af addr) else names.held
    else names.inet_ntop af addr

unfoldable pub service : Names → Options → ℕ → ℕ → Text
service names opts port protocol =
    if port == 0
    then []
    else elim (if opts.portresolution then names.serv_name port protocol else none) [
      | some name ↦ take (hostname_length - 1) (codes ":" ++ name)
      | none ↦ codes ":" ++ print_decimal port
    ]

-- `left`, where the service goes. The difference is 0 where it would be negative.
unfoldable pub service_at : ℕ → Text → Text → ℕ
service_at maxlen host serv =
    if ltb (maxlen - length serv) (length host) then maxlen - length serv else length host

unfoldable pub sprint_host : Names → Options → ℕ → List ℕ → ℕ → ℕ → ℕ → Text
sprint_host names opts af addr port protocol maxlen =
    let host = hostname names opts af addr maxlen in
    let serv = service names opts port protocol in
    let left = service_at maxlen host serv in
    take left (padded maxlen host) ++ padded (maxlen - left) serv

-- `L`. The difference is 0 where it would be negative, and less than 1 in either case.
unfoldable pub host_width : Terminal → Options → ℕ
host_width term opts =
    let half = (term.cols - 28) / 2 in
    let after_totals = if opts.show_totals then half - 4 else half in
    let after_processes = if opts.show_processes then after_totals - 8 else after_totals in
    let at_most =
      if ltb hostname_length after_processes then hostname_length else after_processes in
    if ltb at_most 1 then 1 else at_most

-- screen_filter_match, with regexec's verdict
unfoldable pub screen_filter_match : (Text → Bool) → Options → Text → Bool
screen_filter_match regexec opts text = elim opts.screenfilter [
  | none ↦ true
  | some pattern ↦ regexec text
]

-- A column that is counted from the right edge, which is `COLS - n + 8 * j`.
abbrev pub from_right : Terminal → ℕ → ℕ → Option ℕ
from_right term n j = if leb n (term.cols + 8 * j) then some (term.cols + 8 * j - n) else none

abbrev pub arrow : {F : Type 0} → ℕ → ℕ → OptionLinedisplay → List (Draw F)
arrow y x two_line =
    addstr (some y) (some x) (codes " => ") ∷ addstr (some (y + 1)) (some x) (codes " <= ") ∷ []
arrow y x one_line_both = addstr (some y) (some x) (codes "<=> ") ∷ []
arrow y x one_line_sent = addstr (some y) (some x) (codes " => ") ∷ []
arrow y x one_line_recv = addstr (some y) (some x) (codes " <= ") ∷ []

abbrev pub next_row : Option ℕ → Option ℕ
next_row none = none
next_row (some y) = some (y + 1)

module _ {V F : Type 0} (fl : Floats V F) where
  -- The loop of readable_size, over the units that are left.
  unfoldable pub readable_from : F → F → ℕ → List Text → Text
  readable_from bandwidth size ksize [] = []
  readable_from bandwidth size ksize (u ∷ []) = fl.format 0 (fl.div bandwidth size) u
  readable_from bandwidth size ksize (u ∷ v ∷ units) =
      let size' = fl.mul size (fl.of_nat ksize) in
      let rest = readable_from bandwidth size' ksize (v ∷ units) in
      if fl.below bandwidth (fl.mul size (fl.of_nat 1000))
      then fl.format 0 (fl.div bandwidth size) u
      else if fl.below bandwidth (fl.mul size' (fl.of_nat 10))
      then fl.format 2 (fl.div bandwidth size') v
      else if fl.below bandwidth (fl.mul size' (fl.of_nat 100))
      then fl.format 1 (fl.div bandwidth size') v
      else rest

  unfoldable pub readable_size : F → ℕ → ℕ → Bool → Text
  readable_size bandwidth bsize ksize bytes = take (bsize - 1) (
      if bytes
      then readable_from bandwidth (fl.of_nat 1) ksize
          (codes "B" ∷ codes "kB" ∷ codes "MB" ∷ codes "GB" ∷ [])
      else readable_from (fl.mul bandwidth (fl.of_nat 8)) (fl.of_nat 1) ksize
          (codes "b" ∷ codes "kb" ∷ codes "Mb" ∷ codes "Gb" ∷ []))

  -- The chain of tests in front of the turnOnColor calls.
  unfoldable pub rate_color : F → F → F → Text
  rate_color sent recv bandwidth =
      if fl.equal bandwidth sent
      then codes "TWO_SECOND_TRANSFER_COLUMN_COLOR"
      else if fl.equal bandwidth recv
      then codes "TEN_SECOND_TRANSFER_COLUMN_COLOR"
      else codes "FOURTY_SECOND_TRANSFER_COLUMN_COLOR"

  -- The second chain of tests, in front of the turnOffColor calls.
  unfoldable pub rate_color_off : F → F → F → Text
  rate_color_off sent recv bandwidth =
      if fl.equal bandwidth sent
      then codes "TWO_SECOND_TRANSFER_COLUMN_COLOR"
      else if fl.equal bandwidth recv
      then codes "TEN_SECOND_TRANSFER_COLUMN_COLOR"
      else codes "FOURTY_SECOND_TRANSFER_COLUMN_COLOR"

  -- The end of draw_line_total, for one of the three kinds of a line.
  unfoldable pub draw_rate : F → F → F → Option ℕ → Option ℕ → Bool → List (Draw F)
  draw_rate sent recv bandwidth row col bytes =
      on (color_of (rate_color sent recv bandwidth))
      ∷ addstr row col (readable_size bandwidth 10 1024 bytes)
      ∷ off (color_of (rate_color_off sent recv bandwidth))
      ∷ []

  unfoldable pub draw_line_total :
      F → F → Option ℕ → Option ℕ → OptionLinedisplay → Bool → List (Draw F)
  draw_line_total sent recv row col two_line bytes =
      draw_rate sent recv sent row col bytes ++ draw_rate sent recv recv (next_row row) col bytes
  draw_line_total sent recv row col one_line_sent bytes = draw_rate sent recv sent row col bytes
  draw_line_total sent recv row col one_line_recv bytes = draw_rate sent recv recv row col bytes
  draw_line_total sent recv row col one_line_both bytes =
      draw_rate sent recv (fl.add recv sent) row col bytes
