-- ===== src/Tests/Prints.antt =====
-- A frame with two lines, on floats that are whole numbers.
use iftopcolor.Shared.{
  ℕ, ◌+◌, ◌-◌, ◌*◌, ◌/◌, ◌≡◌, refl, Bool, true, false, [], ◌∷◌, none, some, ◌==◌, ltb, codes,
  replicate, take, drop,
}
use iftopcolor.Stringmap.{Text}
use iftopcolor.AddrHash.{af_inet}
use iftopcolor.Options.{Options, options_set_defaults}
use iftopcolor.Screen.{Num, HostPairLine, Rates}
use iftopcolor.Print.{
  Floats, Terminal, Names, hostname, service, service_at, sprint_host, host_width, Screenful,
  print_lines, ui_print,
}
use iftopcolor.Print.Host.{Fitted, sprint_host-Fitted}
use iftopcolor.Print.Lines.{is_shown, fits, filtered, draw_all, print_lines-shown}
use iftopcolor.Print.Rows.{AreBetween, print_lines-AreBetween}
use iftopcolor.Print.Attributes.{Closes, ui_print-Closes}

abbrev naturals : Num ℕ
naturals = record {
  of_long = λ n. n;
  add = λ a b. a + b;
  mul = λ a b. a * b;
  div = λ a b. a / b;
  below = ltb;
  equal = λ a b. a == b;
}

abbrev floats : Floats ℕ ℕ
floats = record {
  narrow = λ n. n;
  of_nat = λ n. n;
  of_int = λ n. n;
  add = λ a b. a + b;
  mul = λ a b. a * b;
  div = λ a b. a / b;
  below = ltb;
  equal = λ a b. a == b;
  format = λ n rate u. u;
}

abbrev small_terminal : Terminal
small_terminal = record { rows = 24; cols = 80 }

abbrev defaults : Options
defaults = options_set_defaults false [] none

abbrev some_names : Names
some_names = record {
  resolved = λ af addr. codes "host";
  inet_ntop = λ af addr. codes "10.0.0.1";
  held = [];
  serv_name = λ port protocol. some (codes "http");
}

abbrev no_rate : Rates ℕ
no_rate = record { div0 = 0; div1 = 0; div2 = 0 }

abbrev a_line : HostPairLine ℕ
a_line = record {
  ap = record {
    address_family = af_inet;
    protocol = 6;
    src_port = 40000;
    src = 10 ∷ 0 ∷ 0 ∷ 1 ∷ replicate 12 0;
    dst_port = 80;
    dst = 10 ∷ 0 ∷ 0 ∷ 2 ∷ replicate 12 0;
  };
  total_recv = 5;
  total_sent = 7;
  recv = no_rate;
  sent = no_rate;
  cached_hostname = [];
  pid = 0;
  process_name = [];
}

abbrev any_text : Text → Bool
any_text text = true

sprint_host-Fitted_example :
    let host = hostname some_names defaults af_inet (10 ∷ []) 26 in
    let serv = service some_names defaults 80 6 in
    Fitted 26 host serv
      (sprint_host some_names defaults af_inet (10 ∷ []) 80 6 26)
      (service_at 26 host serv)
sprint_host-Fitted_example = sprint_host-Fitted some_names defaults af_inet (10 ∷ []) 80 6 26

print_lines-shown_example :
    print_lines naturals floats small_terminal defaults some_names any_text 2 (a_line ∷ a_line ∷ [])
    ≡ draw_all naturals floats small_terminal defaults some_names any_text 2 (
        take (fits defaults.linedisplay (small_terminal.rows - 5 - 2)) (
          filtered
            (is_shown naturals floats small_terminal defaults some_names any_text)
            (drop defaults.screen_offset (a_line ∷ a_line ∷ []))))
print_lines-shown_example =
    print_lines-shown naturals floats small_terminal defaults some_names any_text 2
      (a_line ∷ a_line ∷ [])

print_lines-AreBetween_example : AreBetween 2 (small_terminal.rows - 4) (
    print_lines naturals floats small_terminal defaults some_names any_text 2
      (a_line ∷ a_line ∷ []))
print_lines-AreBetween_example =
    print_lines-AreBetween naturals floats small_terminal defaults some_names any_text 2
      (a_line ∷ a_line ∷ [])

abbrev two_lines_shown : Screenful ℕ
two_lines_shown = record {
  dontshowdisplay = false;
  lines = a_line ∷ a_line ∷ [];
  totals_sent = no_rate;
  totals_recv = no_rate;
  peaksent = 0;
  peakrecv = 0;
  peaktotal = 0;
  total_sent = 14;
  total_recv = 10;
  helpmsg = some (codes "hello");
  marks = (3, codes "1kb") ∷ [];
}

ui_print-Closes_example :
    Closes (ui_print naturals floats small_terminal defaults some_names any_text two_lines_shown) []
ui_print-Closes_example =
    ui_print-Closes naturals floats small_terminal defaults some_names any_text two_lines_shown

-- The text of an endpoint.
named_service : sprint_host some_names defaults af_inet (10 ∷ []) 80 6 12 ≡ codes "host:http   "
unfolding sprint_host hostname service service_at options_set_defaults
named_service = refl

-- On 556 columns the width is that of the array, whose 256 bytes have no room for the end.
widest : host_width (record { rows = 24; cols = 556 }) defaults ≡ 256
unfolding host_width options_set_defaults
widest = refl

-- On fewer than 48 columns the width is 1, and `resolve` writes nothing.
narrowest :
    hostname some_names defaults af_inet
      (10 ∷ [])
      (host_width (record { rows = 24; cols = 47 }) defaults)
    ≡ []
unfolding hostname host_width options_set_defaults
narrowest = refl
