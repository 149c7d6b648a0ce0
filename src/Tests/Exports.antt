-- ===== src/Tests/Exports.antt =====
-- The output for one flow.
use iftopcolor.Shared.{ℕ, ◌+◌, ◌≡◌, refl, true, false, [], ◌∷◌, none, arith, codes}
use iftopcolor.Stringmap.{Text}
use iftopcolor.Options.{Options, options_set_defaults}
use iftopcolor.Screen.{HostPairLine, Rates}
use iftopcolor.AddrHash.{af_inet}
use iftopcolor.Export.{
  Conversions, Report, printed, protocol_name, protocol_text, text_of, csv_line, csv_rates,
  csv_header, export_print_json,
}
use iftopcolor.Export.Stripped.{stripped, outside}
use iftopcolor.Export.Document.{compact, document}
use iftopcolor.Export.Compact.{IsPrinting, export_print_json-compact}
use iftopcolor.Export.Columns.{commas, HasNoCommas, csv_line-commas}
use iftopcolor.Export.Loop.{export_loop, export_loop-ticks, time_over, ends_at}
use iftopcolor.Print.{print_digits}

-- Conversions that print the same for all.
abbrev conversions : Conversions ℕ
conversions = record {
  long_double = λ v. codes "0";
  int = λ n. codes "7";
  inet_ntop = λ af addr. codes "10.0.0.1";
}

conversions-IsPrinting : IsPrinting conversions
conversions-IsPrinting = record {
  float_bare = λ v. ground arith;
  int_bare = λ n. ground arith;
  addr_simple = λ af addr. ground arith;
}

conversions-HasNoCommas : HasNoCommas conversions
conversions-HasNoCommas = record {
  in_floats = λ v. refl;
  in_ints = λ n. refl;
  in_addrs = λ af addr. refl;
}

abbrev defaults : Options
defaults = options_set_defaults false [] none

abbrev no_rate : Rates ℕ
no_rate = record { div0 = 0; div1 = 0; div2 = 0 }

abbrev flow : Text → HostPairLine ℕ
flow name = record {
  ap = record {
    address_family = af_inet;
    protocol = 6;
    src_port = 40000;
    src = 10 ∷ 0 ∷ 0 ∷ 1 ∷ [];
    dst_port = 80;
    dst = 10 ∷ 0 ∷ 0 ∷ 2 ∷ [];
  };
  total_recv = 5;
  total_sent = 7;
  recv = no_rate;
  sent = no_rate;
  cached_hostname = [];
  pid = 7;
  process_name = name;
}

abbrev report : Report ℕ
report = record {
  timebuf = codes "2026-01-01T00:00:00Z";
  lines = flow (codes "cat") ∷ flow (codes "a \"b\" c") ∷ [];
  totals_sent = no_rate;
  totals_recv = no_rate;
  peaksent = 7;
  peakrecv = 5;
  total_sent = 7;
  total_recv = 5;
}

export_print_json-compact_example :
    stripped outside (printed (export_print_json conversions defaults report))
    ≡ compact (document conversions defaults report) []
export_print_json-compact_example =
    export_print_json-compact conversions defaults conversions-IsPrinting report (ground arith)

csv_line-commas_example :
    commas (printed (csv_line conversions defaults (codes "now") (flow (codes "cat"))))
    ≡ commas (printed (csv_header conversions defaults))
csv_line-commas_example =
    csv_line-commas conversions conversions-HasNoCommas defaults (codes "now") (flow (codes "cat"))
      refl refl

-- A process's name with a comma shifts the columns behind it.
one_comma_more :
    commas (printed (csv_line conversions defaults (codes "now") (flow (codes "a,b"))))
    ≡ commas (printed (csv_header conversions defaults)) + 1
unfolding printed text_of csv_line csv_rates csv_header protocol_name protocol_text print_digits
    options_set_defaults
one_comma_more = refl

-- Ten seconds, on a clock that comes to them in the third round.
abbrev ten_seconds : Options
ten_seconds = record defaults { export_duration = 10 }

export_loop-ticks_example :
    export_loop ten_seconds 100
      (record { foad = false; now = 100 }
        ∷ record { foad = false; now = 109 }
        ∷ record { foad = false; now = 110 }
        ∷ [])
      0
    ≡ (2, true)
unfolding ends_at time_over
export_loop-ticks_example =
    export_loop-ticks ten_seconds 100 0
      (record { foad = false; now = 100 } ∷ record { foad = false; now = 109 } ∷ []) []
      (record { foad = false; now = 110 }) (refl, (refl, tt)) refl
