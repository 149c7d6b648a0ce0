-- ===== src/Tests/Outputs.antt =====
-- A string of the JSON output, and the bars of some frames.
use iftopcolor.Shared.{
  Bool, true, ℕ, List, ◌*◌, ◌/◌, ◌≤◌, All, if◌then◌else◌, ◌≡◌, refl, ◌++◌, [], ◌∷◌, none, some,
  arith, false,
}
use iftopcolor.ProcInfo.{ProcInfo}
use iftopcolor.ProcInfo.Publish.{refreshed}
use iftopcolor.ProcInfo.Linux.{InodeTable, ProcFs, procinfo_refresh}
use iftopcolor.ProcInfo.Sockets.{sockets_of, procinfo_refresh-refreshed}
use iftopcolor.Options.{Options, options_set_defaults}
use iftopcolor.Export.{json_escape_string}
use iftopcolor.Export.Json.{read_string, read_string-json_escape_string}
use iftopcolor.Bars.{
  Scale, first_scale, scale_marks, place_marks, draw_frames, draw_bars, get_bar_length,
  get_bar_length_eighths, note_rate, search_rate, get_max_bandwidth, bigger_rate,
}
use iftopcolor.Bars.Range.{IsScaled, draw_frames-IsScaled}

-- a"b\
read_string-json_escape_string_example :
    read_string (json_escape_string (97 ∷ 34 ∷ 98 ∷ 92 ∷ []) ++ 44 ∷ [])
    ≡ some (97 ∷ 34 ∷ 98 ∷ 92 ∷ [], 44 ∷ [])
read_string-json_escape_string_example =
    read_string-json_escape_string (97 ∷ 34 ∷ 98 ∷ 92 ∷ []) (44 ∷ [])
      (omega arith, (omega arith, (omega arith, (omega arith, tt))))

abbrev auto : Options
auto = options_set_defaults false [] none

-- Five marks of a linear scale, and none of a logarithmic one.
abbrev fifths : Bool → ℕ → List ℕ
fifths log max = if log then [] else max / 5 ∷ 2 * max / 5 ∷ 3 * max / 5 ∷ 4 * max / 5 ∷ max ∷ []

fifths-below : (log : Bool) (max : ℕ) → All (λ r. r ≤ max) (fifths log max)
fifths-below true max = tt
fifths-below false max =
    (omega arith, (omega arith, (omega arith, (omega arith, (omega arith, tt)))))

auto_bandwidth : auto.max_bandwidth ≤ 10000000
unfolding options_set_defaults
auto_bandwidth = omega arith

draw_frames-IsScaled_example :
    (s' : Scale) × (draw_frames
        (λ log rate max. rate)
        fifths
        auto
        ((300000 ∷ 9000000 ∷ []) ∷ [] ∷ [])
        first_scale
      ≡ some s')
    × IsScaled s'
draw_frames-IsScaled_example =
    draw_frames-IsScaled (λ log rate max. rate) auto fifths ((300000 ∷ 9000000 ∷ []) ∷ [] ∷ [])
      first_scale fifths-below auto_bandwidth ((omega arith, (omega arith, tt)), (tt, tt))
      (record { inside = omega arith; room = λ w. omega arith })

-- A bar of 20 Mbit/s, and one in the next frame.
twenty_megabits :
    draw_frames (λ log rate max. rate) fifths auto ((20000000 ∷ []) ∷ (1 ∷ []) ∷ []) first_scale
    ≡ none
unfolding draw_frames draw_bars get_bar_length get_bar_length_eighths note_rate search_rate
    get_max_bandwidth bigger_rate options_set_defaults scale_marks place_marks
twenty_megabits = refl

-- A fixed bandwidth of 1 Gbit/s: the first two of its marks, without any bar.
gigabit_marks :
    scale_marks
      (λ log rate max. rate)
      fifths
      (record auto { max_bandwidth = 1000000000 })
      first_scale
    ≡ none
unfolding scale_marks place_marks get_bar_length get_bar_length_eighths note_rate search_rate
    get_max_bandwidth options_set_defaults
gigabit_marks = refl

-- One socket, which the process 7 holds.
abbrev one_socket : ProcFs
one_socket = record {
  tcp = some (record { matched = 6; words = 16777226 ∷ []; local_port = 1000; inode = 5 } ∷ []);
  tcp6 = none;
  udp = none;
  udp6 = none;
  processes = some (record { pid = 7; name = 115 ∷ []; fds = none ∷ some 5 ∷ [] } ∷ []);
}

abbrev stale : InodeTable
stale = record {
  entries = record { inode = 5; af = 2; protocol = 17; port = 53; addr = 0 ∷ 0 ∷ 0 ∷ 0 ∷ [] } ∷ [];
  cap = 1024;
}

abbrev nothing : ProcInfo
nothing = record { live = none; staging = none }

procinfo_refresh-refreshed_example :
    (procinfo_refresh one_socket stale nothing).0 ≡ refreshed nothing (sockets_of one_socket)
procinfo_refresh-refreshed_example = procinfo_refresh-refreshed one_socket stale nothing
