-- ===== src/Tests/Screens.antt =====
-- The screen and the ticks at one flow, with the rates in whole numbers.
use iftopcolor.Shared.{
  ℕ, ◌+◌, ◌*◌, ◌/◌, ◌≡◌, refl, false, [], ◌∷◌, flatten, none, ◌==◌, ltb, arith, count, map, to_nat,
  range,
}
use iftopcolor.Hash.{addrs}
use iftopcolor.AddrHash.{AddrPair, af_inet}
use iftopcolor.Options.{Options, options_set_defaults}
use iftopcolor.Packet.{outgoing}
use iftopcolor.Packet.Accounts.{IsLedger}
use iftopcolor.Screen.{Num, Surroundings, Display, analyse_data, screen_init, hist_idx}
use iftopcolor.Screen.Windows.{advance, hist_idx-window}
use iftopcolor.Screen.Lines.{shown_line}
use iftopcolor.Screen.Sums.{summed}
use iftopcolor.Screen.Contents.{on_shown, finished, started, analyse_data-summed}
use iftopcolor.Screen.Start.{screen_init-IsDisplay, screen_init-addrs}
use iftopcolor.ProcInfo.Linux.{ProcFs}
use iftopcolor.Tick.{Program, TickInput}
use iftopcolor.Tick.Steps.{packet_step}
use iftopcolor.Tick.Reach.{program_start}
use iftopcolor.Tick.Current.{Current}
use iftopcolor.Tests.Packets.{after_request, after_request-IsLedger, plain, no_procs, request}

abbrev whole : Num ℕ
whole = record {
  of_long = λ n. n;
  add = λ a b. a + b;
  mul = λ a b. a * b;
  div = λ a b. a / b;
  below = ltb;
  equal = λ a b. a == b;
}

abbrev env : Surroundings ℕ
env = record {
  slot_elapsed = 1;
  resolve = λ af addr. addr;
  inet_ntop = λ af addr. addr;
  qsort = λ compare l. l;
}

abbrev opts : Options
opts = options_set_defaults false [] none

abbrev first_screen : Display ℕ
first_screen = screen_init whole

first-IsLedger : IsLedger (addrs (flatten first_screen.screen_hash)) after_request
first-IsLedger = rw (screen_init-addrs whole) after_request-IsLedger

-- The key of the request with its ports and its protocol hidden.
abbrev shown_key : AddrPair
shown_key = record {
  address_family = af_inet;
  protocol = 0;
  src_port = 0;
  src = 10 ∷ 0 ∷ 0 ∷ 1 ∷ 0 ∷ 0 ∷ 0 ∷ 0 ∷ 0 ∷ 0 ∷ 0 ∷ 0 ∷ 0 ∷ 0 ∷ 0 ∷ 0 ∷ [];
  dst_port = 0;
  dst = 10 ∷ 0 ∷ 0 ∷ 2 ∷ 0 ∷ 0 ∷ 0 ∷ 0 ∷ 0 ∷ 0 ∷ 0 ∷ 0 ∷ 0 ∷ 0 ∷ 0 ∷ 0 ∷ [];
}

opts-running : opts.paused ≡ false
unfolding options_set_defaults
opts-running = refl

analyse_data-summed_example :
    shown_line (analyse_data whole opts no_procs env after_request first_screen).1 shown_key
    ≡ on_shown (finished whole opts env after_request.history_len) (
        summed whole opts no_procs after_request.history_pos shown_key
          (flatten after_request.history)
          (started whole opts first_screen shown_key))
analyse_data-summed_example =
    analyse_data-summed whole opts no_procs env after_request first_screen shown_key opts-running
      (screen_init-IsDisplay whole)

hist_idx-window_example :
    (advance 6 (hist_idx 5 6) ≡ 5)
    × (◌≡◌ {A = ℕ} 39 (hist_idx 5 6))
    × (count 39 (map (hist_idx 5) (range 0 10)) ≡ to_nat (ltb 6 10))
hist_idx-window_example =
    hist_idx-window 5 39 10 6 (omega arith) (omega arith) (omega arith) (omega arith) refl

abbrev no_files : ProcFs
no_files = record { tcp = none; tcp6 = none; udp = none; udp6 = none; processes = none }

abbrev late : TickInput ℕ
late = record { now = 3000000; proc = no_files; seconds = λ us. us / 1000000; env = env }

abbrev after_packet : Program ℕ
after_packet = packet_step plain request outgoing (program_start whole 0)
