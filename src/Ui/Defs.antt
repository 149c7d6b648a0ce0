-- ===== src/Ui/Defs.antt =====
-- The body of the loop.
use iftopcolor.Shared.{
  ℕ, zero, suc, ◌+◌, ◌-◌, ◌%◌, Bool, true, false, ◌&&◌, not, List, [], ◌∷◌, Option, none, some, ltb,
  if◌then◌else◌,
}
use iftopcolor.Stringmap.{Text}
use iftopcolor.ConfigFile.{skip_while, is_blank}
use iftopcolor.Options.{
  Options, OptionPort, OptionSort, ports_off, ports_src, ports_dest, ports_on, sort_div1, sort_div2,
  sort_div3, sort_src, sort_dest, linedisplay_number, number_linedisplay, two_line, one_line_both,
  one_line_recv, one_line_sent, OptionLinedisplay,
}
use iftopcolor.Ui.Messages.{
  Message, dns_resolution_off, dns_resolution_on, port_resolution_off, port_resolution_on, bars_off,
  bars_on, bars_2s, bars_10s, bars_40s, show_source, hide_source, show_dest, hide_dest,
  port_display_on, port_display_off, port_display_dest, port_display_source, display_paused,
  display_unpaused, order_frozen, order_unfrozen, sort_by_col_1, sort_by_col_2, sort_by_col_3,
  sort_by_source, sort_by_dest, two_lines, sent_only, received_only, one_line, installed_filter,
  invalid_regexp, show_cumulative, hide_cumulative, logarithmic, linear, process_on, process_off,
  press_h, filter_error,
}

-- A call, with the options of its moment: `tick(print)` and `ui_print()`.
pub data Call : Type 0 where
  ticks : Bool → Options → Call
  prints : Options → Call

-- The options and the globals of the help line; `calls` are those made so far, the newest first.
pub record Ui : Type 0 where
  pub options : Options
  pub helpmsg : Option Message
  pub showhelphint : Bool
  pub persistenthelp : Bool
  pub helptimer : ℕ
  pub foad : Bool
  pub calls : List Call

-- What a key's handler may ask for: the time, the answer of a prompt, the error that `set_filter_code`
-- returns, and whether `regcomp` accepts a pattern.
pub record Outside : Type 0 where
  pub time : ℕ
  pub edline : Option Text
  pub set_filter_code : Option Text → Option Text
  pub regcomp : Text → Bool

unfoldable pub call_tick : Bool → Ui → Ui
call_tick print ui = record ui { calls = ticks print ui.options ∷ ui.calls }

unfoldable pub call_print : Ui → Ui
call_print ui = record ui { calls = prints ui.options ∷ ui.calls }

unfoldable pub showhelp : Outside → Message → Ui → Ui
showhelp env message ui = call_tick true (record ui {
  helpmsg = some message;
  showhelphint = true;
  helptimer = env.time;
  persistenthelp = false;
})

-- ui_tick: whether it prints, and the hint, which is taken away once it is older than HELP_TIME seconds.
unfoldable pub ui_tick : Bool → ℕ → ℕ → Ui → Ui
ui_tick print now help_time ui =
    if print
    then call_print ui
    else if ui.showhelphint && ltb (ui.helptimer + help_time) now && not ui.persistenthelp
    then call_print (record ui { showhelphint = false })
    else ui

abbrev pub flipped : Bool → Bool
flipped b = if b then false else true

unfoldable pub showportstatus : Outside → Ui → Ui
showportstatus env ui = elim ui.options.showports [
  | ports_on ↦ showhelp env port_display_on ui
  | ports_off ↦ showhelp env port_display_off ui
  | ports_dest ↦ showhelp env port_display_dest ui
  | ports_src ↦ showhelp env port_display_source ui
]

-- `S`, `D` and `p`
unfoldable pub flip_src : OptionPort → OptionPort
flip_src ports_off = ports_src
flip_src ports_dest = ports_on
flip_src ports_on = ports_dest
flip_src ports_src = ports_off

unfoldable pub flip_dest : OptionPort → OptionPort
flip_dest ports_off = ports_dest
flip_dest ports_src = ports_on
flip_dest ports_on = ports_src
flip_dest ports_dest = ports_off

unfoldable pub flip_ports : OptionPort → OptionPort
flip_ports ports_off = ports_on
flip_ports ports_src = ports_off
flip_ports ports_dest = ports_off
flip_ports ports_on = ports_off

abbrev pub with_options : Options → Ui → Ui
with_options o ui = record ui { options = o }

unfoldable pub interval_message : ℕ → Message
interval_message zero = bars_2s
interval_message (suc zero) = bars_10s
interval_message (suc (suc n)) = bars_40s

unfoldable pub linedisplay_message : OptionLinedisplay → Message
linedisplay_message two_line = two_lines
linedisplay_message one_line_sent = sent_only
linedisplay_message one_line_recv = received_only
linedisplay_message one_line_both = one_line

-- The labels of the switch: the characters of the keys, in the order of the source.
pub data Key : Type 0 where
  key_q key_n key_N key_h key_b key_B key_s key_d key_S key_D key_p key_P key_o : Key
  key_1 key_2 key_3 key_source key_dest key_j key_k key_t key_f key_l key_subshell : Key
  key_T key_L key_Z key_clear key_none key_other : Key

-- A sort key.
unfoldable pub sort_by : Outside → OptionSort → Message → Ui → Ui
sort_by env sort message ui =
    showhelp env message (with_options (record ui.options { sort = sort }) ui)

-- An empty answer takes the filter away.
unfoldable pub filter_text : Text → Option Text
filter_text s = elim (skip_while is_blank s) [ [] ↦ none | c ∷ r ↦ some s ]

unfoldable pub prompt_filter : Outside → Ui → Ui
prompt_filter env ui = elim env.edline [
  | none ↦ ui
  | some s ↦ elim (env.set_filter_code (filter_text s)) [
    | none ↦
        showhelp env installed_filter
          (with_options (record ui.options { filtercode = filter_text s }) ui)
    | some error ↦ showhelp env (filter_error error) ui
  ]
]

-- screen_filter_set: the pattern takes the place of the old one, which is given up even for a pattern
-- that does not compile. The second result is whether it does.
unfoldable pub screen_filter_set : Outside → Text → Options → Options × Bool
screen_filter_set env pattern o =
    if env.regcomp pattern
    then (record o { screenfilter = some pattern }, true)
    else (record o { screenfilter = none }, false)

unfoldable pub prompt_screen_filter : Outside → Ui → Ui
prompt_screen_filter env ui = elim env.edline [
  | none ↦ ui
  | some s ↦
      let (o, accepted) = screen_filter_set env s ui.options in
      let ui' = with_options o ui in if accepted then ui' else showhelp env invalid_regexp ui'
]

-- The switch. A subshell leaves the options as they are.
unfoldable pub ui_key : Outside → Key → Ui → Ui
ui_key env key_q ui = record ui { foad = true }
ui_key env key_n ui =
    let b = ui.options.dnsresolution in
    call_tick true (
      showhelp env (if b then dns_resolution_off else dns_resolution_on)
        (with_options (record ui.options { dnsresolution = flipped b }) ui))
ui_key env key_N ui =
    let b = ui.options.portresolution in
    call_tick true (
      showhelp env (if b then port_resolution_off else port_resolution_on)
        (with_options (record ui.options { portresolution = flipped b }) ui))
ui_key env key_h ui =
    call_tick true (with_options (record ui.options { showhelp = flipped ui.options.showhelp }) ui)
ui_key env key_b ui =
    let b = ui.options.showbars in
    call_tick true (
      showhelp env (if b then bars_off else bars_on)
        (with_options (record ui.options { showbars = flipped b }) ui))
ui_key env key_B ui =
    let n : ℕ = (ui.options.bar_interval + 1) % 3 in
    call_print
      (showhelp env (interval_message n) (with_options (record ui.options { bar_interval = n }) ui))
ui_key env key_s ui =
    let b = ui.options.aggregate_src in
    showhelp env (if b then show_source else hide_source)
      (with_options (record ui.options { aggregate_src = flipped b }) ui)
ui_key env key_d ui =
    let b = ui.options.aggregate_dest in
    showhelp env (if b then show_dest else hide_dest)
      (with_options (record ui.options { aggregate_dest = flipped b }) ui)
ui_key env key_S ui =
    showportstatus env
      (with_options (record ui.options { showports = flip_src ui.options.showports }) ui)
ui_key env key_D ui =
    showportstatus env
      (with_options (record ui.options { showports = flip_dest ui.options.showports }) ui)
ui_key env key_p ui =
    showportstatus env
      (with_options (record ui.options { showports = flip_ports ui.options.showports }) ui)
ui_key env key_P ui =
    let b = ui.options.paused in
    let shown =
      showhelp env (if b then display_unpaused else display_paused)
        (with_options (record ui.options { paused = flipped b }) ui) in
    if b then shown else record shown { persistenthelp = true }
ui_key env key_o ui =
    let b = ui.options.freezeorder in
    let shown =
      showhelp env (if b then order_unfrozen else order_frozen)
        (with_options (record ui.options { freezeorder = flipped b }) ui) in
    if b then shown else record shown { persistenthelp = true }
ui_key env key_1 ui = sort_by env sort_div1 sort_by_col_1 ui
ui_key env key_2 ui = sort_by env sort_div2 sort_by_col_2 ui
ui_key env key_3 ui = sort_by env sort_div3 sort_by_col_3 ui
ui_key env key_source ui = sort_by env sort_src sort_by_source ui
ui_key env key_dest ui = sort_by env sort_dest sort_by_dest ui
ui_key env key_j ui =
    call_print
      (with_options (record ui.options { screen_offset = ui.options.screen_offset + 1 }) ui)
ui_key env key_k ui =
    if ltb 0 ui.options.screen_offset
    then call_print
        (with_options (record ui.options { screen_offset = ui.options.screen_offset - 1 }) ui)
    else ui
ui_key env key_t ui =
    let l = number_linedisplay ((linedisplay_number ui.options.linedisplay + 1) % 4) in
    call_print (
      showhelp env (linedisplay_message l)
        (with_options (record ui.options { linedisplay = l }) ui))
ui_key env key_f ui = call_print (prompt_filter env ui)
ui_key env key_l ui = call_print (prompt_screen_filter env ui)
ui_key env key_subshell ui = ui
ui_key env key_T ui =
    let b = flipped ui.options.show_totals in
    call_print (
      showhelp env (if b then show_cumulative else hide_cumulative)
        (with_options (record ui.options { show_totals = b }) ui))
ui_key env key_L ui =
    let b = flipped ui.options.log_scale in
    call_print (
      showhelp env (if b then logarithmic else linear)
        (with_options (record ui.options { log_scale = b }) ui))
ui_key env key_Z ui =
    let b = flipped ui.options.show_processes in
    call_tick true (
      showhelp env (if b then process_on else process_off)
        (with_options (record ui.options { show_processes = b }) ui))
ui_key env key_clear ui = ui
ui_key env key_none ui = ui
ui_key env key_other ui = showhelp env press_h ui

-- The loop, on the keys that come, each with what is outside at its moment; a tick ends each round.
unfoldable pub ui_loop : List (Outside × Key) → Ui → Ui
ui_loop [] ui = ui
ui_loop ((env, key) ∷ keys) ui =
    let rest = ui_loop keys (call_tick false (ui_key env key ui)) in if ui.foad then ui else rest
