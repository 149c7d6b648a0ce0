-- ===== src/Ui/Toggles.antt =====
-- What the keys do to the options.
use iftopcolor.Shared.{◌≡◌, refl, ap, ◌∙◌, Bool, true, false, if◌then◌else◌, not, ◌||◌}
use iftopcolor.Options.{Options, OptionPort, ports_off, ports_src, ports_dest, ports_on}
use iftopcolor.Ui.Defs.{
  Ui, Outside, Key, call_tick, call_print, showhelp, showportstatus, flip_src, flip_dest,
  flip_ports, flipped, with_options, ui_key, key_q, key_n, key_N, key_h, key_b, key_B, key_s, key_d,
  key_S, key_D, key_p, key_P, key_o, key_1, key_2, key_3, key_source, key_dest, key_j, key_k, key_t,
  key_f, key_l, key_subshell, key_T, key_L, key_Z, key_clear, key_none, key_other,
}

-- The options behind a key.
abbrev pub shown_ports : OptionPort → Bool × Bool
shown_ports ports_off = (false, false)
shown_ports ports_src = (true, false)
shown_ports ports_dest = (false, true)
shown_ports ports_on = (true, true)

pub showportstatus-options :
    (env : Outside) (ui : Ui) → (showportstatus env ui).options ≡ ui.options
unfolding showportstatus showhelp call_tick
showportstatus-options env ui = split ui.options.showports
  where
    split :
        (p : OptionPort)
        → (showportstatus env (with_options (record ui.options { showports = p }) ui)).options
          ≡ record ui.options { showports = p }
    split ports_off = refl
    split ports_src = refl
    split ports_dest = refl
    split ports_on = refl

-- The keys that flip one option or, with `S` and `D`, one of the two port columns.
abbrev pub is_toggle : Key → Bool
is_toggle key_n = true
is_toggle key_N = true
is_toggle key_h = true
is_toggle key_b = true
is_toggle key_s = true
is_toggle key_d = true
is_toggle key_S = true
is_toggle key_D = true
is_toggle key_P = true
is_toggle key_o = true
is_toggle key_T = true
is_toggle key_L = true
is_toggle key_Z = true
is_toggle k = false

flipped_twice : (b : Bool) → flipped (flipped b) ≡ b
flipped_twice true = refl
flipped_twice false = refl

flip_src_twice : (p : OptionPort) → flip_src (flip_src p) ≡ p
unfolding flip_src
flip_src_twice ports_off = refl
flip_src_twice ports_src = refl
flip_src_twice ports_dest = refl
flip_src_twice ports_on = refl

flip_dest_twice : (p : OptionPort) → flip_dest (flip_dest p) ≡ p
unfolding flip_dest
flip_dest_twice ports_off = refl
flip_dest_twice ports_src = refl
flip_dest_twice ports_dest = refl
flip_dest_twice ports_on = refl

-- What a toggle does to the options.
unfoldable pub toggled : Key → Options → Options
toggled key_n o = record o { dnsresolution = flipped o.dnsresolution }
toggled key_N o = record o { portresolution = flipped o.portresolution }
toggled key_h o = record o { showhelp = flipped o.showhelp }
toggled key_b o = record o { showbars = flipped o.showbars }
toggled key_s o = record o { aggregate_src = flipped o.aggregate_src }
toggled key_d o = record o { aggregate_dest = flipped o.aggregate_dest }
toggled key_S o = record o { showports = flip_src o.showports }
toggled key_D o = record o { showports = flip_dest o.showports }
toggled key_P o = record o { paused = flipped o.paused }
toggled key_o o = record o { freezeorder = flipped o.freezeorder }
toggled key_T o = record o { show_totals = flipped o.show_totals }
toggled key_L o = record o { log_scale = flipped o.log_scale }
toggled key_Z o = record o { show_processes = flipped o.show_processes }
toggled k o = o

either : (b : Bool) (x y : Ui) → x.options ≡ y.options → (if b then x else y).options ≡ y.options
either true x y e = e
either false x y e = refl

ui_key-toggled :
    (env : Outside) (k : Key) (ui : Ui)
    → is_toggle k ≡ true
    → (ui_key env k ui).options ≡ toggled k ui.options
unfolding ui_key toggled showhelp call_tick call_print
ui_key-toggled env key_n ui h = refl
ui_key-toggled env key_N ui h = refl
ui_key-toggled env key_h ui h = refl
ui_key-toggled env key_b ui h = refl
ui_key-toggled env key_s ui h = refl
ui_key-toggled env key_d ui h = refl
ui_key-toggled env key_S ui h = showportstatus-options env _
ui_key-toggled env key_D ui h = showportstatus-options env _
ui_key-toggled env key_P ui h = either ui.options.paused _ _ refl
ui_key-toggled env key_o ui h = either ui.options.freezeorder _ _ refl
ui_key-toggled env key_T ui h = refl
ui_key-toggled env key_L ui h = refl
ui_key-toggled env key_Z ui h = refl
ui_key-toggled env key_q ui h = cc
ui_key-toggled env key_B ui h = cc
ui_key-toggled env key_p ui h = cc
ui_key-toggled env key_1 ui h = cc
ui_key-toggled env key_2 ui h = cc
ui_key-toggled env key_3 ui h = cc
ui_key-toggled env key_source ui h = cc
ui_key-toggled env key_dest ui h = cc
ui_key-toggled env key_j ui h = cc
ui_key-toggled env key_k ui h = cc
ui_key-toggled env key_t ui h = cc
ui_key-toggled env key_f ui h = cc
ui_key-toggled env key_l ui h = cc
ui_key-toggled env key_subshell ui h = cc
ui_key-toggled env key_clear ui h = cc
ui_key-toggled env key_none ui h = cc
ui_key-toggled env key_other ui h = cc

ui_key-flip_ports :
    (env : Outside) (ui : Ui)
    → (ui_key env key_p ui).options
      ≡ record ui.options { showports = flip_ports ui.options.showports }
unfolding ui_key
ui_key-flip_ports env ui = showportstatus-options env _

toggled_twice : (k : Key) (o : Options) → toggled k (toggled k o) ≡ o
unfolding toggled
toggled_twice key_n o = λ i. record o { dnsresolution = flipped_twice o.dnsresolution i }
toggled_twice key_N o = λ i. record o { portresolution = flipped_twice o.portresolution i }
toggled_twice key_h o = λ i. record o { showhelp = flipped_twice o.showhelp i }
toggled_twice key_b o = λ i. record o { showbars = flipped_twice o.showbars i }
toggled_twice key_s o = λ i. record o { aggregate_src = flipped_twice o.aggregate_src i }
toggled_twice key_d o = λ i. record o { aggregate_dest = flipped_twice o.aggregate_dest i }
toggled_twice key_S o = λ i. record o { showports = flip_src_twice o.showports i }
toggled_twice key_D o = λ i. record o { showports = flip_dest_twice o.showports i }
toggled_twice key_P o = λ i. record o { paused = flipped_twice o.paused i }
toggled_twice key_o o = λ i. record o { freezeorder = flipped_twice o.freezeorder i }
toggled_twice key_T o = λ i. record o { show_totals = flipped_twice o.show_totals i }
toggled_twice key_L o = λ i. record o { log_scale = flipped_twice o.log_scale i }
toggled_twice key_Z o = λ i. record o { show_processes = flipped_twice o.show_processes i }
toggled_twice key_q o = refl
toggled_twice key_B o = refl
toggled_twice key_p o = refl
toggled_twice key_1 o = refl
toggled_twice key_2 o = refl
toggled_twice key_3 o = refl
toggled_twice key_source o = refl
toggled_twice key_dest o = refl
toggled_twice key_j o = refl
toggled_twice key_k o = refl
toggled_twice key_t o = refl
toggled_twice key_f o = refl
toggled_twice key_l o = refl
toggled_twice key_subshell o = refl
toggled_twice key_clear o = refl
toggled_twice key_none o = refl
toggled_twice key_other o = refl

-- Each of the keys n, N, h, b, s, d, S, D, P, o, T, L and Z, pressed twice, leaves all options as
-- they were, whatever happened outside. `S` alone changes whether source ports are shown and
-- keeps the destination ports, `D` the other way round. `p` hides all ports if any were shown and
-- shows both if none were, so that pressed twice it shows both if any were shown, and none if
-- not.
pub ui_key-twice :
    (env env' : Outside) (k : Key) (ui : Ui)
    → is_toggle k ≡ true
    → ((ui_key env' k (ui_key env k ui)).options ≡ ui.options)
      × (shown_ports (ui_key env key_S ui).options.showports
          ≡ (flipped (shown_ports ui.options.showports).0, (shown_ports ui.options.showports).1))
      × (shown_ports (ui_key env key_D ui).options.showports
          ≡ ((shown_ports ui.options.showports).0, flipped (shown_ports ui.options.showports).1))
      × (let shown = shown_ports ui.options.showports in
          let any = shown.0 || shown.1 in
          (shown_ports (ui_key env key_p ui).options.showports ≡ (not any, not any))
          × (shown_ports (ui_key env' key_p (ui_key env key_p ui)).options.showports ≡ (any, any)))
unfolding toggled flip_src flip_dest flip_ports
ui_key-twice env env' k ui h = (
  ui_key-toggled env' k (ui_key env k ui) h
      ∙ ap (toggled k) (ui_key-toggled env k ui h)
      ∙ toggled_twice k ui.options,
  ap (λ o. shown_ports o.showports) (ui_key-toggled env key_S ui refl) ∙ src ui.options.showports,
  ap (λ o. shown_ports o.showports) (ui_key-toggled env key_D ui refl) ∙ dest ui.options.showports,
  (
    ap (λ o. shown_ports o.showports) (ui_key-flip_ports env ui) ∙ once ui.options.showports,
    ap (λ o. shown_ports o.showports) (ui_key-flip_ports env' (ui_key env key_p ui))
        ∙ ap (λ o. shown_ports (flip_ports o.showports)) (ui_key-flip_ports env ui)
        ∙ again ui.options.showports,
  ),
)
  where
    src :
        (p : OptionPort) → shown_ports (flip_src p) ≡ (flipped (shown_ports p).0, (shown_ports p).1)
    src ports_off = refl
    src ports_src = refl
    src ports_dest = refl
    src ports_on = refl

    dest :
        (p : OptionPort)
        → shown_ports (flip_dest p) ≡ ((shown_ports p).0, flipped (shown_ports p).1)
    dest ports_off = refl
    dest ports_src = refl
    dest ports_dest = refl
    dest ports_on = refl

    once :
        (p : OptionPort)
        → shown_ports (flip_ports p)
          ≡ (let any = (shown_ports p).0 || (shown_ports p).1 in (not any, not any))
    once ports_off = refl
    once ports_src = refl
    once ports_dest = refl
    once ports_on = refl

    again :
        (p : OptionPort)
        → shown_ports (flip_ports (flip_ports p))
          ≡ (let any = (shown_ports p).0 || (shown_ports p).1 in (any, any))
    again ports_off = refl
    again ports_src = refl
    again ports_dest = refl
    again ports_on = refl
