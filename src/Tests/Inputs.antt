-- ===== src/Tests/Inputs.antt =====
-- Keys on the screen, keys in a prompt, and a command line.
use iftopcolor.Shared.{
  ℕ, ◌≡◌, refl, Bool, false, true, List, [], ◌∷◌, none, some, ◌==◌, leb, ◌&&◌, ◌||◌, not, arith,
}
use iftopcolor.Stringmap.{Text, stringmap_find, stringmap_new, strcmp}
use iftopcolor.Stringmap.Dictionary
use iftopcolor.Stringmap.Dictionary.{or_else}
use iftopcolor.ConfigFile.{Settings, config_init}
use iftopcolor.Options.{
  Options, options_set_defaults, CLib, Arg, no_dns, on_interface, export_format, parsed, json,
  options_read_args,
}
use iftopcolor.Options.Arguments.{last_setting, options_read_args-find}
use iftopcolor.Edline.{Key, left, backspace, kill_word, other, edline}
use iftopcolor.Edline.Zipper.{open_zipper, step_loop}
use iftopcolor.Edline.Refinement.{Agrees, edline-Agrees}
use iftopcolor.Ui.{Ui, Outside, ui_key, ui_loop, flipped, key_S, key_D, key_B, key_P, key_p, key_q}
use iftopcolor.Ui.Toggles.{shown_ports, ui_key-twice}
use iftopcolor.Ui.Bounds.{IsInRange, ui_loop-IsInRange}

abbrev printing : ℕ → Bool
printing c = leb 32 c && leb c 126

abbrev space : ℕ → Bool
space c = c == 32

abbrev typed : List Key
typed = other 99 ∷ left ∷ backspace ∷ kill_word ∷ other 13 ∷ []

edline-Agrees_example :
    Agrees
      (step_loop printing space typed (open_zipper (some (97 ∷ 32 ∷ 98 ∷ []))))
      (edline printing space (some (97 ∷ 32 ∷ 98 ∷ [])) typed)
edline-Agrees_example = edline-Agrees printing space (some (97 ∷ 32 ∷ 98 ∷ [])) typed

abbrev outside : Outside
outside = record { time = 5; edline = none; set_filter_code = λ s. none; regcomp = λ s. true }

abbrev ui : Ui
ui = record {
  options = options_set_defaults false [] none;
  helpmsg = none;
  showhelphint = false;
  persistenthelp = false;
  helptimer = 0;
  foad = false;
  calls = [];
}

ui_key-twice_example :
    ((ui_key outside key_P (ui_key outside key_P ui)).options ≡ ui.options)
    × (shown_ports (ui_key outside key_S ui).options.showports
        ≡ (flipped (shown_ports ui.options.showports).0, (shown_ports ui.options.showports).1))
    × (shown_ports (ui_key outside key_D ui).options.showports
        ≡ ((shown_ports ui.options.showports).0, flipped (shown_ports ui.options.showports).1))
    × (let shown = shown_ports ui.options.showports in
        let any = shown.0 || shown.1 in
        (shown_ports (ui_key outside key_p ui).options.showports ≡ (not any, not any))
        × (shown_ports (ui_key outside key_p (ui_key outside key_p ui)).options.showports
            ≡ (any, any)))
ui_key-twice_example = ui_key-twice outside outside key_P ui refl

ui-IsInRange : IsInRange ui
unfolding options_set_defaults
ui-IsInRange = omega arith

ui_loop-IsInRange_example :
    IsInRange (ui_loop ((outside, key_B) ∷ (outside, key_B) ∷ (outside, key_q) ∷ []) ui)
ui_loop-IsInRange_example =
    ui_loop-IsInRange ((outside, key_B) ∷ (outside, key_B) ∷ (outside, key_q) ∷ []) ui ui-IsInRange

abbrev clib : CLib
clib = record { inet_aton = λ s. none; inet_pton6 = λ s. none; atoi = λ s. 1; unassigned = 0 }

abbrev args : List Arg
args = no_dns ∷ on_interface (97 ∷ []) ∷ export_format json ∷ on_interface (98 ∷ []) ∷ []

config_init-IsMap : Dictionary.IsMap config_init
unfolding config_init stringmap_new
config_init-IsMap = tt

options_read_args-find_example :
    (o' : Options) × (config' : Settings) × (options_read_args clib args false ui.options
        config_init
      ≡ parsed o' config')
    × Dictionary.IsMap config'
    × ((q : Text)
        → stringmap_find config' q ≡ or_else (last_setting args q) (stringmap_find config_init q))
unfolding strcmp
options_read_args-find_example =
    options_read_args-find clib args ui.options config_init refl config_init-IsMap
