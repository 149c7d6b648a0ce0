-- ===== src/Options/Arguments.antt =====
-- What the command line sets, against the order of its options.
use iftopcolor.Shared.{
  ◌≡◌, refl, sym, ◌∙◌, Bool, true, false, List, [], ◌∷◌, Option, none, some, if◌then◌else◌, ◌&&◌,
  ◌||◌, not, ◌==◌, arith, Option-cases, Bool-cases, inl, inr,
}
use iftopcolor.Stringmap.{Text, null, blank, root, stringmap_find, stringmap_assign}
use iftopcolor.Stringmap.Dictionary
use iftopcolor.Stringmap.Dictionary.{text_eq, or_else, stringmap_insert-find}
use iftopcolor.ConfigFile.{Settings, config_set_string}
use iftopcolor.ConfigFile.Precedence.{config_set_string-find}
use iftopcolor.Options.Defs.{Options}
use iftopcolor.Options.Config.{CLib}
use iftopcolor.Options.Args.{
  Arg, help, no_dns, no_ports, link_locals, promiscuous_mode, ports_shown, no_bars, in_bytes,
  processes, unknown_option, missing_argument, on_interface, filter_code, net_filter, net_filter6,
  max_rate, config_path, export_format, export_seconds, parsed, arg_setting, read_other, read_arg,
  options_read_args, json, csv,
}

-- What one option, or the last of some options, sets a directive to.
abbrev pub own_setting : Arg → Text → Option Text
own_setting a q = elim (arg_setting a) [
  | none ↦ none
  | some (directive, str) ↦ if text_eq q directive then some str else none
]

abbrev pub last_setting : List Arg → Text → Option Text
last_setting [] q = none
last_setting (a ∷ args) q = or_else (last_setting args q) (own_setting a q)

-- Does the program go on behind an option, or behind all of them?
abbrev pub goes_on : CLib → Arg → Bool
goes_on lib help = false
goes_on lib unknown_option = false
goes_on lib missing_argument = false
goes_on lib (export_format s) = text_eq s json || text_eq s csv
goes_on lib (export_seconds s) = not (lib.atoi s == 0)
goes_on lib a = true

abbrev pub all_go_on : CLib → List Arg → Bool
all_go_on lib [] = true
all_go_on lib (a ∷ args) = goes_on lib a && all_go_on lib args

or_else_assoc : (a b c : Option Text) → or_else (or_else a b) c ≡ or_else a (or_else b c)
or_else_assoc none b c = refl
or_else_assoc (some x) b c = refl

stringmap_assign-IsMap :
    (config : Settings) (directive str : Text)
    → Dictionary.IsMap config
    → Dictionary.IsMap (stringmap_assign config directive str)
unfolding stringmap_assign
stringmap_assign-IsMap null directive str v = v
stringmap_assign-IsMap blank directive str v = v
stringmap_assign-IsMap (root k w l g) directive str v = ground arith

config_set_string-IsMap :
    (directive str : Text) (config : Settings)
    → Dictionary.IsMap config
    → Dictionary.IsMap (config_set_string directive str config)
unfolding config_set_string
config_set_string-IsMap directive str config v =
    elim (Option-cases (stringmap_find config directive)) [
      | inl e ↦
          rw (config_set_string, e) ((stringmap_insert-find config directive directive str v).0)
      | inr (entry, e) ↦ rw (config_set_string, e) (stringmap_assign-IsMap config directive str v)
    ]

-- The settings behind one option.
record ReadOne (lib : CLib) (a : Arg) (o : Options) (config : Settings) : Type 0 where
  options : Options
  settings : Settings
  run : read_arg lib a o config ≡ parsed options settings
  map : Dictionary.IsMap settings
  find :
      (q : Text) → stringmap_find settings q ≡ or_else (own_setting a q) (stringmap_find config q)

set_one :
    (lib : CLib) (a : Arg) (o : Options) (config : Settings) (directive str : Text)
    → arg_setting a ≡ some (directive, str)
    → Dictionary.IsMap config
    → ReadOne lib a o config
unfolding read_arg
set_one lib a o config directive str e v = record {
  options = o;
  settings = config_set_string directive str config;
  run = rw (read_arg, e) refl;
  map = config_set_string-IsMap directive str config v;
  find = λ q. rw (own_setting, e) (config_set_string-find directive str q config v ∙ ground arith);
}

read_other-parsed :
    (lib : CLib) (a : Arg) (o : Options) (config : Settings)
    → goes_on lib a ≡ true
    → (o' : Options) × (read_other lib a o config ≡ parsed o' config)
unfolding read_other
read_other-parsed lib help o config h = absurd cc
read_other-parsed lib unknown_option o config h = absurd cc
read_other-parsed lib missing_argument o config h = absurd cc
read_other-parsed lib (export_format s) o config h = elim (Bool-cases (text_eq s json)) [
  | inl e ↦ rw e (_, refl)
  | inr e ↦ elim (Bool-cases (text_eq s csv)) [
    | inl f ↦ rw (e, f) (_, refl)
    | inr f ↦ absurd (ground (arith, e, f, h))
  ]
]
read_other-parsed lib (export_seconds s) o config h = elim (Bool-cases (lib.atoi s == 0)) [
  | inl e ↦ absurd (ground (arith, e, h))
  | inr e ↦ rw e (_, refl)
]
read_other-parsed lib no_dns o config h = (_, refl)
read_other-parsed lib no_ports o config h = (_, refl)
read_other-parsed lib link_locals o config h = (_, refl)
read_other-parsed lib promiscuous_mode o config h = (_, refl)
read_other-parsed lib ports_shown o config h = (_, refl)
read_other-parsed lib no_bars o config h = (_, refl)
read_other-parsed lib in_bytes o config h = (_, refl)
read_other-parsed lib processes o config h = (_, refl)
read_other-parsed lib (on_interface s) o config h = (_, refl)
read_other-parsed lib (filter_code s) o config h = (_, refl)
read_other-parsed lib (net_filter s) o config h = (_, refl)
read_other-parsed lib (net_filter6 s) o config h = (_, refl)
read_other-parsed lib (max_rate s) o config h = (_, refl)
read_other-parsed lib (config_path s) o config h = (_, refl)

read_one :
    (lib : CLib) (a : Arg) (o : Options) (config : Settings)
    → goes_on lib a ≡ true
    → Dictionary.IsMap config
    → ReadOne lib a o config
unfolding read_arg
read_one lib a o config h v = elim (Option-cases (arg_setting a)) [
  | inr ((directive, str), e) ↦ set_one lib a o config directive str e v
  | inl e ↦
      let (o', run) = read_other-parsed lib a o config h in
      record {
        options = o';
        settings = config;
        run = rw (read_arg, e) run;
        map = v;
        find = λ q. rw (own_setting, e) refl;
      }
]

-- Reading options of which none ends the program, with nothing left over behind them, returns;
-- each directive then has the value of the last option that sets it, and, if none does, the value
-- that it had. The settings map is not NULL, before and after.
pub options_read_args-find :
    (lib : CLib) (args : List Arg) (o : Options) (config : Settings)
    → all_go_on lib args ≡ true
    → Dictionary.IsMap config
    → (o' : Options) × (config' : Settings) × (options_read_args lib args false o config
        ≡ parsed o' config')
      × Dictionary.IsMap config'
      × ((q : Text)
          → stringmap_find config' q ≡ or_else (last_setting args q) (stringmap_find config q))
unfolding options_read_args
options_read_args-find lib [] o config h v = (o, config, refl, v, λ q. refl)
options_read_args-find lib (a ∷ args) o config h v =
    let one = read_one lib a o config (and_left (goes_on lib a) (all_go_on lib args) h) v in
    let (o', config', run, map, find) =
      options_read_args-find lib args one.options one.settings
        (and_right (goes_on lib a) (all_go_on lib args) h) one.map in
    (
      o',
      config',
      rw (options_read_args, one.run) run,
      map,
      λ q.
          find q
          ∙ rw (one.find q) (
              sym
                (or_else_assoc (last_setting args q) (own_setting a q) (stringmap_find config q))),
    )
  where
    and_left : (a b : Bool) → a && b ≡ true → a ≡ true
    and_left true b e = refl
    and_left false b e = cc

    and_right : (a b : Bool) → a && b ≡ true → b ≡ true
    and_right true b e = e
    and_right false b e = cc
