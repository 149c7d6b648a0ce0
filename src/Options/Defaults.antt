-- ===== src/Options/Defaults.antt =====
-- options_set_defaults, and the choice of the interface.
use iftopcolor.Shared.{
  Bool, true, false, ◌&&◌, ◌||◌, not, List, [], ◌∷◌, ◌++◌, Option, none, some, ◌==◌, if◌then◌else◌,
}
use iftopcolor.Stringmap.{Text}
use iftopcolor.Stringmap.Dictionary.{text_eq}
use iftopcolor.Options.Defs.{Options, ports_off, sort_div2, two_line}

-- strncmp(name, prefix, strlen(prefix)) == 0
unfoldable pub has_prefix : Text → Text → Bool
has_prefix [] name = true
has_prefix (c ∷ prefix) [] = false
has_prefix (c ∷ prefix) (d ∷ name) = c == d && has_prefix prefix name

unfoldable pub bad_interface_names : List Text
bad_interface_names =
    -- lo:
    (108 ∷ 111 ∷ 58 ∷ [])
    ∷
        -- lo
        (108 ∷ 111 ∷ [])
    ∷
        -- stf
        (115 ∷ 116 ∷ 102 ∷ [])
    ∷
        -- gif
        (103 ∷ 105 ∷ 102 ∷ [])
    ∷
        -- dummy
        (100 ∷ 117 ∷ 109 ∷ 109 ∷ 121 ∷ [])
    ∷
        -- vmnet
        (118 ∷ 109 ∷ 110 ∷ 101 ∷ 116 ∷ [])
    ∷
        -- wmaster
        (119 ∷ 109 ∷ 97 ∷ 115 ∷ 116 ∷ 101 ∷ 114 ∷ [])
    ∷ []

unfoldable pub has_any_prefix : List Text → Text → Bool
has_any_prefix [] name = false
has_any_prefix (p ∷ l) name = has_prefix p name || has_any_prefix l name

unfoldable pub is_bad_interface_name : Text → Bool
is_bad_interface_name name = has_any_prefix bad_interface_names name

-- An entry of `if_nameindex`, and whether its flags say that it is up; they count as such when there is
-- no socket or the `ioctl` fails.
pub record Interface : Type 0 where
  pub if_name : Text
  pub up : Bool

-- `none` is NULL, also for a list that cannot be had.
unfoldable pub get_first_interface : List Interface → Option Text
get_first_interface [] = none
get_first_interface (i ∷ l) =
    let rest = get_first_interface l in
    if not (text_eq i.if_name (108 ∷ 111 ∷ [])) && not (is_bad_interface_name i.if_name) && i.up
    then some i.if_name
    else rest

-- "eth0"
abbrev pub eth0 : Text
eth0 = 101 ∷ 116 ∷ 104 ∷ 48 ∷ []

unfoldable pub interface_or_eth0 : Option Text → Text
interface_or_eth0 none = eth0
interface_or_eth0 (some name) = name

-- "/.iftoprc" behind the home directory, or "iftoprc"
unfoldable pub default_config_file : Option Text → Text
default_config_file (some home) = home ++ 47 ∷ 46 ∷ 105 ∷ 102 ∷ 116 ∷ 111 ∷ 112 ∷ 114 ∷ 99 ∷ []
default_config_file none = 105 ∷ 102 ∷ 116 ∷ 111 ∷ 112 ∷ 114 ∷ 99 ∷ []

-- NEED_PROMISCUOUS_FOR_OUTGOING is the build's choice; the addresses are those of the calls.
unfoldable pub options_set_defaults : Bool → List Interface → Option Text → Options
options_set_defaults need_promiscuous interfaces home = record {
  interface = interface_or_eth0 (get_first_interface interfaces);
  dnsresolution = true;
  portresolution = true;
  filtercode = none;
  showbars = true;
  showports = ports_off;
  promiscuous = need_promiscuous;
  promiscuous_but_choosy = need_promiscuous;
  aggregate_src = false;
  aggregate_dest = false;
  paused = false;
  showhelp = false;
  bandwidth_in_bytes = false;
  sort = sort_div2;
  bar_interval = 1;
  screenfilter = none;
  freezeorder = false;
  screen_offset = 0;
  linedisplay = two_line;
  show_totals = false;
  max_bandwidth = 0;
  log_scale = false;
  netfilter = false;
  netfilternet = 10 ∷ 0 ∷ 1 ∷ 0 ∷ [];
  netfiltermask = 255 ∷ 255 ∷ 255 ∷ 0 ∷ [];
  netfilter6 = false;
  netfilter6net = 254 ∷ 128 ∷ 0 ∷ 0 ∷ 0 ∷ 0 ∷ 0 ∷ 0 ∷ 0 ∷ 0 ∷ 0 ∷ 0 ∷ 0 ∷ 0 ∷ 0 ∷ 0 ∷ [];
  netfilter6mask = 255 ∷ 255 ∷ 0 ∷ 0 ∷ 0 ∷ 0 ∷ 0 ∷ 0 ∷ 0 ∷ 0 ∷ 0 ∷ 0 ∷ 0 ∷ 0 ∷ 0 ∷ 0 ∷ [];
  link_local = false;
  config_file = default_config_file home;
  config_file_specified = false;
  export_mode = 0;
  export_duration = 0;
  show_processes = true;
}
