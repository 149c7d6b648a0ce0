-- ===== src/Options/Args.antt =====
-- options_make and options_read_args.
use iftopcolor.Shared.{ℕ, Bool, true, List, [], ◌∷◌, Option, none, some, ◌==◌, if◌then◌else◌}
use iftopcolor.Stringmap.{Text}
use iftopcolor.Stringmap.Dictionary.{text_eq}
use iftopcolor.ConfigFile.{Settings, config_set_string}
use iftopcolor.Options.Defs.{Options}
use iftopcolor.Options.Defaults.{Interface, get_first_interface, interface_or_eth0}
use iftopcolor.Options.Config.{
  CLib, options_config_get_bool, options_config_get_string, options_config_get_enum,
  options_config_get_promiscuous, options_config_get_bw_rate, options_config_get_net_filter,
  options_config_get_net_filter6, promiscuous_name, net_filter_name, net_filter6_name,
}
use iftopcolor.Options.Enumerations.{
  sort_enumeration, showports_enumeration, linedisplay_enumeration, port_number, number_port,
  sort_number, number_sort, linedisplay_number, number_linedisplay,
}
use iftopcolor.Options.Names.{
  interface_name, dns_resolution_name, port_resolution_name, filter_code_name, show_bars_name,
  hide_source_name, hide_destination_name, use_bytes_name, sort_name, line_display_name,
  show_totals_name, log_scale_name, max_bandwidth_name, port_display_name, screen_filter_name,
  link_local_name, show_processes_name, true_text, false_text, on_text,
}

-- The interface of the configuration, or the first one, or eth0.
unfoldable pub made_interface : List Interface → Settings → Text
made_interface interfaces config = elim (options_config_get_string interface_name none config) [
  | some name ↦ name
  | none ↦ interface_or_eth0 (get_first_interface interfaces)
]

-- The readers before the bandwidth, those after it, and options_make.
unfoldable pub make_first : List Interface → Settings → Options → Options
make_first interfaces config o =
    options_config_get_promiscuous
      (record o {
        interface = made_interface interfaces config;
        dnsresolution = options_config_get_bool dns_resolution_name o.dnsresolution config;
        portresolution = options_config_get_bool port_resolution_name o.portresolution config;
        filtercode = options_config_get_string filter_code_name none config;
        showbars = options_config_get_bool show_bars_name o.showbars config;
        aggregate_src = options_config_get_bool hide_source_name o.aggregate_src config;
        aggregate_dest = options_config_get_bool hide_destination_name o.aggregate_dest config;
        bandwidth_in_bytes = options_config_get_bool use_bytes_name o.bandwidth_in_bytes config;
        sort =
            number_sort
              (options_config_get_enum sort_name sort_enumeration (sort_number o.sort) config);
        linedisplay = number_linedisplay (
            options_config_get_enum line_display_name linedisplay_enumeration
              (linedisplay_number o.linedisplay) config);
        show_totals = options_config_get_bool show_totals_name o.show_totals config;
        log_scale = options_config_get_bool log_scale_name o.log_scale config;
      })
      config

unfoldable pub make_last : Settings → Options → Options
make_last config o = record o {
  showports = number_port (
      options_config_get_enum port_display_name showports_enumeration (port_number o.showports)
        config);
  screenfilter = options_config_get_string screen_filter_name none config;
  link_local = options_config_get_bool link_local_name o.link_local config;
  show_processes = options_config_get_bool show_processes_name o.show_processes config;
}

unfoldable pub options_make : CLib → List Interface → Settings → Options → Options × Settings
options_make lib interfaces config o =
    let (o₁, config₁, got₁) =
      options_config_get_bw_rate lib max_bandwidth_name (make_first interfaces config o) config in
    let (o₂, config₂, got₂) = options_config_get_net_filter lib (make_last config₁ o₁) config₁ in
    let (o₃, config₃, got₃) = options_config_get_net_filter6 lib o₂ config₂ in (o₃, config₃)

-- What `getopt` returns, by the labels of the switch, with the argument where there is one.
pub data Arg : Type 0 where
  help no_dns no_ports link_locals promiscuous_mode ports_shown no_bars in_bytes processes : Arg
  unknown_option missing_argument : Arg
  on_interface filter_code net_filter net_filter6 max_rate config_path export_format : Text → Arg
  export_seconds : Text → Arg

-- What reading an argument comes to: the options and the settings, or the status that the program
-- exits with.
pub data Parsed : Type 0 where
  parsed : Options → Settings → Parsed
  exited : ℕ → Parsed

-- The directive that an option sets, if it sets one.
unfoldable pub arg_setting : Arg → Option (Text × Text)
arg_setting help = none
arg_setting no_dns = some (dns_resolution_name, false_text)
arg_setting no_ports = some (port_resolution_name, false_text)
arg_setting (on_interface s) = some (interface_name, s)
arg_setting (filter_code s) = some (filter_code_name, s)
arg_setting link_locals = some (link_local_name, true_text)
arg_setting promiscuous_mode = some (promiscuous_name, true_text)
arg_setting ports_shown = some (port_display_name, on_text)
arg_setting (net_filter s) = some (net_filter_name, s)
arg_setting (net_filter6 s) = some (net_filter6_name, s)
arg_setting (max_rate s) = some (max_bandwidth_name, s)
arg_setting no_bars = some (show_bars_name, false_text)
arg_setting in_bytes = some (use_bytes_name, true_text)
arg_setting processes = some (show_processes_name, true_text)
arg_setting (config_path s) = none
arg_setting (export_format s) = none
arg_setting (export_seconds s) = none
arg_setting unknown_option = none
arg_setting missing_argument = none

-- "json" and "csv"
abbrev pub json : Text
json = 106 ∷ 115 ∷ 111 ∷ 110 ∷ []

abbrev pub csv : Text
csv = 99 ∷ 115 ∷ 118 ∷ []

-- The cases that set no directive.
unfoldable pub read_other : CLib → Arg → Options → Settings → Parsed
read_other lib help o config = exited 0
read_other lib (config_path s) o config =
    parsed (record o { config_file = s; config_file_specified = true }) config
read_other lib (export_format s) o config =
    if text_eq s json
    then parsed (record o { export_mode = 1 }) config
    else if text_eq s csv
    then parsed (record o { export_mode = 2 }) config
    else exited 1
read_other lib (export_seconds s) o config =
    let n : ℕ = lib.atoi s in
    if n == 0 then exited 1 else parsed (record o { export_duration = n }) config
read_other lib unknown_option o config = exited 1
read_other lib missing_argument o config = exited 1
read_other lib a o config = parsed o config

unfoldable pub read_arg : CLib → Arg → Options → Settings → Parsed
read_arg lib a o config = elim (arg_setting a) [
  | some (directive, str) ↦ parsed o (config_set_string directive str config)
  | none ↦ read_other lib a o config
]

-- The loop, and the test for what is left over behind the options.
unfoldable pub options_read_args : CLib → List Arg → Bool → Options → Settings → Parsed
options_read_args lib [] leftover o config = if leftover then exited 1 else parsed o config
options_read_args lib (a ∷ args) leftover o config = elim (read_arg lib a o config) [
  | exited status ↦ exited status
  | parsed o' config' ↦ options_read_args lib args leftover o' config'
]
