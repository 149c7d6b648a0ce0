-- ===== src/Options/Defs.antt =====
-- `options_t` and its enumerations.
use iftopcolor.Shared.{ℕ, Bool, List, Option}
use iftopcolor.Stringmap.{Text}

-- `option_port_t`
pub data OptionPort : Type 0 where
  ports_off ports_src ports_dest ports_on : OptionPort

-- `option_sort_t`
pub data OptionSort : Type 0 where
  sort_div1 sort_div2 sort_div3 sort_src sort_dest : OptionSort

-- `option_linedisplay_t`
pub data OptionLinedisplay : Type 0 where
  two_line one_line_both one_line_recv one_line_sent : OptionLinedisplay

-- Addresses are their bytes in network order; a NULL string is `none`. `max_bandwidth` is not
-- negative.
pub record Options : Type 0 where
  pub interface : Text
  pub dnsresolution : Bool
  pub portresolution : Bool
  pub filtercode : Option Text
  pub showbars : Bool
  pub showports : OptionPort
  pub promiscuous : Bool
  pub promiscuous_but_choosy : Bool
  pub aggregate_src : Bool
  pub aggregate_dest : Bool
  pub paused : Bool
  pub showhelp : Bool
  pub bandwidth_in_bytes : Bool
  pub sort : OptionSort
  pub bar_interval : ℕ
  pub screenfilter : Option Text
  pub freezeorder : Bool
  pub screen_offset : ℕ
  pub linedisplay : OptionLinedisplay
  pub show_totals : Bool
  pub max_bandwidth : ℕ
  pub log_scale : Bool
  pub netfilter : Bool
  pub netfilternet : List ℕ
  pub netfiltermask : List ℕ
  pub netfilter6 : Bool
  pub netfilter6net : List ℕ
  pub netfilter6mask : List ℕ
  pub link_local : Bool
  pub config_file : Text
  pub config_file_specified : Bool
  pub export_mode : ℕ
  pub export_duration : ℕ
  pub show_processes : Bool
