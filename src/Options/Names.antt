-- ===== src/Options/Names.antt =====
-- The names of the directives, as byte strings.
use iftopcolor.Shared.{[], ◌∷◌}
use iftopcolor.Stringmap.{Text}

-- "interface"
abbrev pub interface_name : Text
interface_name = 105 ∷ 110 ∷ 116 ∷ 101 ∷ 114 ∷ 102 ∷ 97 ∷ 99 ∷ 101 ∷ []

-- "dns-resolution"
abbrev pub dns_resolution_name : Text
dns_resolution_name =
    100 ∷ 110 ∷ 115 ∷ 45 ∷ 114 ∷ 101 ∷ 115 ∷ 111 ∷ 108 ∷ 117 ∷ 116 ∷ 105 ∷ 111 ∷ 110 ∷ []

-- "port-resolution"
abbrev pub port_resolution_name : Text
port_resolution_name =
    112 ∷ 111 ∷ 114 ∷ 116 ∷ 45 ∷ 114 ∷ 101 ∷ 115 ∷ 111 ∷ 108 ∷ 117 ∷ 116 ∷ 105 ∷ 111 ∷ 110 ∷ []

-- "filter-code"
abbrev pub filter_code_name : Text
filter_code_name = 102 ∷ 105 ∷ 108 ∷ 116 ∷ 101 ∷ 114 ∷ 45 ∷ 99 ∷ 111 ∷ 100 ∷ 101 ∷ []

-- "show-bars"
abbrev pub show_bars_name : Text
show_bars_name = 115 ∷ 104 ∷ 111 ∷ 119 ∷ 45 ∷ 98 ∷ 97 ∷ 114 ∷ 115 ∷ []

-- "hide-source"
abbrev pub hide_source_name : Text
hide_source_name = 104 ∷ 105 ∷ 100 ∷ 101 ∷ 45 ∷ 115 ∷ 111 ∷ 117 ∷ 114 ∷ 99 ∷ 101 ∷ []

-- "hide-destination"
abbrev pub hide_destination_name : Text
hide_destination_name =
    104 ∷ 105 ∷ 100 ∷ 101 ∷ 45 ∷ 100 ∷ 101 ∷ 115 ∷ 116 ∷ 105 ∷ 110 ∷ 97 ∷ 116 ∷ 105 ∷ 111 ∷ 110 ∷ []

-- "use-bytes"
abbrev pub use_bytes_name : Text
use_bytes_name = 117 ∷ 115 ∷ 101 ∷ 45 ∷ 98 ∷ 121 ∷ 116 ∷ 101 ∷ 115 ∷ []

-- "sort"
abbrev pub sort_name : Text
sort_name = 115 ∷ 111 ∷ 114 ∷ 116 ∷ []

-- "line-display"
abbrev pub line_display_name : Text
line_display_name = 108 ∷ 105 ∷ 110 ∷ 101 ∷ 45 ∷ 100 ∷ 105 ∷ 115 ∷ 112 ∷ 108 ∷ 97 ∷ 121 ∷ []

-- "show-totals"
abbrev pub show_totals_name : Text
show_totals_name = 115 ∷ 104 ∷ 111 ∷ 119 ∷ 45 ∷ 116 ∷ 111 ∷ 116 ∷ 97 ∷ 108 ∷ 115 ∷ []

-- "log-scale"
abbrev pub log_scale_name : Text
log_scale_name = 108 ∷ 111 ∷ 103 ∷ 45 ∷ 115 ∷ 99 ∷ 97 ∷ 108 ∷ 101 ∷ []

-- "max-bandwidth"
abbrev pub max_bandwidth_name : Text
max_bandwidth_name = 109 ∷ 97 ∷ 120 ∷ 45 ∷ 98 ∷ 97 ∷ 110 ∷ 100 ∷ 119 ∷ 105 ∷ 100 ∷ 116 ∷ 104 ∷ []

-- "port-display"
abbrev pub port_display_name : Text
port_display_name = 112 ∷ 111 ∷ 114 ∷ 116 ∷ 45 ∷ 100 ∷ 105 ∷ 115 ∷ 112 ∷ 108 ∷ 97 ∷ 121 ∷ []

-- "screen-filter"
abbrev pub screen_filter_name : Text
screen_filter_name = 115 ∷ 99 ∷ 114 ∷ 101 ∷ 101 ∷ 110 ∷ 45 ∷ 102 ∷ 105 ∷ 108 ∷ 116 ∷ 101 ∷ 114 ∷ []

-- "link-local"
abbrev pub link_local_name : Text
link_local_name = 108 ∷ 105 ∷ 110 ∷ 107 ∷ 45 ∷ 108 ∷ 111 ∷ 99 ∷ 97 ∷ 108 ∷ []

-- "show-processes"
abbrev pub show_processes_name : Text
show_processes_name =
    115 ∷ 104 ∷ 111 ∷ 119 ∷ 45 ∷ 112 ∷ 114 ∷ 111 ∷ 99 ∷ 101 ∷ 115 ∷ 115 ∷ 101 ∷ 115 ∷ []

-- "true", "false" and "on"
abbrev pub true_text : Text
true_text = 116 ∷ 114 ∷ 117 ∷ 101 ∷ []

abbrev pub false_text : Text
false_text = 102 ∷ 97 ∷ 108 ∷ 115 ∷ 101 ∷ []

abbrev pub on_text : Text
on_text = 111 ∷ 110 ∷ []
