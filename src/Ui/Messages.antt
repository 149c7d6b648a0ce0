-- ===== src/Ui/Messages.antt =====
-- The texts of the help line.
use iftopcolor.Stringmap.{Text}

-- The texts that are shown.
pub data Message : Type 0 where
  dns_resolution_off dns_resolution_on port_resolution_off port_resolution_on : Message
  bars_off bars_on bars_2s bars_10s bars_40s : Message
  show_source hide_source show_dest hide_dest : Message
  port_display_on port_display_off port_display_dest port_display_source : Message
  display_paused display_unpaused order_frozen order_unfrozen : Message
  sort_by_col_1 sort_by_col_2 sort_by_col_3 sort_by_source sort_by_dest : Message
  two_lines sent_only received_only one_line : Message
  installed_filter invalid_regexp show_cumulative hide_cumulative : Message
  logarithmic linear process_on process_off press_h : Message
  filter_error : Text → Message
