-- ===== src/Export/Output.antt =====
-- What export_print writes, by the printfs of src/ui/export.c.
use iftopcolor.Shared.{ℕ, Bool, true, false, List, [], ◌∷◌, ◌++◌, ◌==◌, if◌then◌else◌, codes}
use iftopcolor.Stringmap.{Text}
use iftopcolor.Options.{Options}
use iftopcolor.Screen.{HostPairLine, Rates}
use iftopcolor.Print.{print_decimal}
use iftopcolor.Export.Defs.{
  ProtocolName, tcp, udp, icmp, icmpv6, other_protocol, protocol_name, json_escape_string,
}

-- A piece of the output: what stands in a format, a `%s`, the conversion of a number, and a call of
-- json_escape_string.
pub data Piece : Type 0 where
  lit : Text → Piece
  text : Text → Piece
  number : Text → Piece
  escape_string : Text → Piece

unfoldable pub text_of : Piece → Text
text_of (lit s) = s
text_of (text s) = s
text_of (number s) = s
text_of (escape_string s) = json_escape_string s

unfoldable pub printed : List Piece → Text
printed [] = []
printed (p ∷ pieces) = text_of p ++ printed pieces

-- "%.0Lf", "%d" of an int by its word, and inet_ntop.
pub record Conversions (V : Type 0) : Type 0 where
  pub long_double : V → Text
  pub int : ℕ → Text
  pub inet_ntop : ℕ → List ℕ → Text

-- The globals that are printed, with the time as strftime writes it.
pub record Report (V : Type 0) : Type 0 where
  pub timebuf : Text
  pub lines : List (HostPairLine V)
  pub totals_sent : Rates V
  pub totals_recv : Rates V
  pub peaksent : ℕ
  pub peakrecv : ℕ
  pub total_sent : ℕ
  pub total_recv : ℕ

unfoldable pub protocol_text : ProtocolName → Text
protocol_text tcp = codes "TCP"
protocol_text udp = codes "UDP"
protocol_text icmp = codes "ICMP"
protocol_text icmpv6 = codes "ICMPv6"
protocol_text other_protocol = codes "OTHER"

abbrev pub protocol_of : {V : Type 0} → HostPairLine V → Text
protocol_of l = protocol_text (protocol_name l.ap.protocol)

module _ {V : Type 0} (conv : Conversions V) (opts : Options) where
  abbrev pub source : HostPairLine V → Text
  source l = conv.inet_ntop l.ap.address_family l.ap.src

  abbrev pub destination : HostPairLine V → Text
  destination l = conv.inet_ntop l.ap.address_family l.ap.dst

  unfoldable pub json_head : HostPairLine V → List Piece
  json_head l =
      lit (codes "    {\n")
      ∷ lit (codes "      \"source\": \"")
      ∷ text (source l)
      ∷ lit (codes "\",\n")
      ∷ lit (codes "      \"source_port\": ")
      ∷ number (print_decimal l.ap.src_port)
      ∷ lit (codes ",\n")
      ∷ lit (codes "      \"destination\": \"")
      ∷ text (destination l)
      ∷ lit (codes "\",\n")
      ∷ lit (codes "      \"destination_port\": ")
      ∷ number (print_decimal l.ap.dst_port)
      ∷ lit (codes ",\n")
      ∷ lit (codes "      \"protocol\": \"")
      ∷ text (protocol_of l)
      ∷ lit (codes "\",\n")
      ∷ []

  unfoldable pub json_process : HostPairLine V → List Piece
  json_process l =
      lit (codes "      \"pid\": ")
      ∷ number (conv.int l.pid)
      ∷ lit (codes ",\n")
      ∷ lit (codes "      \"process_name\": ")
      ∷ escape_string l.process_name
      ∷ lit (codes ",\n")
      ∷ []

  -- The six rates, which a line and the totals print alike, each with the blanks before it.
  unfoldable pub json_rates : Text → Rates V → Rates V → List Piece
  json_rates blanks sent recv =
      lit blanks
      ∷ lit (codes "\"sent_2s\": ")
      ∷ number (conv.long_double sent.div0)
      ∷ lit (codes ",\n")
      ∷ lit blanks
      ∷ lit (codes "\"sent_10s\": ")
      ∷ number (conv.long_double sent.div1)
      ∷ lit (codes ",\n")
      ∷ lit blanks
      ∷ lit (codes "\"sent_40s\": ")
      ∷ number (conv.long_double sent.div2)
      ∷ lit (codes ",\n")
      ∷ lit blanks
      ∷ lit (codes "\"recv_2s\": ")
      ∷ number (conv.long_double recv.div0)
      ∷ lit (codes ",\n")
      ∷ lit blanks
      ∷ lit (codes "\"recv_10s\": ")
      ∷ number (conv.long_double recv.div1)
      ∷ lit (codes ",\n")
      ∷ lit blanks
      ∷ lit (codes "\"recv_40s\": ")
      ∷ number (conv.long_double recv.div2)
      ∷ lit (codes ",\n")
      ∷ []

  unfoldable pub json_sums : HostPairLine V → List Piece
  json_sums l =
      lit (codes "      \"total_sent\": ")
      ∷ number (print_decimal l.total_sent)
      ∷ lit (codes ",\n")
      ∷ lit (codes "      \"total_recv\": ")
      ∷ number (print_decimal l.total_recv)
      ∷ lit (codes "\n")
      ∷ lit (codes "    }")
      ∷ []

  -- One round of the loop over the lines, without the comma.
  unfoldable pub json_line : HostPairLine V → List Piece → List Piece
  json_line l after =
      json_head l
      ++ ((if opts.show_processes then json_process l else [])
          ++ (json_rates (codes "      ") l.sent l.recv ++ (json_sums l ++ after)))

  -- The loop, with the flag `first`.
  unfoldable pub json_lines : Bool → List (HostPairLine V) → List Piece → List Piece
  json_lines first [] after = after
  json_lines first (l ∷ lines) after =
      (if first then [] else lit (codes ",\n") ∷ []) ++ json_line l (json_lines false lines after)

  unfoldable pub json_totals : Report V → List Piece
  json_totals r =
      lit (codes "\n  ],\n")
        ∷ lit (codes "  \"totals\": {\n")
        ∷ json_rates (codes "    ") r.totals_sent r.totals_recv
      ++ lit (codes "    \"cumulative_sent\": ")
        ∷ number (print_decimal r.total_sent)
        ∷ lit (codes ",\n")
        ∷ lit (codes "    \"cumulative_recv\": ")
        ∷ number (print_decimal r.total_recv)
        ∷ lit (codes ",\n")
        ∷ lit (codes "    \"peak_sent\": ")
        ∷ number (conv.int r.peaksent)
        ∷ lit (codes ",\n")
        ∷ lit (codes "    \"peak_recv\": ")
        ∷ number (conv.int r.peakrecv)
        ∷ lit (codes "\n")
        ∷ lit (codes "  }\n")
        ∷ lit (codes "}\n")
        ∷ []

  unfoldable pub export_print_json : Report V → List Piece
  export_print_json r =
      lit (codes "{\n")
      ∷ lit (codes "  \"timestamp\": \"")
      ∷ text r.timebuf
      ∷ lit (codes "\",\n")
      ∷ lit (codes "  \"interface\": ")
      ∷ escape_string opts.interface
      ∷ lit (codes ",\n")
      ∷ lit (codes "  \"flows\": [\n")
      ∷ json_lines true r.lines (json_totals r)

  unfoldable pub csv_header : List Piece
  csv_header =
      lit (codes "timestamp,source,source_port,destination,destination_port,protocol,")
      ∷ ((if opts.show_processes then lit (codes "pid,process_name,") ∷ [] else [])
          ++ lit
              (codes "sent_2s,sent_10s,sent_40s,recv_2s,recv_10s,recv_40s,total_sent,total_recv\n")
            ∷ [])

  -- The last printf of a line.
  unfoldable pub csv_rates : HostPairLine V → List Piece
  csv_rates l =
      number (conv.long_double l.sent.div0)
      ∷ lit (codes ",")
      ∷ number (conv.long_double l.sent.div1)
      ∷ lit (codes ",")
      ∷ number (conv.long_double l.sent.div2)
      ∷ lit (codes ",")
      ∷ number (conv.long_double l.recv.div0)
      ∷ lit (codes ",")
      ∷ number (conv.long_double l.recv.div1)
      ∷ lit (codes ",")
      ∷ number (conv.long_double l.recv.div2)
      ∷ lit (codes ",")
      ∷ number (print_decimal l.total_sent)
      ∷ lit (codes ",")
      ∷ number (print_decimal l.total_recv)
      ∷ lit (codes "\n")
      ∷ []

  unfoldable pub csv_line : Text → HostPairLine V → List Piece
  csv_line timebuf l =
      text timebuf
      ∷ lit (codes ",")
      ∷ text (source l)
      ∷ lit (codes ",")
      ∷ number (print_decimal l.ap.src_port)
      ∷ lit (codes ",")
      ∷ text (destination l)
      ∷ lit (codes ",")
      ∷ number (print_decimal l.ap.dst_port)
      ∷ lit (codes ",")
      ∷ text (protocol_of l)
      ∷ lit (codes ",")
      ∷ ((if opts.show_processes
            then number (conv.int l.pid)
              ∷ lit (codes ",")
              ∷ text l.process_name
              ∷ lit (codes ",")
              ∷ []
            else [])
          ++ csv_rates l)

  unfoldable pub csv_lines : Text → List (HostPairLine V) → List Piece
  csv_lines timebuf [] = []
  csv_lines timebuf (l ∷ lines) = csv_line timebuf l ++ csv_lines timebuf lines

  -- export_print_csv, with `csv_header_printed`.
  unfoldable pub export_print_csv : Report V → Bool → List Piece × Bool
  export_print_csv r header_printed =
      ((if header_printed then [] else csv_header) ++ csv_lines r.timebuf r.lines, true)

  unfoldable pub export_print : Report V → Bool → List Piece × Bool
  export_print r header_printed =
      if opts.export_mode == 1
      then (export_print_json r, header_printed)
      else if opts.export_mode == 2
      then export_print_csv r header_printed
      else ([], header_printed)
