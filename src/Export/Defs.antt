-- ===== src/Export/Defs.antt =====
-- The names of the protocols and the strings of the JSON output.
use iftopcolor.Shared.{ℕ, [], ◌∷◌, ◌==◌, if◌then◌else◌}
use iftopcolor.Stringmap.{Text}

pub data ProtocolName : Type 0 where
  tcp udp icmp icmpv6 other_protocol : ProtocolName

unfoldable pub protocol_name : ℕ → ProtocolName
protocol_name proto =
    if proto == 6
    then tcp
    else if proto == 17
    then udp
    else if proto == 1
    then icmp
    else if proto == 58
    then icmpv6
    else other_protocol

-- The quotation mark and the backslash.
abbrev pub quote : ℕ
quote = 34

abbrev pub escape : ℕ
escape = 92

-- The loop, and the quotation mark behind it.
unfoldable pub escaped : Text → Text
escaped [] = quote ∷ []
escaped (c ∷ s) =
    if c == quote
    then escape ∷ quote ∷ escaped s
    else if c == escape
    then escape ∷ escape ∷ escaped s
    else c ∷ escaped s

unfoldable pub json_escape_string : Text → Text
json_escape_string s = quote ∷ escaped s
