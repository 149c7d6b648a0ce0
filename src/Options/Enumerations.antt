-- ===== src/Options/Enumerations.antt =====
-- The enumerations of the configuration.
use iftopcolor.Shared.{ℕ, zero, suc, List, [], ◌∷◌}
use iftopcolor.Stringmap.{Text}
use iftopcolor.Options.Defs.{
  OptionPort, OptionSort, OptionLinedisplay, ports_off, ports_src, ports_dest, ports_on, sort_div1,
  sort_div2, sort_div3, sort_src, sort_dest, two_line, one_line_both, one_line_recv, one_line_sent,
}

-- "2s", "10s", "40s", "source" and "destination"
unfoldable pub sort_enumeration : List (Text × ℕ)
sort_enumeration =
    (50 ∷ 115 ∷ [], 0)
    ∷ (49 ∷ 48 ∷ 115 ∷ [], 1)
    ∷ (52 ∷ 48 ∷ 115 ∷ [], 2)
    ∷ (115 ∷ 111 ∷ 117 ∷ 114 ∷ 99 ∷ 101 ∷ [], 3)
    ∷ (100 ∷ 101 ∷ 115 ∷ 116 ∷ 105 ∷ 110 ∷ 97 ∷ 116 ∷ 105 ∷ 111 ∷ 110 ∷ [], 4)
    ∷ []

-- "off", "source-only", "destination-only" and "on"
unfoldable pub showports_enumeration : List (Text × ℕ)
showports_enumeration =
    (111 ∷ 102 ∷ 102 ∷ [], 0)
    ∷ (115 ∷ 111 ∷ 117 ∷ 114 ∷ 99 ∷ 101 ∷ 45 ∷ 111 ∷ 110 ∷ 108 ∷ 121 ∷ [], 1)
    ∷ (
      100 ∷ 101 ∷ 115 ∷ 116 ∷ 105 ∷ 110 ∷ 97 ∷ 116 ∷ 105 ∷ 111 ∷ 110 ∷ 45 ∷ 111 ∷ 110 ∷ 108 ∷ 121
          ∷ [],
      2,
    )
    ∷ (111 ∷ 110 ∷ [], 3)
    ∷ []

-- "two-line", "one-line-both", "one-line-sent" and "one-line-received"
unfoldable pub linedisplay_enumeration : List (Text × ℕ)
linedisplay_enumeration =
    (116 ∷ 119 ∷ 111 ∷ 45 ∷ 108 ∷ 105 ∷ 110 ∷ 101 ∷ [], 0)
    ∷ (111 ∷ 110 ∷ 101 ∷ 45 ∷ 108 ∷ 105 ∷ 110 ∷ 101 ∷ 45 ∷ 98 ∷ 111 ∷ 116 ∷ 104 ∷ [], 1)
    ∷ (111 ∷ 110 ∷ 101 ∷ 45 ∷ 108 ∷ 105 ∷ 110 ∷ 101 ∷ 45 ∷ 115 ∷ 101 ∷ 110 ∷ 116 ∷ [], 3)
    ∷ (
      111 ∷ 110 ∷ 101 ∷ 45 ∷ 108 ∷ 105 ∷ 110 ∷ 101 ∷ 45 ∷ 114 ∷ 101 ∷ 99 ∷ 101 ∷ 105 ∷ 118 ∷ 101
          ∷ 100 ∷ [],
      2,
    )
    ∷ []

-- The numbers of the enumerators, both ways.
unfoldable pub port_number : OptionPort → ℕ
port_number ports_off = 0
port_number ports_src = 1
port_number ports_dest = 2
port_number ports_on = 3

unfoldable pub number_port : ℕ → OptionPort
number_port zero = ports_off
number_port (suc zero) = ports_src
number_port (suc (suc zero)) = ports_dest
number_port (suc (suc (suc n))) = ports_on

unfoldable pub sort_number : OptionSort → ℕ
sort_number sort_div1 = 0
sort_number sort_div2 = 1
sort_number sort_div3 = 2
sort_number sort_src = 3
sort_number sort_dest = 4

unfoldable pub number_sort : ℕ → OptionSort
number_sort zero = sort_div1
number_sort (suc zero) = sort_div2
number_sort (suc (suc zero)) = sort_div3
number_sort (suc (suc (suc zero))) = sort_src
number_sort (suc (suc (suc (suc n)))) = sort_dest

unfoldable pub linedisplay_number : OptionLinedisplay → ℕ
linedisplay_number two_line = 0
linedisplay_number one_line_both = 1
linedisplay_number one_line_recv = 2
linedisplay_number one_line_sent = 3

unfoldable pub number_linedisplay : ℕ → OptionLinedisplay
number_linedisplay zero = two_line
number_linedisplay (suc zero) = one_line_both
number_linedisplay (suc (suc zero)) = one_line_recv
number_linedisplay (suc (suc (suc n))) = one_line_sent
