-- ===== src/Options/Config.antt =====
-- The options that the configuration sets: options_make and what it calls.
use iftopcolor.Shared.{
  ℕ, ◌+◌, ◌-◌, ◌*◌, ◌/◌, ◌%◌, ◌^◌, Bool, true, false, ◌&&◌, ◌||◌, not, List, [], ◌∷◌, ◌++◌, Option,
  none, some, ◌==◌, ltb, leb, if◌then◌else◌, replicate, drop,
}
use iftopcolor.Stringmap.{Text, stringmap_assign}
use iftopcolor.ConfigFile.{
  Settings, config_get_string, config_get_bool, config_get_enum, up_to, skip_while,
}
use iftopcolor.Packet.{masked}
use iftopcolor.Options.Defs.{Options}

-- The C library's inet_aton and inet_pton(AF_INET6), with the bytes of the address; atoi, with 0 for a
-- negative result; and the value of a variable that nothing was assigned to.
pub record CLib : Type 0 where
  pub inet_aton : Text → Option (List ℕ)
  pub inet_pton6 : Text → Option (List ℕ)
  pub atoi : Text → ℕ
  pub unassigned : ℕ

abbrev pub is_digit : ℕ → Bool
is_digit c = leb 48 c && leb c 57

-- sscanf with %lld, on digits alone; values beyond a long long are left out.
unfoldable pub decimal : ℕ → Text → ℕ
decimal n [] = n
decimal n (c ∷ s) = decimal (n * 10 + (c - 48)) s

-- The results of the readers: the options, the settings, whose strings the readers cut, and whether
-- the result is 1.
abbrev pub Reading : Type 0
Reading = Options × Settings × Bool

-- options_config_get_bool: the value, if the directive is there.
unfoldable pub options_config_get_bool : Text → Bool → Settings → Bool
options_config_get_bool name old config = elim (config_get_string name config) [
  | none ↦ old
  | some s ↦ config_get_bool name config
]

unfoldable pub options_config_get_string : Text → Option Text → Settings → Option Text
options_config_get_string name old config = elim (config_get_string name config) [
  | none ↦ old
  | some s ↦ some s
]

unfoldable pub options_config_get_enum : Text → List (Text × ℕ) → ℕ → Settings → ℕ
options_config_get_enum name enumeration old config = elim (config_get_string name config) [
  | none ↦ old
  | some s ↦ elim (config_get_enum name enumeration config) [ none ↦ old | some v ↦ v ]
]

-- "promiscuous"
abbrev pub promiscuous_name : Text
promiscuous_name = 112 ∷ 114 ∷ 111 ∷ 109 ∷ 105 ∷ 115 ∷ 99 ∷ 117 ∷ 111 ∷ 117 ∷ 115 ∷ []

unfoldable pub options_config_get_promiscuous : Options → Settings → Options
options_config_get_promiscuous o config = elim (config_get_string promiscuous_name config) [
  | none ↦ o
  | some s ↦
      let asked = config_get_bool promiscuous_name config in
      record o {
        promiscuous = asked;
        promiscuous_but_choosy = if asked then false else o.promiscuous_but_choosy;
      }
]

-- The factor of a unit: k, m and g, each also as a capital, and b; `none` is an invalid one.
unfoldable pub unit_factor : Text → Option ℕ
unit_factor [] = some 1
unit_factor (c ∷ []) =
    if c == 107 || c == 75
    then some 1024
    else if c == 109 || c == 77
    then some (1024 * 1024)
    else if c == 103 || c == 71
    then some (1024 * 1024 * 1024)
    else if c == 98 || c == 66
    then some 1
    else none
unit_factor (c ∷ d ∷ s) = none

-- options_config_get_bw_rate. Without a digit `sscanf` fails, and the value is what was there.
unfoldable pub options_config_get_bw_rate : CLib → Text → Options → Settings → Reading
options_config_get_bw_rate lib directive o config = elim (config_get_string directive config) [
  | none ↦ (o, config, false)
  | some s ↦
      let digits = up_to (λ c. not (is_digit c)) s in
      elim (unit_factor (skip_while is_digit s)) [
        | none ↦ (o, config, false)
        | some mult ↦
            let value : ℕ = elim digits [ [] ↦ lib.unassigned | c ∷ d ↦ decimal 0 (c ∷ d) ] in
            (
              record o { max_bandwidth = value * mult },
              stringmap_assign config directive digits,
              true,
            )
      ]
]

-- The text before and behind the first `/`, if there is one.
unfoldable pub split_mask : Text → Option (Text × Text)
split_mask [] = none
split_mask (c ∷ s) =
    let rest = split_mask s in
    if c == 47
    then some ([], s)
    else elim rest [ none ↦ none | some (net, mask) ↦ some (c ∷ net, mask) ]

abbrev pub all_digits : Text → Bool
all_digits [] = true
all_digits (c ∷ s) = is_digit c && all_digits s

-- htonl
abbrev pub big_endian : ℕ → List ℕ
big_endian n = n / 2 ^ 24 ∷ n / 2 ^ 16 % 256 ∷ n / 2 ^ 8 % 256 ∷ n % 256 ∷ []

-- htonl(~(0xffffffff >> prefix_len)), or all ones
unfoldable pub prefix_mask : ℕ → List ℕ
prefix_mask prefix_len =
    if prefix_len == 32
    then big_endian 0xffffffff
    else big_endian (0xffffffff - 0xffffffff / 2 ^ prefix_len)

-- The mask that is read: whether the filter is on, and the mask. `none` returns 0.
unfoldable pub read_mask : CLib → Text → List ℕ → Option (List ℕ)
read_mask lib mask old =
    if all_digits mask
    then some (let n = lib.atoi mask in if ltb 32 n then old else prefix_mask n)
    else lib.inet_aton mask

-- "net-filter"
abbrev pub net_filter_name : Text
net_filter_name = 110 ∷ 101 ∷ 116 ∷ 45 ∷ 102 ∷ 105 ∷ 108 ∷ 116 ∷ 101 ∷ 114 ∷ []

unfoldable pub options_config_get_net_filter : CLib → Options → Settings → Reading
options_config_get_net_filter lib o config = elim (config_get_string net_filter_name config) [
  | none ↦ (o, config, false)
  | some s ↦
      let off : Options = record o { netfilter = false } in
      elim (split_mask s) [
        | none ↦ (off, config, false)
        | some (net, mask) ↦
            let cut = stringmap_assign config net_filter_name net in
            elim (lib.inet_aton net) [
              | none ↦ (off, cut, false)
              | some addr ↦ elim (read_mask lib mask o.netfiltermask) [
                | none ↦ (record off { netfilternet = addr }, cut, false)
                | some m ↦ (
                  record o { netfilter = true; netfilternet = masked addr m; netfiltermask = m },
                  cut,
                  true,
                )
              ]
            ]
      ]
]

-- The bytes of a prefix: the full ones, then the partial one, over what was there.
unfoldable pub prefix_mask6 : ℕ → List ℕ → List ℕ
prefix_mask6 prefix_len old =
    let full_bytes : ℕ = prefix_len / 8 in
    let remainder : ℕ = prefix_len % 8 in
    replicate full_bytes 255
    ++ (if ltb 0 remainder
        then (255 * 2 ^ (8 - remainder) % 256) ∷ drop (full_bytes + 1) old
        else drop full_bytes old)

-- The mask, and whether the filter is on. `none` returns 0.
unfoldable pub read_mask6 : CLib → Text → List ℕ → Option (List ℕ × Bool)
read_mask6 lib mask old =
    if all_digits mask
    then (let n = lib.atoi mask in
        if ltb 128 n || ltb n 1 then some (old, false) else some (prefix_mask6 n old, true))
    else elim (lib.inet_pton6 mask) [ none ↦ none | some m ↦ some (m, true) ]

-- "net-filter6"
abbrev pub net_filter6_name : Text
net_filter6_name = 110 ∷ 101 ∷ 116 ∷ 45 ∷ 102 ∷ 105 ∷ 108 ∷ 116 ∷ 101 ∷ 114 ∷ 54 ∷ []

unfoldable pub options_config_get_net_filter6 : CLib → Options → Settings → Reading
options_config_get_net_filter6 lib o config = elim (config_get_string net_filter6_name config) [
  | none ↦ (o, config, false)
  | some s ↦
      let off : Options = record o { netfilter6 = false } in
      elim (split_mask s) [
        | none ↦ (off, config, false)
        | some (net, mask) ↦
            let cut = stringmap_assign config net_filter6_name net in
            elim (lib.inet_pton6 net) [
              | none ↦ (off, cut, false)
              | some addr ↦ elim (read_mask6 lib mask o.netfilter6mask) [
                | none ↦ (record off { netfilter6net = addr }, cut, false)
                | some (m, on) ↦ (
                  record o { netfilter6 = on; netfilter6net = masked addr m; netfilter6mask = m },
                  cut,
                  true,
                )
              ]
            ]
      ]
]
