-- ===== src/ConfigFile/Defs.antt =====
-- The definitions of src/config/cfgfile.c.
use iftopcolor.Shared.{
  ℕ, Bool, true, false, ◌||◌, List, [], ◌∷◌, ◌++◌, Option, none, some, ◌==◌, if◌then◌else◌,
}
use iftopcolor.Stringmap.{
  Text, Stringmap, stringmap_new, stringmap_find, stringmap_insert, stringmap_assign,
}
use iftopcolor.Stringmap.Dictionary.{text_eq}

abbrev pub Settings : Type 0
Settings = Stringmap Text

unfoldable pub config_directives : List Text
config_directives =
    -- interface
    (105 ∷ 110 ∷ 116 ∷ 101 ∷ 114 ∷ 102 ∷ 97 ∷ 99 ∷ 101 ∷ [])
    ∷
        -- dns-resolution
        (100 ∷ 110 ∷ 115 ∷ 45 ∷ 114 ∷ 101 ∷ 115 ∷ 111 ∷ 108 ∷ 117 ∷ 116 ∷ 105 ∷ 111 ∷ 110 ∷ [])
    ∷
        -- port-resolution
        (112 ∷ 111 ∷ 114 ∷ 116 ∷ 45 ∷ 114 ∷ 101 ∷ 115 ∷ 111 ∷ 108 ∷ 117 ∷ 116 ∷ 105 ∷ 111 ∷ 110
        ∷ [])
    ∷
        -- filter-code
        (102 ∷ 105 ∷ 108 ∷ 116 ∷ 101 ∷ 114 ∷ 45 ∷ 99 ∷ 111 ∷ 100 ∷ 101 ∷ [])
    ∷
        -- show-bars
        (115 ∷ 104 ∷ 111 ∷ 119 ∷ 45 ∷ 98 ∷ 97 ∷ 114 ∷ 115 ∷ [])
    ∷
        -- promiscuous
        (112 ∷ 114 ∷ 111 ∷ 109 ∷ 105 ∷ 115 ∷ 99 ∷ 117 ∷ 111 ∷ 117 ∷ 115 ∷ [])
    ∷
        -- hide-source
        (104 ∷ 105 ∷ 100 ∷ 101 ∷ 45 ∷ 115 ∷ 111 ∷ 117 ∷ 114 ∷ 99 ∷ 101 ∷ [])
    ∷
        -- hide-destination
        (104 ∷ 105 ∷ 100 ∷ 101 ∷ 45 ∷ 100 ∷ 101 ∷ 115 ∷ 116 ∷ 105 ∷ 110 ∷ 97 ∷ 116 ∷ 105 ∷ 111 ∷ 110
        ∷ [])
    ∷
        -- use-bytes
        (117 ∷ 115 ∷ 101 ∷ 45 ∷ 98 ∷ 121 ∷ 116 ∷ 101 ∷ 115 ∷ [])
    ∷
        -- sort
        (115 ∷ 111 ∷ 114 ∷ 116 ∷ [])
    ∷
        -- line-display
        (108 ∷ 105 ∷ 110 ∷ 101 ∷ 45 ∷ 100 ∷ 105 ∷ 115 ∷ 112 ∷ 108 ∷ 97 ∷ 121 ∷ [])
    ∷
        -- show-totals
        (115 ∷ 104 ∷ 111 ∷ 119 ∷ 45 ∷ 116 ∷ 111 ∷ 116 ∷ 97 ∷ 108 ∷ 115 ∷ [])
    ∷
        -- log-scale
        (108 ∷ 111 ∷ 103 ∷ 45 ∷ 115 ∷ 99 ∷ 97 ∷ 108 ∷ 101 ∷ [])
    ∷
        -- max-bandwidth
        (109 ∷ 97 ∷ 120 ∷ 45 ∷ 98 ∷ 97 ∷ 110 ∷ 100 ∷ 119 ∷ 105 ∷ 100 ∷ 116 ∷ 104 ∷ [])
    ∷
        -- net-filter
        (110 ∷ 101 ∷ 116 ∷ 45 ∷ 102 ∷ 105 ∷ 108 ∷ 116 ∷ 101 ∷ 114 ∷ [])
    ∷
        -- net-filter6
        (110 ∷ 101 ∷ 116 ∷ 45 ∷ 102 ∷ 105 ∷ 108 ∷ 116 ∷ 101 ∷ 114 ∷ 54 ∷ [])
    ∷
        -- link-local
        (108 ∷ 105 ∷ 110 ∷ 107 ∷ 45 ∷ 108 ∷ 111 ∷ 99 ∷ 97 ∷ 108 ∷ [])
    ∷
        -- port-display
        (112 ∷ 111 ∷ 114 ∷ 116 ∷ 45 ∷ 100 ∷ 105 ∷ 115 ∷ 112 ∷ 108 ∷ 97 ∷ 121 ∷ [])
    ∷
        -- show-processes
        (115 ∷ 104 ∷ 111 ∷ 119 ∷ 45 ∷ 112 ∷ 114 ∷ 111 ∷ 99 ∷ 101 ∷ 115 ∷ 115 ∷ 101 ∷ 115 ∷ [])
    ∷ []

unfoldable pub is_one_of : List Text → Text → Bool
is_one_of [] directive = false
is_one_of (d ∷ l) directive = text_eq directive d || is_one_of l directive

unfoldable pub is_cfgdirective_valid : Text → Bool
is_cfgdirective_valid directive = is_one_of config_directives directive

unfoldable pub config_init : Settings
config_init = stringmap_new

-- The bytes of the tests: newline, backslash, `#`, `:`, space and tab.
abbrev pub newline : ℕ
newline = 10

abbrev pub backslash : ℕ
backslash = 92

abbrev pub ends_line : ℕ → Bool
ends_line c = c == 35 || c == newline

abbrev pub is_blank : ℕ → Bool
is_blank c = c == 32 || c == 9

abbrev pub ends_key : ℕ → Bool
ends_key c = is_blank c || c == 58

-- strpbrk and strcspn: what stands before the first byte that passes
unfoldable pub up_to : (ℕ → Bool) → Text → Text
up_to stop [] = []
up_to stop (c ∷ s) = if stop c then [] else c ∷ up_to stop s

-- strspn
unfoldable pub skip_while : (ℕ → Bool) → Text → Text
skip_while skipped [] = []
skip_while skipped (c ∷ s) = if skipped c then skip_while skipped s else c ∷ s

-- The bytes up to the last one that does not pass
unfoldable pub trim_end : (ℕ → Bool) → Text → Text
trim_end cut [] = []
trim_end cut (c ∷ s) = elim (trim_end cut s) [
  | [] ↦ if cut c then [] else c ∷ []
  | d ∷ r ↦ c ∷ d ∷ r
]

-- The loop that cuts newlines off, which keeps the first byte
unfoldable pub chomp : Text → Text
chomp [] = []
chomp (c ∷ s) = c ∷ trim_end (λ d. d == newline) s

-- strchr(line, ':') + 1
unfoldable pub behind_colon : Text → Option Text
behind_colon [] = none
behind_colon (c ∷ s) = if c == 58 then some s else behind_colon s

-- The line without the backslash that ends it, if one does.
unfoldable pub continued : Text → Option Text
continued [] = none
continued (c ∷ []) = if c == backslash then some [] else none
continued (c ∷ d ∷ s) = elim (continued (d ∷ s)) [ none ↦ none | some r ↦ some (c ∷ r) ]

-- The lines, with their continuations, from a line and the pieces behind it.
unfoldable pub joined : Text → List Text → List Text
joined line [] = line ∷ []
joined line (piece ∷ pieces) = elim (continued line) [
  | some start ↦ joined (chomp (start ++ piece)) pieces
  | none ↦ line ∷ joined (chomp piece) pieces
]

unfoldable pub lines_of : List Text → List Text
lines_of [] = []
lines_of (piece ∷ pieces) = joined (chomp piece) pieces

-- A line's key and value, if it has both a colon and a key.
unfoldable pub split_line : Text → Option (Text × Text)
split_line raw =
    let line = up_to ends_line raw in
    let key = up_to ends_key (skip_while is_blank line) in
    elim (behind_colon line) [
      | none ↦ none
      | some value ↦ elim key [
        | [] ↦ none
        | c ∷ s ↦ some (c ∷ s, trim_end is_blank (skip_while is_blank value))
      ]
    ]

-- The directive of a line, if it is a known one.
unfoldable pub setting : Text → Option (Text × Text)
setting line = elim (split_line line) [
  | none ↦ none
  | some (key, value) ↦ if is_cfgdirective_valid key then some (key, value) else none
]

unfoldable pub read_line : Text → Settings → Settings
read_line line config = elim (setting line) [
  | none ↦ config
  | some (key, value) ↦ (stringmap_insert config key value).0
]

unfoldable pub read_lines : List Text → Settings → Settings
read_lines [] config = config
read_lines (line ∷ lines) config = read_lines lines (read_line line config)

-- read_config_file, on the pieces that `fgets` returns; `none` is a file that cannot be opened.
unfoldable pub read_config_file : Option (List Text) → Settings → Settings × Bool
read_config_file none config = (config, false)
read_config_file (some pieces) config = (read_lines (lines_of pieces) config, true)

-- The results 1, 0 and -1 of the typed lookups.
pub data Number (V : Type 0) : Type 0 where
  parsed : V → Number V
  missing : Number V
  malformed : Number V

-- config_get_int and config_get_float, with strtol or strtod: the value, what is left of the text, and
-- whether the value is out of range.
unfoldable pub config_get_number :
    {V : Type 0} → (Text → V × Text × Bool) → Text → Settings → Number V
config_get_number strto directive config = elim (stringmap_find config directive) [
  | none ↦ missing
  | some [] ↦ malformed
  | some (c ∷ s) ↦
      let (v, left, range) = strto (c ∷ s) in
      elim left [ [] ↦ if range then malformed else parsed v | d ∷ r ↦ malformed ]
]

unfoldable pub config_get_string : Text → Settings → Option Text
config_get_string directive config = stringmap_find config directive

-- "yes" and "true"
unfoldable pub config_get_bool : Text → Settings → Bool
config_get_bool directive config = elim (config_get_string directive config) [
  | none ↦ false
  | some s ↦ text_eq s (121 ∷ 101 ∷ 115 ∷ []) || text_eq s (116 ∷ 114 ∷ 117 ∷ 101 ∷ [])
]

unfoldable pub enum_value : List (Text × ℕ) → Text → Option ℕ
enum_value [] s = none
enum_value ((name, v) ∷ l) s = if text_eq s name then some v else enum_value l s

-- `none` is the result 0.
unfoldable pub config_get_enum : Text → List (Text × ℕ) → Settings → Option ℕ
config_get_enum directive enumeration config = elim (config_get_string directive config) [
  | none ↦ none
  | some s ↦ enum_value enumeration s
]

unfoldable pub config_set_string : Text → Text → Settings → Settings
config_set_string directive str config = elim (stringmap_find config directive) [
  | some entry ↦ stringmap_assign config directive str
  | none ↦ (stringmap_insert config directive str).0
]
