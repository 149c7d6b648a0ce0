-- ===== src/Tests/Configs.antt =====
-- The configuration file at two lines: `sort: 10s` and `sort: 2s`.
use iftopcolor.Shared.{◌≡◌, refl, List, [], ◌∷◌, ◌++◌, some}
use iftopcolor.Stringmap.{Text}
use iftopcolor.Stringmap.Dictionary
use iftopcolor.Stringmap.Dictionary.{text_eq}
use iftopcolor.ConfigFile.{split_line, skip_while, trim_end}
use iftopcolor.ConfigFile.Continued.{Parted}
use iftopcolor.Shared.{codes}
use iftopcolor.ConfigFile.Format.{split_line-formatted, IsValue}

abbrev sort : Text
sort = 115 ∷ 111 ∷ 114 ∷ 116 ∷ []

abbrev pieces : List Text
pieces =
    (115 ∷ 111 ∷ 114 ∷ 116 ∷ 58 ∷ 32 ∷ 49 ∷ 48 ∷ 115 ∷ 10 ∷ [])
    ∷ (115 ∷ 111 ∷ 114 ∷ 116 ∷ 58 ∷ 32 ∷ 50 ∷ 115 ∷ 10 ∷ [])
    ∷ []

-- A line in two parts, and one in one part.
abbrev two_lines : List Parted
two_lines =
    record { parts = codes "sort: " ∷ []; last = codes "10s" }
    ∷ record { parts = []; last = codes "sort: 2s" }
    ∷ []

ten_seconds-IsValue : IsValue (49 ∷ 48 ∷ 115 ∷ [])
unfolding skip_while trim_end
ten_seconds-IsValue = record { plain = (refl, (refl, (refl, tt))); starts = refl; ends = refl }

split_line-formatted_example :
    split_line (sort ++ 58 ∷ 32 ∷ 49 ∷ 48 ∷ 115 ∷ []) ≡ some (sort, 49 ∷ 48 ∷ 115 ∷ [])
split_line-formatted_example =
    split_line-formatted 115 (111 ∷ 114 ∷ 116 ∷ []) (49 ∷ 48 ∷ 115 ∷ [])
      ((refl, (refl, (refl, (refl, tt)))), (refl, (refl, (refl, (refl, tt))))) ten_seconds-IsValue
