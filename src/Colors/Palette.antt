-- ===== src/Colors/Palette.antt =====
-- The colours of src/ui/ui.c by their names, apart from the code that reads them.
use iftopcolor.Shared.{ℕ, ◌+◌, ◌≡◌, refl, List, [], ◌∷◌, ◌&&◌, arith, if◌then◌else◌, ltb, codes}
use iftopcolor.Stringmap.{Text}
use iftopcolor.Stringmap.Dictionary.{text_eq}
use iftopcolor.Colors.Defs.{convert_color_to_int, pair_or, tolower, lower}

-- A text with its capital letters, 65 to 90, made small.
abbrev pub in_lower_case : Text → Text
in_lower_case [] = []
in_lower_case (c ∷ s) = (if ltb 64 c && ltb c 91 then c + 32 else c) ∷ in_lower_case s

-- The names of the colours, and the pairs that curses was given for them.
abbrev pub palette : List (Text × ℕ)
palette =
    (codes "green", 4)
    ∷ (codes "red", 5)
    ∷ (codes "blue", 6)
    ∷ (codes "yellow", 7)
    ∷ (codes "magenta", 8)
    ∷ (codes "cyan", 9)
    ∷ (codes "black", 10)
    ∷ (codes "white", 11)
    ∷ []

-- The pair of a name, or, of a name that is not there, the old one.
abbrev pub pair_of : Text → List (Text × ℕ) → ℕ → ℕ
pair_of name [] old = old
pair_of name ((known, pair) ∷ pairs) old =
    if text_eq name known then pair else pair_of name pairs old

pub lower-in_lower_case : (s : Text) → lower s ≡ in_lower_case s
unfolding tolower
lower-in_lower_case [] = refl
lower-in_lower_case (c ∷ s) = rw (lower-in_lower_case s) (ground arith)

pub pair_or-palette :
    (name : Text) (old : ℕ) → pair_or (convert_color_to_int name) old ≡ pair_of name palette old
unfolding convert_color_to_int
pair_or-palette name old = ground arith
