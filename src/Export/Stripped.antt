-- ===== src/Export/Stripped.antt =====
-- The white space of the output, outside of its strings.
use iftopcolor.Shared.{
  ℕ, ◌≡◌, refl, ap, ◌∙◌, Bool, false, ◌||◌, List, [], ◌∷◌, ◌++◌, arith, ◌==◌, if◌then◌else◌, All,
  Bool-cases, inl, inr,
}
use iftopcolor.Stringmap.{Text}
use iftopcolor.Export.Defs.{quote, escape, escaped, json_escape_string}
use iftopcolor.Export.Output.{Piece, lit, text, number, escape_string, text_of, printed}

-- Where a reader of the output stands: outside of a string, in one, or in one behind a backslash.
pub data Mode : Type 0 where
  outside inside behind_escape : Mode

abbrev pub is_white : ℕ → Bool
is_white c = c == 32 || c == 10

-- The mode behind a byte.
abbrev pub after : Mode → ℕ → Mode
after outside c = if c == quote then inside else outside
after inside c = if c == quote then outside else if c == escape then behind_escape else inside
after behind_escape c = inside

abbrev pub drops : Mode → ℕ → Bool
drops outside c = is_white c
drops inside c = false
drops behind_escape c = false

-- A text without the white space that stands outside of its strings.
unfoldable pub stripped : Mode → Text → Text
stripped m [] = []
stripped m (c ∷ s) = let rest = stripped (after m c) s in if drops m c then rest else c ∷ rest

-- A text that a string takes as it is, and one that stands outside of strings.
abbrev pub IsSimple : Text → Type 0
IsSimple s = All (λ c. c == quote || c == escape ≡ false) s

abbrev pub IsBare : Text → Type 0
IsBare s = All (λ c. c == quote || is_white c ≡ false) s

stripped-simple : (s k : Text) → IsSimple s → stripped inside (s ++ k) ≡ s ++ stripped inside k
unfolding stripped
stripped-simple [] k h = refl
stripped-simple (c ∷ s) k h = ground (arith, h.0, stripped-simple s k h.1)

stripped-bare : (s k : Text) → IsBare s → stripped outside (s ++ k) ≡ s ++ stripped outside k
unfolding stripped
stripped-bare [] k h = refl
stripped-bare (c ∷ s) k h = ground (arith, h.0, stripped-bare s k h.1)

stripped-escaped : (s k : Text) → stripped inside (escaped s ++ k) ≡ escaped s ++ stripped outside k
unfolding stripped escaped
stripped-escaped [] k = refl
stripped-escaped (c ∷ s) k = ground (arith, stripped-escaped s k)

stripped-json_escape_string :
    (s k : Text)
    → stripped outside (json_escape_string s ++ k) ≡ json_escape_string s ++ stripped outside k
unfolding stripped json_escape_string
stripped-json_escape_string s k = ap (◌∷◌ quote) (stripped-escaped s k)

unfoldable pub mode_after : Mode → Text → Mode
mode_after m [] = m
mode_after m (c ∷ s) = mode_after (after m c) s

stripped-append :
    (m : Mode) (a b : Text) → stripped m (a ++ b) ≡ stripped m a ++ stripped (mode_after m a) b
unfolding stripped mode_after
stripped-append m [] b = refl
stripped-append m (c ∷ a) b = elim (Bool-cases (drops m c)) [
  | inl e ↦ rw e (stripped-append (after m c) a b)
  | inr e ↦ rw e (ap (◌∷◌ c) (stripped-append (after m c) a b))
]

-- The pieces of an output, stripped one by one.
unfoldable pub stripped_pieces : Mode → List Piece → Text
unfolding stripped mode_after
stripped_pieces m [] = []
stripped_pieces m (lit s ∷ pieces) = stripped m s ++ stripped_pieces (mode_after m s) pieces
stripped_pieces m (text s ∷ pieces) = s ++ stripped_pieces m pieces
stripped_pieces m (number s ∷ pieces) = s ++ stripped_pieces m pieces
stripped_pieces m (escape_string s ∷ pieces) = json_escape_string s ++ stripped_pieces m pieces

-- Texts stand in strings, numbers and strings of their own outside of them.
unfoldable pub IsPlaced : Mode → List Piece → Type 0
unfolding mode_after
IsPlaced m [] = Unit {0}
IsPlaced m (lit s ∷ pieces) = IsPlaced (mode_after m s) pieces
IsPlaced m (text s ∷ pieces) = (m ≡ inside) × (IsSimple s × IsPlaced m pieces)
IsPlaced m (number s ∷ pieces) = (m ≡ outside) × (IsBare s × IsPlaced m pieces)
IsPlaced m (escape_string s ∷ pieces) = (m ≡ outside) × IsPlaced m pieces

pub stripped-printed :
    (m : Mode) (pieces : List Piece)
    → IsPlaced m pieces
    → stripped m (printed pieces) ≡ stripped_pieces m pieces
unfolding printed text_of stripped_pieces IsPlaced
stripped-printed m [] h = unfold stripped in refl
stripped-printed m (lit s ∷ pieces) h =
    stripped-append m s (printed pieces)
    ∙ ap (◌++◌ (stripped m s)) (stripped-printed (mode_after m s) pieces h)
stripped-printed m (text s ∷ pieces) h = rw h.0 (
    stripped-simple s (printed pieces) h.1.0
    ∙ ap (◌++◌ s) (stripped-printed inside pieces (rw h.0 at h.1.1)))
stripped-printed m (number s ∷ pieces) h = rw h.0 (
    stripped-bare s (printed pieces) h.1.0
    ∙ ap (◌++◌ s) (stripped-printed outside pieces (rw h.0 at h.1.1)))
stripped-printed m (escape_string s ∷ pieces) h = rw h.0 (
    stripped-json_escape_string s (printed pieces)
    ∙ ap (◌++◌ (json_escape_string s)) (stripped-printed outside pieces (rw h.0 at h.1)))
