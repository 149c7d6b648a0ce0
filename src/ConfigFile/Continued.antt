-- ===== src/ConfigFile/Continued.antt =====
-- A file whose lines go on behind a backslash.
use iftopcolor.Shared.{◌≡◌, Bool, true, false, List, [], ◌∷◌, ◌++◌, All, ◌==◌}
use iftopcolor.Stringmap.{Text}
use iftopcolor.Stringmap.Dictionary
use iftopcolor.ConfigFile.Defs.{chomp, joined}

-- A line in parts: each but the last goes on in the next one.
pub record Parted : Type 0 where
  pub parts : List Text
  pub last : Text

-- The pieces of a line in the file, each with its newline, and with a backslash if it goes on.
abbrev pub pieces_of : List Text → Text → List Text
pieces_of [] last = (last ++ 10 ∷ []) ∷ []
pieces_of (p ∷ parts) last = (p ++ 92 ∷ 10 ∷ []) ∷ pieces_of parts last

-- The line that is meant.
abbrev pub text_of : List Text → Text → Text
text_of [] last = last
text_of (p ∷ parts) last = p ++ text_of parts last

abbrev pub file_of : List Parted → List Text
file_of [] = []
file_of (l ∷ lines) = pieces_of l.parts l.last ++ file_of lines

abbrev pub texts_of : List Parted → List Text
texts_of [] = []
texts_of (l ∷ lines) = text_of l.parts l.last ∷ texts_of lines

abbrev pub IsPlain : Text → Type 0
IsPlain = All (λ c. c == 10 ≡ false)

abbrev pub is_empty_text : Text → Bool
is_empty_text [] = true
is_empty_text (c ∷ s) = false

-- Does a text end with a backslash?
abbrev pub goes_on : Text → Bool
goes_on [] = false
goes_on (c ∷ []) = c == 92
goes_on (c ∷ d ∷ s) = goes_on (d ∷ s)

-- The parts have no newlines, and the line is not empty and does not end with a backslash.
pub record IsParted (l : Parted) : Type 0 where
  pub plain : All IsPlain l.parts
  pub plain_last : IsPlain l.last
  pub some_byte : is_empty_text (text_of l.parts l.last) ≡ false
  pub ended : goes_on (text_of l.parts l.last) ≡ false

-- The lines from the first piece on, with what stands in the buffer.
abbrev entered : Text → List Text → List Text
entered start [] = []
entered start (piece ∷ pieces) = joined (chomp (start ++ piece)) pieces
