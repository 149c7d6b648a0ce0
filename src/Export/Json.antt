-- ===== src/Export/Json.antt =====
-- The strings against a reader of JSON strings.
use iftopcolor.Shared.{
  ℕ, ◌≤◌, ◌≡◌, refl, true, false, Bool, ◌||◌, [], ◌∷◌, ◌++◌, Option, none, some, ◌==◌, ltb,
  if◌then◌else◌, Bool-cases, inl, inr, arith, ==_iff, All,
}
use iftopcolor.Stringmap.{Text}
use iftopcolor.Export.Defs.{quote, escape, escaped, json_escape_string}

-- A reader of a JSON string, without the escapes that stand for control characters and for code
-- points: the text and what follows its end. A control character in the string is refused.
abbrev pub with_char : ℕ → Option (Text × Text) → Option (Text × Text)
with_char c none = none
with_char c (some (t, left)) = some (c ∷ t, left)

-- The Boolean says whether a backslash stands in front.
unfoldable pub read_chars : Bool → Text → Option (Text × Text)
read_chars behind [] = none
read_chars true (c ∷ s) =
    let plain = with_char c (read_chars false s) in
    if c == quote || c == escape || c == 47 then plain else none
read_chars false (c ∷ s) =
    let plain = with_char c (read_chars false s) in
    let after = read_chars true s in
    if c == quote
    then some ([], s)
    else if c == escape
    then after
    else if ltb c 32
    then none
    else plain

unfoldable pub read_string : Text → Option (Text × Text)
read_string [] = none
read_string (c ∷ s) = let rest = read_chars false s in if c == quote then rest else none

read_chars-escaped :
    (s rest : Text) → All (λ c. 32 ≤ c) s → read_chars false (escaped s ++ rest) ≡ some (s, rest)
unfolding read_chars escaped
read_chars-escaped [] rest h = refl
read_chars-escaped (c ∷ s) rest (h, later) = elim (Bool-cases (c == quote)) [
  | inl e ↦
      let same : c ≡ quote = (==_iff c quote).0 e in
      rw same (rw (read_chars-escaped s rest later) refl)
  | inr e ↦ elim (Bool-cases (c == escape)) [
    | inl f ↦
        let same : c ≡ escape = (==_iff c escape).0 f in
        rw same (rw (read_chars-escaped s rest later) refl)
    | inr f ↦
        let printed : ltb c 32 ≡ false = ground (arith, h) in
        rw (escaped, e, f) (rw (read_chars, e, f, printed, read_chars-escaped s rest later) refl)
  ]
]

-- A text without control characters, written by json_escape_string, is read by a reader of JSON
-- strings as that text, whatever follows it, and the reader stops right behind it.
pub read_string-json_escape_string :
    (s rest : Text)
    → All (λ c. 32 ≤ c) s
    → read_string (json_escape_string s ++ rest) ≡ some (s, rest)
unfolding read_string json_escape_string
read_string-json_escape_string s rest h = read_chars-escaped s rest h
