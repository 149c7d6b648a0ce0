-- ===== src/ConfigFile/Precedence.antt =====
-- Which setting wins when a key is set more than once.
use iftopcolor.Shared.{
  ◌≡◌, refl, ap, ◌∙◌, sym, true, List, [], ◌∷◌, Option, none, some, arith, if◌then◌else◌,
  Bool-cases, Option-cases, inl, inr,
}
use iftopcolor.Stringmap.{Text, stringmap_find}
use iftopcolor.Stringmap.Dictionary
use iftopcolor.Stringmap.Dictionary.{
  text_eq, or_else, kept, stringmap_insert-find, stringmap_assign-find,
}
use iftopcolor.Stringmap.Order.{strcmp-eq}
use iftopcolor.ConfigFile.Defs.{
  Settings, setting, read_line, read_lines, config_set_string, lines_of, read_config_file,
}

-- The value of the first line that sets a key.
unfoldable pub first_setting : Text → List Text → Option Text
first_setting q [] = none
first_setting q (line ∷ lines) = elim (setting line) [
  | none ↦ first_setting q lines
  | some (key, value) ↦ if text_eq q key then some value else first_setting q lines
]

text_eq-same : (a b : Text) → text_eq a b ≡ true → a ≡ b
text_eq-same a b e = ground (arith, strcmp-eq a b)

or_else_assoc : (a b c : Option Text) → or_else (or_else a b) c ≡ or_else a (or_else b c)
or_else_assoc none b c = refl
or_else_assoc (some x) b c = refl

-- The effect of one line on a lookup, before the lines that follow.
read_line-find :
    (q line : Text) (config : Settings) (later : Option Text)
    → Dictionary.IsMap config
    → Dictionary.IsMap (read_line line config)
      × (or_else (stringmap_find (read_line line config) q) later
          ≡ or_else (stringmap_find config q) (elim (setting line) [
            | none ↦ later
            | some (key, value) ↦ if text_eq q key then some value else later
          ]))
unfolding read_line
read_line-find q line config later v = elim (Option-cases (setting line)) [
  | inl e ↦ rw (read_line, e) (v, refl)
  | inr ((key, value), e) ↦
      let found = stringmap_insert-find config key q value v in
      rw (read_line, e) (found.0, ap (λ o. or_else o later) found.2 ∙ settle key value)
]
  where
    settle :
        (key value : Text)
        → or_else
            (if text_eq q key
              then or_else (stringmap_find config key) (some value)
              else stringmap_find config q)
            later
          ≡ or_else (stringmap_find config q) (if text_eq q key then some value else later)
    settle key value = elim (Bool-cases (text_eq q key)) [
      | inl f ↦ rw f (
          or_else_assoc (stringmap_find config key) (some value) later
          ∙ ap (λ k. or_else (stringmap_find config k) (some value)) (sym (text_eq-same q key f)))
      | inr f ↦ rw f refl
    ]

or_else-none : (a : Option Text) → or_else a none ≡ a
or_else-none none = refl
or_else-none (some x) = refl

pub read_lines-find :
    (lines : List Text) (config : Settings) (q : Text)
    → Dictionary.IsMap config
    → Dictionary.IsMap (read_lines lines config)
      × (stringmap_find (read_lines lines config) q
          ≡ or_else (stringmap_find config q) (first_setting q lines))
unfolding read_lines first_setting
read_lines-find [] config q v = (v, sym (or_else-none (stringmap_find config q)))
read_lines-find (line ∷ lines) config q v =
    let step = read_line-find q line config (first_setting q lines) v in
    let rest = read_lines-find lines (read_line line config) q step.0 in (rest.0, rest.1 ∙ step.1)

-- After config_set_string on a settings map that is not NULL the directive has the new value,
-- whether or not it had one, and every other key what it had.
pub config_set_string-find :
    (directive str q : Text) (config : Settings)
    → Dictionary.IsMap config
    → stringmap_find (config_set_string directive str config) q
      ≡ (if text_eq q directive then some str else stringmap_find config q)
unfolding config_set_string
config_set_string-find directive str q config v =
    elim (Option-cases (stringmap_find config directive)) [
      | inl e ↦
          rw (config_set_string, e) ((stringmap_insert-find config directive q str v).2 ∙ rw e refl)
      | inr (entry, e) ↦
          rw (config_set_string, e) (stringmap_assign-find config directive q str ∙ rw e refl)
    ]

-- Reading a file into a settings map that is not NULL answers 1; afterwards a key has the value
-- it had before, and if it had none, the value of the first line of the file that sets it to a
-- known directive, continuation lines joined; the map is still not NULL.
pub read_config_file-find :
    (pieces : List Text) (config : Settings) (q : Text)
    → Dictionary.IsMap config
    → let r = read_config_file (some pieces) config in
      (r.1 ≡ true)
      × Dictionary.IsMap r.0
      × (stringmap_find r.0 q
          ≡ or_else (stringmap_find config q) (first_setting q (lines_of pieces)))
unfolding read_config_file
read_config_file-find pieces config q v =
    let r = read_lines-find (lines_of pieces) config q v in (refl, r.0, r.1)
