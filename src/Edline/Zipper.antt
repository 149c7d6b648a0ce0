-- ===== src/Edline/Zipper.antt =====
-- The abstract line: the text before the cursor, nearest first, and the text behind it.
use iftopcolor.Shared.{
  ℕ, ◌%◌, Bool, ◌&&◌, not, List, [], ◌∷◌, Option, none, some, ◌==◌, if◌then◌else◌,
}
use iftopcolor.Stringmap.{Text}
use iftopcolor.Edline.Defs.{
  Key, kill_line, left, right, home, end, delete_char, backspace, kill_word, no_key, other,
  ends_edit, accepts_edit,
}

pub record Zipper : Type 0 where
  pub before : Text
  pub behind : Text

-- The text, from the characters before the cursor on.
abbrev pub onto : Text → Text → Text
onto [] behind = behind
onto (c ∷ before) behind = onto before (c ∷ behind)

-- The character under the cursor, 0 at the end.
abbrev pub under : Text → ℕ
under [] = 0
under (c ∷ behind) = c

-- The characters before the cursor that are left when it goes back while what is under it passes.
unfoldable pub left_of : (ℕ → Bool) → Text → Text → Text × Text
left_of passes [] behind = ([], behind)
left_of passes (c ∷ before) behind =
    let rest = left_of passes before (c ∷ behind) in
    if passes (under behind) then rest else (c ∷ before, behind)

module _ (isprint isspace : ℕ → Bool) where
  unfoldable pub step : Key → Zipper → Zipper
  step kill_line z = record { before = []; behind = [] }
  step left z = elim z.before [
    | [] ↦ z
    | c ∷ before ↦ record { before = before; behind = c ∷ z.behind }
  ]
  step right z = elim z.behind [
    | [] ↦ z
    | c ∷ behind ↦ record { before = c ∷ z.before; behind = behind }
  ]
  step home z = record { before = []; behind = onto z.before z.behind }
  step end z = record { before = onto z.behind z.before; behind = [] }
  step delete_char z = elim z.behind [ [] ↦ z | c ∷ behind ↦ record z { behind = behind } ]
  step backspace z = elim z.before [ [] ↦ z | c ∷ before ↦ record z { before = before } ]
  step kill_word z =
      let (before, behind) = left_of isspace z.before z.behind in
      record z { before = (left_of (λ c. not (isspace c)) before behind).0 }
  step no_key z = z
  step (other c) z =
      if isprint c && not (c == 9) then record z { before = (c % 256) ∷ z.before } else z

-- The initial text, with the cursor at its end.
abbrev pub open_zipper : Option Text → Zipper
open_zipper none = record { before = []; behind = [] }
open_zipper (some initial) = record { before = onto initial []; behind = [] }

-- What the editing of a zipper has come to.
pub data Zipped : Type 0 where
  pending : Zipper → Zipped
  done : Option Text → Zipped

module _ (isprint isspace : ℕ → Bool) where
  -- The keys up to the first one that ends the editing, which returns the whole text or nothing.
  unfoldable pub step_loop : List Key → Zipper → Zipped
  step_loop [] z = pending z
  step_loop (k ∷ keys) z =
      let z' = step isprint isspace k z in
      let rest = step_loop keys z' in
      if ends_edit k
      then done (if accepts_edit k then some (onto z'.before z'.behind) else none)
      else rest
