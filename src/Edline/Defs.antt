-- ===== src/Edline/Defs.antt =====
-- The loop of `edline`.
use iftopcolor.Shared.{
  ℕ, zero, suc, ◌+◌, ◌-◌, ◌*◌, ◌%◌, Bool, true, false, ◌&&◌, ◌||◌, not, List, [], ◌∷◌, ◌++◌, Option,
  none, some, ◌==◌, if◌then◌else◌, ltb, length, take, drop, get_or,
}
use iftopcolor.Stringmap.{Text}

-- What `getch` returns, by the labels of the switch: KEY_DL and ^U, KEY_LEFT, KEY_RIGHT, KEY_HOME and
-- ^A, KEY_END and ^E, KEY_DC, KEY_BACKSPACE, ^W, ERR, and every other code.
pub data Key : Type 0 where
  kill_line left right home end delete_char backspace kill_word no_key : Key
  other : ℕ → Key

-- KEY_ENTER of curses
abbrev pub key_enter : ℕ
key_enter = 343

-- `str` up to its terminating 0, the cursor, and the size of the buffer.
pub record Line : Type 0 where
  pub str : Text
  pub pos : ℕ
  pub slen : ℕ

-- The buffer, with the initial text if there is one.
unfoldable pub open_line : Option Text → Line
open_line none = record { str = []; pos = 0; slen = 256 }
open_line (some initial) = record {
  str = initial;
  pos = length initial;
  slen = length initial * 2 + 1;
}

-- memmove of what stands behind `b` to `a`.
unfoldable pub cut : ℕ → ℕ → Text → Text
cut a b str = take a str ++ drop b str

-- A loop that goes back while the byte under the cursor passes.
unfoldable pub back_while : (ℕ → Bool) → Text → ℕ → ℕ
back_while passes str zero = zero
back_while passes str (suc i) =
    let rest = back_while passes str i in if passes (get_or str (suc i) 0) then rest else suc i

-- The two loops of ^W.
unfoldable pub word_start : (ℕ → Bool) → Text → ℕ → ℕ
word_start isspace str pos = back_while (λ c. not (isspace c)) str (back_while isspace str pos)

-- A printing character at the cursor, in a buffer that is doubled when it is full.
unfoldable pub insert_char : ℕ → Line → Line
insert_char c l = record {
  str = take l.pos l.str ++ (c % 256) ∷ drop l.pos l.str;
  pos = l.pos + 1;
  slen = if length l.str == l.slen - 1 then l.slen * 2 else l.slen;
}

-- KEY_ENTER, a carriage return, escape and ^G end the loop.
unfoldable pub ends_edit : Key → Bool
ends_edit (other c) = c == key_enter || c == 13 || c == 27 || c == 7
ends_edit kill_line = false
ends_edit left = false
ends_edit right = false
ends_edit home = false
ends_edit end = false
ends_edit delete_char = false
ends_edit backspace = false
ends_edit kill_word = false
ends_edit no_key = false

unfoldable pub accepts_edit : Key → Bool
accepts_edit (other c) = c == key_enter || c == 13
accepts_edit kill_line = false
accepts_edit left = false
accepts_edit right = false
accepts_edit home = false
accepts_edit end = false
accepts_edit delete_char = false
accepts_edit backspace = false
accepts_edit kill_word = false
accepts_edit no_key = false

-- What `edline` has come to: still waiting for a key, or returned with the text or NULL.
pub data Edited : Type 0 where
  waiting : Line → Edited
  returned : Option Text → Edited

module _ (isprint isspace : ℕ → Bool) where
  -- The switch: the line, and whether it beeps.
  unfoldable pub edit_key : Key → Line → Line × Bool
  edit_key kill_line l = (record l { str = []; pos = 0 }, false)
  edit_key left l = if l.pos == 0 then (l, true) else (record l { pos = l.pos - 1 }, false)
  edit_key right l =
      if ltb (length l.str) (l.pos + 1)
      then (record l { pos = length l.str }, true)
      else (record l { pos = l.pos + 1 }, false)
  edit_key home l = (record l { pos = 0 }, false)
  edit_key end l = (record l { pos = length l.str }, false)
  edit_key delete_char l =
      if l.pos == length l.str
      then (l, true)
      else (record l { str = cut l.pos (l.pos + 1) l.str }, false)
  edit_key backspace l =
      if l.pos == 0
      then (l, true)
      else (record l { str = cut (l.pos - 1) l.pos l.str; pos = l.pos - 1 }, false)
  edit_key kill_word l =
      let i = word_start isspace l.str l.pos in
      (record l { str = cut i l.pos l.str; pos = i }, false)
  edit_key no_key l = (l, false)
  edit_key (other c) l = if isprint c && not (c == 9) then (insert_char c l, false) else (l, true)

  -- The loop, on the keys that come.
  unfoldable pub edit_loop : List Key → Line → Edited
  edit_loop [] l = waiting l
  edit_loop (k ∷ keys) l =
      let l' = (edit_key k l).0 in
      let rest = edit_loop keys l' in
      if ends_edit k then returned (if accepts_edit k then some l'.str else none) else rest

  unfoldable pub edline : Option Text → List Key → Edited
  edline initial keys = edit_loop keys (open_line initial)

-- `off`: what is left out of the text at the left, on a screen of `cols` columns behind a prompt that
-- ends at `xstart`. `pos > COLS - xstart - 1` is written with sums.
unfoldable pub window_off : ℕ → ℕ → ℕ → ℕ
window_off cols xstart pos = if ltb cols (pos + xstart + 1) then pos + xstart + 1 - cols else 0
