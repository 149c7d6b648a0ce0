-- ===== src/ConfigFile/Format.antt =====
-- Lines as they are written: a key, a colon, a space and a value.
use iftopcolor.Shared.{ℕ, ◌≡◌, refl, ap, ◌∙◌, Bool, false, [], ◌∷◌, ◌++◌, some, arith, All, ◌==◌}
use iftopcolor.Stringmap.{Text}
use iftopcolor.ConfigFile.Defs.{
  ends_line, is_blank, ends_key, up_to, skip_while, trim_end, behind_colon, split_line,
}

-- A key has no blanks, colons, hashes or newlines, and a value no hashes and newlines, and no blanks
-- at its ends.
abbrev pub IsKey : Text → Type 0
IsKey key = (All (λ c. ends_key c ≡ false) key) × (All (λ c. ends_line c ≡ false) key)

pub record IsValue (value : Text) : Type 0 where
  pub plain : All (λ c. ends_line c ≡ false) value
  pub starts : skip_while is_blank value ≡ value
  pub ends : trim_end is_blank value ≡ value

up_to-append :
    (stop : ℕ → Bool) (a b : Text)
    → All (λ c. stop c ≡ false) a
    → up_to stop (a ++ b) ≡ a ++ up_to stop b
unfolding up_to
up_to-append stop [] b h = refl
up_to-append stop (c ∷ a) b h = rw h.0 (ap (◌∷◌ c) (up_to-append stop a b h.1))

pub up_to-all : (stop : ℕ → Bool) (a : Text) → All (λ c. stop c ≡ false) a → up_to stop a ≡ a
unfolding up_to
up_to-all stop [] h = refl
up_to-all stop (c ∷ a) h = rw h.0 (ap (◌∷◌ c) (up_to-all stop a h.1))

append-nil_text : (a : Text) → a ++ [] ≡ a
append-nil_text [] = refl
append-nil_text (c ∷ a) = ap (◌∷◌ c) (append-nil_text a)

not_colon : (c : ℕ) → ends_key c ≡ false → c == 58 ≡ false
not_colon c h = ground (arith, h)

not_blank : (c : ℕ) → ends_key c ≡ false → is_blank c ≡ false
not_blank c h = ground (arith, h)

behind_colon-key :
    (a s : Text) → All (λ c. ends_key c ≡ false) a → behind_colon (a ++ 58 ∷ s) ≡ some s
unfolding behind_colon
behind_colon-key [] s h = refl
behind_colon-key (c ∷ a) s h = rw (not_colon c h.0) (behind_colon-key a s h.1)

line_kept :
    (key value : Text)
    → IsKey key
    → IsValue value
    → up_to ends_line (key ++ 58 ∷ 32 ∷ value) ≡ key ++ 58 ∷ 32 ∷ value
unfolding up_to
line_kept key value k v =
    up_to-append ends_line key (58 ∷ 32 ∷ value) k.1
    ∙ ap (λ r. key ++ 58 ∷ 32 ∷ r) (up_to-all ends_line value v.plain)

key_found :
    (c : ℕ) (s value : Text)
    → IsKey (c ∷ s)
    → up_to ends_key (skip_while is_blank ((c ∷ s) ++ 58 ∷ 32 ∷ value)) ≡ c ∷ s
unfolding up_to skip_while
key_found c s value k =
    rw (not_blank c k.0.0)
      (up_to-append ends_key (c ∷ s) (58 ∷ 32 ∷ value) k.0 ∙ append-nil_text (c ∷ s))

-- A line written as a key, a colon, a space and a value is read as that key and value, if the key
-- is not empty and has no blanks, colons, hashes or newlines, and the value has no hashes and
-- newlines and no blanks at its ends.
pub split_line-formatted :
    (c : ℕ) (s value : Text)
    → IsKey (c ∷ s)
    → IsValue value
    → split_line ((c ∷ s) ++ 58 ∷ 32 ∷ value) ≡ some (c ∷ s, value)
unfolding split_line
split_line-formatted c s value k v =
    rw
      (
        split_line,
        line_kept (c ∷ s) value k v,
        behind_colon-key (c ∷ s) (32 ∷ value) k.0,
        line_kept (c ∷ s) value k v,
        key_found c s value k,
      )
      (ap (λ r. some (c ∷ s, r)) trimmed)
  where
    trimmed : trim_end is_blank (skip_while is_blank (32 ∷ value)) ≡ value
    trimmed = unfold skip_while in rw (v.starts, v.ends) refl
