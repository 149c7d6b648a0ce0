-- ===== src/Edline/Refinement.antt =====
-- The buffer and its cursor against the zipper.
use iftopcolor.Shared.{
  ℕ, suc, ◌+◌, ◌-◌, ◌%◌, ◌≤◌, ◌<◌, ◌≡◌, refl, sym, ap, ◌∙◌, Bool, true, false, ◌&&◌, not, List, [],
  ◌∷◌, ◌++◌, Option, none, some, ◌==◌, ltb, length, take, drop, get_or, arith, Bool-cases, inl, inr,
}
use iftopcolor.Stringmap.{Text}
use iftopcolor.Edline.Defs.{
  Key, kill_line, left, right, home, end, delete_char, backspace, kill_word, no_key, other, Line,
  open_line, cut, back_while, word_start, insert_char, edit_key, ends_edit, accepts_edit, Edited,
  waiting, returned, edit_loop, edline,
}
use iftopcolor.Edline.Zipper.{
  Zipper, onto, under, left_of, step, open_zipper, Zipped, pending, done, step_loop,
}
use iftopcolor.Edline.Places.{
  at, at-length, length-onto, onto-append, onto-turned, take-cursor, drop-cursor, cut-cursor,
  get_or-at,
}

-- The buffer shows the zipper's text with the cursor between its parts, and has room for it with the
-- terminating 0.
pub record IsShown (z : Zipper) (l : Line) : Type 0 where
  pub text : l.str ≡ onto z.before z.behind
  pub cursor : l.pos ≡ length z.before
  pub room : length l.str < l.slen

back_while-left_of :
    (passes : ℕ → Bool) (b a : Text)
    → let r = left_of passes b a in
      (back_while passes (onto b a) (length b) ≡ length r.0) × (onto r.0 r.1 ≡ onto b a)
unfolding back_while left_of
back_while-left_of passes [] a = (refl, refl)
back_while-left_of passes (c ∷ b) a = elim (Bool-cases (passes (under a))) [
  | inl e ↦ let (i, t) = back_while-left_of passes b (c ∷ a) in rw (here, e) (i, t)
  | inr e ↦ rw (here, e) (refl, refl)
]
  where
    under-get_or : (a : Text) → get_or a 0 0 ≡ under a
    under-get_or [] = refl
    under-get_or (d ∷ a) = refl

    here : get_or (onto b (c ∷ a)) (suc (length b)) 0 ≡ under a
    here =
        let one : at b 1 ≡ suc (length b) = omega (arith, at-length b 1) in
        rw⁻¹ one (get_or-at b (c ∷ a) 1 ∙ under-get_or a)

left_of-le : (passes : ℕ → Bool) (b a : Text) → length (left_of passes b a).0 ≤ length b
unfolding left_of
left_of-le passes [] a = omega arith
left_of-le passes (c ∷ b) a = elim (Bool-cases (passes (under a))) [
  | inl e ↦ rw e (omega (arith, left_of-le passes b (c ∷ a)))
  | inr e ↦ rw e (omega arith)
]

abbrev line : Text → Text → ℕ → Line
line b a n = record { str = onto b a; pos = length b; slen = n }

abbrev zipper : Text → Text → Zipper
zipper b a = record { before = b; behind = a }

module _ (isprint isspace : ℕ → Bool) (n : ℕ) where
  abbrev After : Key → Text → Text → Type 0
  After k b a =
      length (onto b a) < n
      → IsShown (step isprint isspace k (zipper b a)) (edit_key isprint isspace k (line b a n)).0

  left-After : (b a : Text) → After left b a
  unfolding step edit_key
  left-After [] a room = record { text = refl; cursor = refl; room = room }
  left-After (c ∷ b) a room =
      let ne : suc (length b) == 0 ≡ false = ground arith in
      simp (edit_key, ne) (record { text = refl; cursor = omega arith; room = room })

  right-After : (b a : Text) → After right b a
  unfolding step edit_key
  right-After b [] room =
      let e : ltb (length (onto b [])) (length b + 1) ≡ true = ground (arith, length-onto b []) in
      simp (edit_key, e)
        (record { text = refl; cursor = omega (arith, length-onto b []); room = room })
  right-After b (c ∷ a) room =
      let e : ltb (length (onto b (c ∷ a))) (length b + 1) ≡ false =
        ground (arith, length-onto b (c ∷ a)) in
      simp (edit_key, e) (record { text = refl; cursor = omega arith; room = room })

  end-After : (b a : Text) → After end b a
  unfolding step edit_key
  end-After b a room = record {
    text = sym (onto-turned a b);
    cursor = omega (arith, length-onto b a, length-onto a b);
    room = room;
  }

  delete_char-After : (b a : Text) → After delete_char b a
  unfolding step edit_key
  delete_char-After b [] room =
      let e : length b == length (onto b []) ≡ true = ground (arith, length-onto b []) in
      simp (edit_key, e) (record { text = refl; cursor = refl; room = room })
  delete_char-After b (c ∷ a) room =
      let e : length b == length (onto b (c ∷ a)) ≡ false = ground (arith, length-onto b (c ∷ a)) in
      let less = cut-cursor b (c ∷ a) (length b + 1) a (c ∷ b) (omega arith) refl in
      simp (edit_key, e)
        (record {
          text = less;
          cursor = refl;
          room = rw less (omega (arith, room, length-onto b (c ∷ a), length-onto b a));
        })

  backspace-After : (b a : Text) → After backspace b a
  unfolding step edit_key
  backspace-After [] a room = record { text = refl; cursor = refl; room = room }
  backspace-After (c ∷ b) a room =
      let ne : suc (length b) == 0 ≡ false = ground arith in
      let back : suc (length b) - 1 ≡ length b = omega arith in
      let less = cut-cursor b (c ∷ a) (suc (length b)) a (c ∷ b) refl refl in
      simp (edit_key, ne, back)
        (record {
          text = less;
          cursor = refl;
          room = rw less (omega (arith, room, length-onto b (c ∷ a), length-onto b a));
        })

  kill_word-After : (b a : Text) → After kill_word b a
  unfolding step edit_key word_start
  kill_word-After b a room =
      let (i₁, t₁) = back_while-left_of isspace b a in
      let r₁ = left_of isspace b a in
      let (i₂, t₂) = back_while-left_of (λ c. not (isspace c)) r₁.0 r₁.1 in
      let r₂ = left_of (λ c. not (isspace c)) r₁.0 r₁.1 in
      let start : word_start isspace (onto b a) (length b) ≡ length r₂.0 =
        rw (word_start, i₁) (rw (← t₁) i₂) in
      let less : cut (length r₂.0) (length b) (onto b a) ≡ onto r₂.0 a =
        rw (t₂ ∙ t₁) at (cut-cursor r₂.0 r₂.1 (length b) a b refl (sym (t₂ ∙ t₁))) in
      rw start (record {
        text = less;
        cursor = refl;
        room = rw less (
            omega (
              arith,
              room,
              length-onto b a,
              length-onto r₂.0 a,
              left_of-le isspace b a,
              left_of-le (λ c. not (isspace c)) r₁.0 r₁.1,
            ));
      })

  other-After : (c : ℕ) (b a : Text) → After (other c) b a
  unfolding step edit_key insert_char
  other-After c b a room = elim (Bool-cases (isprint c && not (c == 9))) [
    | inr e ↦ simp (edit_key, step, e) (record { text = refl; cursor = refl; room = room })
    | inl e ↦
        let text : take (length b) (onto b a) ++ (c % 256) ∷ drop (length b) (onto b a)
            ≡ onto b ((c % 256) ∷ a) =
          rw (take-cursor b a, drop-cursor b a) (onto-append b [] ((c % 256) ∷ a)) in
        simp (edit_key, step, insert_char, e)
          (record {
            text = text;
            cursor = omega arith;
            room = rw text (ground (arith, room, length-onto b a, length-onto b ((c % 256) ∷ a)));
          })
  ]

  edit_key-After : (k : Key) (b a : Text) → After k b a
  unfolding step edit_key
  edit_key-After kill_line b a room = record { text = refl; cursor = refl; room = omega arith }
  edit_key-After left b a room = left-After b a room
  edit_key-After right b a room = right-After b a room
  edit_key-After home b a room = record { text = refl; cursor = refl; room = room }
  edit_key-After end b a room = end-After b a room
  edit_key-After delete_char b a room = delete_char-After b a room
  edit_key-After backspace b a room = backspace-After b a room
  edit_key-After kill_word b a room = kill_word-After b a room
  edit_key-After no_key b a room = record { text = refl; cursor = refl; room = room }
  edit_key-After (other c) b a room = other-After c b a room

  -- A line that shows a zipper is made of the zipper's parts.
  made :
      (k : Key) (z : Zipper) (l : Line)
      → l.slen ≡ n
      → IsShown z l
      → IsShown (step isprint isspace k z) (edit_key isprint isspace k l).0
  made k z l same v =
      let e : l ≡ line z.before z.behind n =
        (λ i. record { str = v.text i; pos = v.cursor i; slen = same i }) in
      rw e (edit_key-After k z.before z.behind (rw (same, v.text) at v.room))

-- Both still wait, on the same text and cursor, or both have returned the same.
abbrev pub Agrees : Zipped → Edited → Type 0
Agrees (pending z) (waiting l) = IsShown z l
Agrees (pending z) (returned o) = ⊥
Agrees (done o) (waiting l) = ⊥
Agrees (done o) (returned p) = o ≡ p

module _ (isprint isspace : ℕ → Bool) where
  edit_loop-Agrees :
      (keys : List Key) (z : Zipper) (l : Line)
      → IsShown z l
      → Agrees (step_loop isprint isspace keys z) (edit_loop isprint isspace keys l)
  unfolding step_loop edit_loop
  edit_loop-Agrees [] z l v = v
  edit_loop-Agrees (k ∷ keys) z l v =
      let w = made isprint isspace l.slen k z l refl v in
      elim (Bool-cases (ends_edit k)) [
        | inl e ↦ elim (Bool-cases (accepts_edit k)) [
          | inl f ↦ rw (e, f) (ap some (sym w.text))
          | inr f ↦ rw (e, f) refl
        ]
        | inr e ↦
            rw e
              (edit_loop-Agrees keys (step isprint isspace k z) (edit_key isprint isspace k l).0 w)
      ]

  open_line-IsShown : (initial : Option Text) → IsShown (open_zipper initial) (open_line initial)
  unfolding open_line
  open_line-IsShown none = record { text = refl; cursor = refl; room = omega arith }
  open_line-IsShown (some t) = record {
    text = sym (onto-turned t []);
    cursor = omega (arith, length-onto t []);
    room = omega arith;
  }

  -- From any initial text, or none, and on any keys, edline returns what the editing of a zipper
  -- returns, the text or NULL, at the same key, or still waits with the zipper's text and cursor.
  -- While it waits, the cursor is never behind the end of the text, and the text with its
  -- terminating 0 fits the buffer.
  pub edline-Agrees :
      (initial : Option Text) (keys : List Key)
      → Agrees
          (step_loop isprint isspace keys (open_zipper initial))
          (edline isprint isspace initial keys)
  unfolding edline
  edline-Agrees initial keys =
      edit_loop-Agrees keys (open_zipper initial) (open_line initial) (open_line-IsShown initial)
