-- ===== src/Screen/Windows.antt =====
-- What a division's number is made of.
use iftopcolor.Shared.{
  ℕ, zero, suc, ◌-◌, ◌%◌, ◌+◌, ◌≤◌, ◌<◌, ◌≡◌, refl, ◌∙◌, List, [], ◌∷◌, get_or, range, map, count,
  count-range, to_nat, ltb, ◌==◌, arith,
}
use iftopcolor.History.{history_length}
use iftopcolor.Screen.Defs.{Num, Rates, hist_idx, history_divs, add_slots, accumulate}

module _ {V : Type 0} (num : Num V) where
  -- A number with some slots of a history added to it, in turn.
  abbrev pub add_up : ℕ → List ℕ → List ℕ → V → V
  add_up pos bytes [] v = v
  add_up pos bytes (i ∷ slots) v =
      add_up pos bytes slots (num.add v (num.of_long (get_or bytes ((40 + pos - i) % 40) 0)))

  -- The three loops add to each division the newest `history_divs` slots of a history, from the
  -- newest one back, each once: the last 2, 10 and 40 slots behind the position, modulo 40.
  pub accumulate-add_up :
      (pos : ℕ) (bytes : List ℕ) (r : Rates V)
      → accumulate num pos bytes r ≡ record {
        div0 = add_up pos bytes (range 0 history_divs.div0) r.div0;
        div1 = add_up pos bytes (range 0 history_divs.div1) r.div1;
        div2 = add_up pos bytes (range 0 history_divs.div2) r.div2;
      }
  unfolding accumulate add_slots range
  accumulate-add_up pos bytes r = refl

-- The slots are those of a window of the ring, each once.
hist_idx_iff :
    (pos a i : ℕ)
    → pos < history_length
    → a < history_length
    → i < history_length
    → hist_idx pos i == a ≡ (i == hist_idx pos a)
hist_idx_iff pos a i h k l = ground arith

count-hist_idx :
    (pos a s n : ℕ)
    → pos < history_length
    → a < history_length
    → s + n ≤ history_length
    → count a (map (hist_idx pos) (range s n)) ≡ count (hist_idx pos a) (range s n)
unfolding range
count-hist_idx pos a s zero h k l = refl
count-hist_idx pos a s (suc n) h k l =
    rw (hist_idx_iff pos a s h k (omega arith), count-hist_idx pos a (suc s) n h k (omega arith))
      refl

-- Where the rotation is `k` steps behind a slot.
abbrev pub advance : ℕ → ℕ → ℕ
advance zero a = a
advance (suc k) a = (advance k a + 1) % 40

advance-sum : (k a : ℕ) → a < 40 → advance k a ≡ (a + k) % 40
advance-sum zero a lt = omega arith
advance-sum (suc k) a lt = omega (arith, advance-sum k a lt)

count-window :
    (pos a n : ℕ)
    → pos < history_length
    → a < history_length
    → n ≤ history_length
    → count a (map (hist_idx pos) (range 0 n)) ≡ to_nat (ltb (hist_idx pos a) n)
count-window pos a n h k l =
    count-hist_idx pos a 0 n h k (omega arith) ∙ count-range (hist_idx pos a) 0 n ∙ ground arith

-- Behind a position below 40, the rotation gets from the `i`-th newest slot to the position in
-- `i` steps, and from no other slot. The slot from which it gets there in `i` steps is one of the
-- `n` newest slots, at most 40, exactly if `i` is less than `n`, and it is there once.
pub hist_idx-window :
    (pos a n i : ℕ)
    → pos < history_length
    → a < history_length
    → n ≤ history_length
    → i < history_length
    → advance i a ≡ pos
    → (advance i (hist_idx pos i) ≡ pos)
      × (a ≡ hist_idx pos i)
      × (count a (map (hist_idx pos) (range 0 n)) ≡ to_nat (ltb i n))
hist_idx-window pos a n i h k l m e =
    let same : hist_idx pos a ≡ i = omega (arith, advance-sum i a k, e) in
    (
      omega (arith, advance-sum i (hist_idx pos i) (omega arith)),
      omega (arith, advance-sum i a k, e),
      count-window pos a n h k l ∙ rw same refl,
    )
