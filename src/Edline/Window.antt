-- ===== src/Edline/Window.antt =====
-- The part of the line that is visible.
use iftopcolor.Shared.{ℕ, ◌+◌, ◌-◌, ◌≤◌, ◌<◌, Bool-cases, inl, inr, arith, ltb}
use iftopcolor.Edline.Defs.{window_off}

-- If the prompt ends on the screen, the text is shown from a place that is not behind the cursor,
-- and the cursor stands behind the prompt and in a column of the screen.
pub window_off-cursor :
    (cols xstart pos : ℕ)
    → xstart < cols
    → (window_off cols xstart pos ≤ pos)
      × (xstart ≤ xstart + pos - window_off cols xstart pos)
      × (xstart + pos - window_off cols xstart pos < cols)
unfolding window_off
window_off-cursor cols xstart pos h = elim (Bool-cases (ltb cols (pos + xstart + 1))) [
  | inl e ↦ rw e (ground (arith, h, e), ground (arith, h, e), ground (arith, h, e))
  | inr e ↦ rw e (ground (arith, h, e), ground (arith, h, e), ground (arith, h, e))
]

-- If the prompt fills the screen, the text is shown from a place behind the cursor.
pub window_off-past : (cols xstart pos : ℕ) → cols ≤ xstart → pos < window_off cols xstart pos
unfolding window_off
window_off-past cols xstart pos h = ground (arith, h)
