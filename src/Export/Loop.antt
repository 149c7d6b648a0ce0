-- ===== src/Export/Loop.antt =====
-- The loop of src/ui/export.c that prints until it is told to end, or until its time is over.
use iftopcolor.Shared.{
  ℕ, ◌+◌, ◌-◌, ◌≡◌, Bool, true, false, ◌&&◌, ◌||◌, not, ◌==◌, List, [], ◌∷◌, ◌++◌, arith, ltb, leb,
  if◌then◌else◌, length, All,
}
use iftopcolor.Options.{Options}

-- A round's `foad` and its time.
pub record Round : Type 0 where
  pub foad : Bool
  pub now : ℕ

unfoldable pub time_over : Options → ℕ → ℕ → Bool
time_over opts start now = ltb 0 opts.export_duration && leb opts.export_duration (now - start)

-- How often tick is called, and whether the loop has ended. A clock behind its start counts as 0.
unfoldable pub export_loop : Options → ℕ → List Round → ℕ → ℕ × Bool
export_loop opts start [] ticks = (ticks, false)
export_loop opts start (r ∷ rounds) ticks =
    let go_on = export_loop opts start rounds (ticks + 1) in
    if r.foad then (ticks, true) else if time_over opts start r.now then (ticks, true) else go_on

-- A round at which the loop ends, by the signal or, with a duration that is not 0, because that many
-- seconds have passed since the start.
unfoldable pub ends_at : Options → ℕ → Round → Bool
ends_at opts start r =
    r.foad || not (opts.export_duration == 0) && leb (start + opts.export_duration) r.now

-- The loop ticks once for each round before the first one at which it was told to end or, with a
-- duration that is not 0, that many seconds have passed since the start, and then ends.
pub export_loop-ticks :
    (opts : Options) (start ticks : ℕ) (before after : List Round) (r : Round)
    → All (λ q. ends_at opts start q ≡ false) before
    → ends_at opts start r ≡ true
    → export_loop opts start (before ++ r ∷ after) ticks ≡ (ticks + length before, true)
unfolding export_loop ends_at time_over
export_loop-ticks opts start ticks [] after r h e = ground (arith, e)
export_loop-ticks opts start ticks (q ∷ before) after r h e =
    ground (arith, h.0, export_loop-ticks opts start (ticks + 1) before after r h.1 e)
