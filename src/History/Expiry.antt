-- ===== src/History/Expiry.antt =====
-- How long an idle flow stays.
use iftopcolor.Shared.{
  ℕ, zero, suc, ◌+◌, ◌-◌, ◌%◌, ◌<◌, ◌≡◌, refl, sym, ◌∙◌, List, [], ◌∷◌, flatten, Option, none, some,
  arith, ltb, if◌then◌else◌, All, map,
}
use iftopcolor.AddrHash.{AddrPair}
use iftopcolor.History.Defs.{Flows, history_length, history_rotate}
use iftopcolor.History.Rotate.{history_rotate-IsRotation}
use iftopcolor.History.Step.{FlowChain, IsFlows, survivors}

-- Rotations one after the other, with no packet in between.
unfoldable pub rotate_times : ℕ → Flows → Option Flows
rotate_times zero s = some s
rotate_times (suc n) s = elim (history_rotate s) [ none ↦ none | some s' ↦ rotate_times n s' ]

-- The slots since the last packet, 0 for a flow that was written in the current slot.
abbrev pub age : ℕ → ℕ → ℕ
age pos last_write = (pos + 40 - last_write) % 40

-- The keys of the flows that are still there after `n` more rotations.
abbrev pub young_keys : ℕ → ℕ → FlowChain → List AddrPair
young_keys n pos [] = []
young_keys n pos (m ∷ c) =
    if ltb (age pos m.rec.hist.last_write + n) 40
    then m.key ∷ young_keys n pos c
    else young_keys n pos c

abbrev pub keys : FlowChain → List AddrPair
keys = map (λ m. m.key)

abbrev pub IsWritten : FlowChain → Type 0
IsWritten = All (λ m. m.rec.hist.last_write < history_length)

young_keys-zero : (pos : ℕ) (c : FlowChain) → young_keys 0 pos c ≡ keys c
young_keys-zero pos [] = refl
young_keys-zero pos (m ∷ c) = ground (arith, young_keys-zero pos c)

survivors-IsWritten : (pos : ℕ) (c : FlowChain) → IsWritten c → IsWritten (survivors pos c)
survivors-IsWritten pos [] h = tt
survivors-IsWritten pos (m ∷ c) h = ground (arith, survivors-IsWritten pos c h.1)

young_keys-survivors :
    (n pos : ℕ) (c : FlowChain)
    → pos < 40
    → IsWritten c
    → young_keys n ((pos + 1) % 40) (survivors ((pos + 1) % 40) c) ≡ young_keys (suc n) pos c
young_keys-survivors n pos [] lt h = refl
young_keys-survivors n pos (m ∷ c) lt h = ground (arith, young_keys-survivors n pos c lt h.1)

-- The run of `n` rotations ends.
pub record IsAged (others : List ℕ) (n : ℕ) (s s' : Flows) : Type 0 where
  pub left : keys (flatten s'.history) ≡ young_keys n s.history_pos (flatten s.history)
  pub still : IsFlows others s'

-- `n` rotations without a packet, from a well-formed state whose flows were written in one of the
-- 40 slots, end, and leave exactly the flows whose last packet lies fewer than 40 - n slots back.
pub rotate_times-IsAged :
    (others : List ℕ) (n : ℕ) (s : Flows)
    → IsFlows others s
    → s.history_pos < history_length
    → IsWritten (flatten s.history)
    → (s' : Flows) × (rotate_times n s ≡ some s') × IsAged others n s s'
unfolding rotate_times
rotate_times-IsAged others zero s v lt h =
    (s, refl, record { left = sym (young_keys-zero s.history_pos (flatten s.history)); still = v })
rotate_times-IsAged others (suc n) s v lt h =
    let (s₁, run, r) = history_rotate-IsRotation others s v in
    let (s', runs, a) =
      rotate_times-IsAged others n s₁ r.still (rw r.pos (omega arith))
        (rw r.flows (survivors-IsWritten s₁.history_pos (flatten s.history) h)) in
    (
      s',
      rw (rotate_times, run, runs),
      record {
        left =
            a.left
            ∙ rw (r.flows, r.pos) (young_keys-survivors n s.history_pos (flatten s.history) lt h);
        still = a.still;
      },
    )
