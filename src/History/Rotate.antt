-- ===== src/History/Rotate.antt =====
-- One rotation, whose walk deletes from the table that it walks over.
use iftopcolor.Shared.{
  ℕ, zero, suc, ◌+◌, ◌%◌, ◌<◌, ◌≡◌, refl, ◌∙◌, List, [], ◌∷◌, ◌++◌, flatten, none, some, arith,
  ◌==◌, if◌then◌else◌, Bool-cases, inl, inr, length, first, append_assoc, ltb,
}
use iftopcolor.Hash.Iterate.{hash_next_item-start, hash_next_item-middle}
use iftopcolor.AddrHash.Keys.{addr_fns}
use iftopcolor.History.Defs.{
  Flows, history_length, clear_slot, rotate_node, rotate_loop, rotate_totals, history_rotate,
}
use iftopcolor.History.Step.{
  FlowChain, IsFlows, cleared, survivors, zero_slot, Stepped, apart, reached, rotate_node-kept,
  rotate_node-expired,
}

-- What the loop has done once it is over, from the state `s`.
pub record Rotated (others : List ℕ) (s s' : Flows) (c : FlowChain) : Type 0 where
  pub now : flatten s'.history ≡ c
  pub still : IsFlows others s'
  pub pos : s'.history_pos ≡ s.history_pos
  pub len : s'.history_len ≡ s.history_len
  pub totals : s'.history_totals ≡ s.history_totals

module _ (others : List ℕ) where
  rotate_loop-Rotated :
      (fuel : ℕ) (s : Flows) (c d : FlowChain)
      → IsFlows others s
      → flatten s.history ≡ c ++ d
      → length d < fuel
      → (s' : Flows) × (rotate_loop fuel (first d) s ≡ some s')
        × Rotated others s s' (c ++ survivors s.history_pos d)
  unfolding rotate_loop
  rotate_loop-Rotated zero s c d v e lt = absurd (omega arith)
  rotate_loop-Rotated (suc fuel) s c [] v e lt =
      (s, refl, record { now = e; still = v; pos = refl; len = refl; totals = refl })
  rotate_loop-Rotated (suc fuel) s c (n ∷ d) v e lt =
      elim (Bool-cases (n.rec.hist.last_write == s.history_pos)) [
        | inl old ↦
            go (rotate_node n s) c (rotate_node-expired others s c n d v e old)
              (rotate_loop-Rotated fuel (rotate_node n s) c d) refl (rw old)
        | inr new ↦
            go (rotate_node n s) (c ++ cleared s.history_pos n ∷ [])
              (rotate_node-kept others s c n d v e new)
              (rotate_loop-Rotated fuel (rotate_node n s) (c ++ cleared s.history_pos n ∷ []) d)
              refl
              (rw new (append_assoc c (cleared s.history_pos n ∷ []) (survivors s.history_pos d)))
      ]
    where
      step : rotate_loop (suc fuel) (some n) s ≡ rotate_loop fuel (first d) (rotate_node n s)
      step i = elim (reached others s c n d v e i) [
        | none ↦ none
        | some m ↦
            rotate_loop fuel
              (hash_next_item-middle s.history c n d v.table (apart others s c n d v e) e i)
              (rotate_node m s)
      ]

      go :
          (s₁ : Flows) (c₁ : FlowChain)
          → Stepped others s c n d v e s₁ c₁
          → (IsFlows others s₁
              → flatten s₁.history ≡ c₁ ++ d
              → length d < fuel
              → (s' : Flows) × (rotate_loop fuel (first d) s₁ ≡ some s')
                × Rotated others s₁ s' (c₁ ++ survivors s₁.history_pos d))
          → s₁ ≡ rotate_node n s
          → c₁ ++ survivors s.history_pos d ≡ c ++ survivors s.history_pos (n ∷ d)
          → (s' : Flows) × (rotate_loop (suc fuel) (some n) s ≡ some s')
            × Rotated others s s' (c ++ survivors s.history_pos (n ∷ d))
      go s₁ c₁ st ih body same =
          let (s', run, r) = ih st.still st.now (omega arith) in
          (
            s',
            step ∙ rw (← body) run,
            record {
              now = r.now ∙ rw st.pos same;
              still = r.still;
              pos = r.pos ∙ st.pos;
              len = r.len ∙ st.len;
              totals = r.totals ∙ st.totals;
            },
          )

-- The state `s'` after a rotation of `s`.
pub record IsRotation (others : List ℕ) (s s' : Flows) : Type 0 where
  pub pos : s'.history_pos ≡ (s.history_pos + 1) % history_length
  pub flows : flatten s'.history ≡ survivors s'.history_pos (flatten s.history)
  pub totals : s'.history_totals ≡ zero_slot s'.history_pos s.history_totals
  pub len :
      s'.history_len
      ≡ (if ltb s.history_len history_length then suc s.history_len else s.history_len)
  pub still : IsFlows others s'

-- A rotation of the history ends. It moves the position on by one slot modulo 40, frees exactly
-- the flows that were last written in the slot that comes up, in the node pool and in the history
-- pool, zeroes that slot in every other flow and in the totals, keeps the flows' order, counts
-- the history's length up to 40, and keeps table and pools well formed, if they were.
pub history_rotate-IsRotation :
    (others : List ℕ) (s : Flows)
    → IsFlows others s
    → (s' : Flows) × (history_rotate s ≡ some s') × IsRotation others s s'
unfolding history_rotate clear_slot
history_rotate-IsRotation others s v =
    let start : Flows = record s { history_pos = (s.history_pos + 1) % history_length } in
    let same : IsFlows others start = record {
      table = v.table;
      nodes = v.nodes;
      hists = v.hists;
    } in
    let (s', run, r) =
      rotate_loop-Rotated others (suc (length (flatten s.history))) start [] (flatten s.history)
        same refl (omega arith) in
    (
      rotate_totals s',
      rw (history_rotate, hash_next_item-start s.history, run),
      unfold rotate_totals in
          record {
            pos = r.pos;
            flows = r.now ∙ rw r.pos;
            totals = rw (r.pos, r.totals);
            len = rw r.len;
            still = record { table = r.still.table; nodes = r.still.nodes; hists = r.still.hists };
          },
    )
