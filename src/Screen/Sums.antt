-- ===== src/Screen/Sums.antt =====
-- The loop over all flows.
use iftopcolor.Shared.{
  ℕ, suc, ◌≡◌, refl, ap, ◌∙◌, [], ◌∷◌, ◌++◌, flatten, Option, arith, map, length, All,
}
use iftopcolor.Pool.{Pool}
use iftopcolor.Hash.{Buckets}
use iftopcolor.Hash.Place.{IsAt, IsPlacedFrom, IsTable}
use iftopcolor.AddrHash.{AddrPair}
use iftopcolor.AddrHash.Keys.{addr_fns}
use iftopcolor.History.{HistRef, FlowNode}
use iftopcolor.History.Step.{FlowChain}
use iftopcolor.Options.{Options}
use iftopcolor.ProcInfo.{ProcInfo}
use iftopcolor.Screen.Defs.{Num, HostPairLine, Display, analyse_flow, analyse_chain, analyse_table}
use iftopcolor.Screen.Lines.{IsLines, Kept, kept_twice, shown_line}
use iftopcolor.Screen.Charges.{absorbed, analyse_flow-Absorbed}

module _ {V : Type 0} (num : Num V) (opts : Options) (procs : ProcInfo) (pos : ℕ) where
  -- What some flows, in turn, do to the line of a key.
  abbrev pub summed : AddrPair → FlowChain → Option (HostPairLine V) → Option (HostPairLine V)
  summed q [] o = o
  summed q (n ∷ c) o = summed q c (absorbed num opts procs pos q n o)

  summed-append :
      (q : AddrPair) (c d : FlowChain) (o : Option (HostPairLine V))
      → summed q (c ++ d) o ≡ summed q d (summed q c o)
  summed-append q [] d o = refl
  summed-append q (n ∷ c) d o = summed-append q c d (absorbed num opts procs pos q n o)

  -- Every key's line has been charged with the flows that it shows, and with no other.
  pub record Summed (c : FlowChain) (pool : Pool) (d : Display V) (pool' : Pool) (d' : Display V)
      : Type 0 where
    pub kept : Kept pool d pool' d'
    pub lines : (q : AddrPair) → shown_line d' q ≡ summed q c (shown_line d q)

  Summed-append :
      {c₁ c₂ : FlowChain} {p₁ p₂ p₃ : Pool} {d₁ d₂ d₃ : Display V}
      → Summed c₁ p₁ d₁ p₂ d₂
      → Summed c₂ p₂ d₂ p₃ d₃
      → Summed (c₁ ++ c₂) p₁ d₁ p₃ d₃
  Summed-append {c₁} {c₂} {d₁ = d₁} k l = record {
    kept = kept_twice k.kept l.kept;
    lines = λ q. l.lines q ∙ rw (k.lines q, summed-append q c₁ c₂ (shown_line d₁ q)) refl;
  }

  Summed-nil : (pool : Pool) (d : Display V) → IsLines d → Summed [] pool d pool d
  Summed-nil pool d v = record {
    kept = record { still = v; owned = λ live o. o; grown = λ a. omega arith; list = refl };
    lines = λ q. refl;
  }

  analyse_chain-Summed :
      (c : FlowChain) (pool : Pool) (d : Display V)
      → IsLines d
      → let r = analyse_chain num opts procs pos c pool d in Summed c pool d r.1 r.2
  unfolding analyse_chain
  analyse_chain-Summed [] pool d v = Summed-nil pool d v
  analyse_chain-Summed (n ∷ c) pool d v =
      let a = analyse_flow-Absorbed num opts procs pos n pool d v in
      let r = analyse_flow num opts procs pos n pool d in
      Summed-append {c₁ = n ∷ []} (record { kept = a.kept; lines = a.lines })
        (analyse_chain-Summed c r.1 r.2 a.kept.still)

  -- From lines of which no key has two, the loop over the flows leaves such lines; a key's line is
  -- what it was, or a fresh line, charged in the order of the walk with each flow whose aggregated
  -- key it is, and a key that no flow is aggregated to keeps the line that it had, if any.
  pub analyse_table-Summed :
      (t : Buckets AddrPair HistRef) (pool : Pool) (d : Display V)
      → IsLines d
      → let r = analyse_table num opts procs pos t pool d in Summed (flatten t) pool d r.1 r.2
  unfolding analyse_table flatten
  analyse_table-Summed [] pool d v = Summed-nil pool d v
  analyse_table-Summed (c ∷ t) pool d v =
      let a = analyse_chain-Summed c pool d v in
      let r = analyse_chain num opts procs pos c pool d in
      Summed-append a (analyse_table-Summed t r.1 r.2 a.kept.still)

  -- The flows' table: the histories may learn their owners, and nothing else changes.
  module _ (g : FlowNode → ℕ)
      (same : (n : FlowNode) (r : HistRef)
        → r.item ≡ n.rec.item
        → g (record n { rec = r }) ≡ g n) where
    analyse_chain-flows :
        (c : FlowChain) (pool : Pool) (d : Display V)
        → map g (analyse_chain num opts procs pos c pool d).0 ≡ map g c
    unfolding analyse_chain analyse_flow
    analyse_chain-flows [] pool d = refl
    analyse_chain-flows (n ∷ c) pool d =
        let r = analyse_flow num opts procs pos n pool d in
        rw (same n r.0.rec refl, analyse_chain-flows c r.1 r.2) refl

    map-append : (c d : FlowChain) → map g (c ++ d) ≡ map g c ++ map g d
    map-append [] d = refl
    map-append (n ∷ c) d = rw (map-append c d) refl

    pub analyse_table-flows :
        (t : Buckets AddrPair HistRef) (pool : Pool) (d : Display V)
        → map g (flatten (analyse_table num opts procs pos t pool d).0) ≡ map g (flatten t)
    unfolding analyse_table flatten
    analyse_table-flows [] pool d = refl
    analyse_table-flows (c ∷ t) pool d =
        let r = analyse_chain num opts procs pos c pool d in
        rw
          (
            map-append r.0 (flatten (analyse_table num opts procs pos t r.1 r.2).0),
            map-append c (flatten t),
            analyse_chain-flows c pool d,
            analyse_table-flows t r.1 r.2,
          )
          refl

  analyse_chain-IsAt :
      (b : ℕ) (c : FlowChain) (pool : Pool) (d : Display V)
      → All (IsAt b) c
      → All (IsAt b) (analyse_chain num opts procs pos c pool d).0
  unfolding analyse_chain analyse_flow
  analyse_chain-IsAt b [] pool d v = tt
  analyse_chain-IsAt b (n ∷ c) pool d v =
      let r = analyse_flow num opts procs pos n pool d in (v.0, analyse_chain-IsAt b c r.1 r.2 v.1)

  analyse_table-IsPlaced :
      (b : ℕ) (t : Buckets AddrPair HistRef) (pool : Pool) (d : Display V)
      → IsPlacedFrom b t
      → IsPlacedFrom b (analyse_table num opts procs pos t pool d).0
  unfolding analyse_table
  analyse_table-IsPlaced b [] pool d v = tt
  analyse_table-IsPlaced b (c ∷ t) pool d v =
      let r = analyse_chain num opts procs pos c pool d in
      (analyse_chain-IsAt b c pool d v.0, analyse_table-IsPlaced (suc b) t r.1 r.2 v.1)

  length-analyse_table :
      (t : Buckets AddrPair HistRef) (pool : Pool) (d : Display V)
      → length (analyse_table num opts procs pos t pool d).0 ≡ length t
  unfolding analyse_table
  length-analyse_table [] pool d = refl
  length-analyse_table (c ∷ t) pool d =
      let r = analyse_chain num opts procs pos c pool d in ap suc (length-analyse_table t r.1 r.2)

  pub analyse_table-IsTable :
      (t : Buckets AddrPair HistRef) (pool : Pool) (d : Display V)
      → IsTable t
      → IsTable (analyse_table num opts procs pos t pool d).0
  analyse_table-IsTable t pool d v = record {
    wide = length-analyse_table t pool d ∙ v.wide;
    placed = analyse_table-IsPlaced 0 t pool d v.placed;
  }
