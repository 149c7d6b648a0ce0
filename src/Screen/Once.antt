-- ===== src/Screen/Once.antt =====
-- The flows' table keeps one record to a key under the analysis.
use iftopcolor.Shared.{
  ℕ, zero, suc, ◌≡◌, refl, List, [], ◌∷◌, Bool-cases, inl, inr, length, rest, arith,
}
use iftopcolor.Pool.{Pool}
use iftopcolor.Hash.{Buckets, chain_at}
use iftopcolor.Hash.Records.{matching, records}
use iftopcolor.Hash.Replace.{IsMap}
use iftopcolor.AddrHash.{AddrPair}
use iftopcolor.AddrHash.Keys.{addr_fns}
use iftopcolor.History.{HistRef}
use iftopcolor.History.Step.{FlowChain}
use iftopcolor.Options.{Options}
use iftopcolor.ProcInfo.{ProcInfo}
use iftopcolor.Screen.Defs.{Num, Display, analyse_flow, analyse_chain, analyse_table}
use iftopcolor.Screen.Sums.{analyse_table-IsTable}

module _ {V : Type 0} (num : Num V) (opts : Options) (procs : ProcInfo) (pos : ℕ)
    (q : AddrPair) where
  length-matching :
      (c : FlowChain) (pool : Pool) (d : Display V)
      → length (matching q (analyse_chain num opts procs pos c pool d).0) ≡ length (matching q c)
  unfolding matching analyse_chain analyse_flow
  length-matching [] pool d = refl
  length-matching (n ∷ c) pool d =
      let r = analyse_flow num opts procs pos n pool d in
      elim (Bool-cases (addr_fns.compare n.key q)) [
        | inl e ↦ rw (e, length-matching c r.1 r.2) refl
        | inr e ↦ rw e (length-matching c r.1 r.2)
      ]

  length-chain_at :
      (t : Buckets AddrPair HistRef) (b : ℕ) (pool : Pool) (d : Display V)
      → length (matching q (chain_at (analyse_table num opts procs pos t pool d).0 b))
        ≡ length (matching q (chain_at t b))
  unfolding analyse_table
  length-chain_at [] b pool d = refl
  length-chain_at (c ∷ t) zero pool d = length-matching c pool d
  length-chain_at (c ∷ t) (suc b) pool d =
      let r = analyse_chain num opts procs pos c pool d in length-chain_at t b r.1 r.2

  rest-none : {R : Type 0} (l k : List R) → length l ≡ length k → rest k ≡ [] → rest l ≡ []
  rest-none [] k e h = refl
  rest-none (x ∷ []) k e h = refl
  rest-none (x ∷ y ∷ l) [] e h = absurd (omega (arith, e))
  rest-none (x ∷ y ∷ l) (z ∷ []) e h = absurd (omega (arith, e))
  rest-none (x ∷ y ∷ l) (z ∷ w ∷ k) e h = cc

  pub once-analyse_table :
      (t : Buckets AddrPair HistRef) (pool : Pool) (d : Display V)
      → rest (records t q) ≡ []
      → rest (records (analyse_table num opts procs pos t pool d).0 q) ≡ []
  unfolding records
  once-analyse_table t pool d h =
      rest-none _ (records t q) (length-chain_at t (addr_fns.hash q) pool d) h

module _ {V : Type 0} (num : Num V) (opts : Options) (procs : ProcInfo) (pos : ℕ) where
  pub analyse_table-IsMap :
      (t : Buckets AddrPair HistRef) (pool : Pool) (d : Display V)
      → IsMap t
      → IsMap (analyse_table num opts procs pos t pool d).0
  analyse_table-IsMap t pool d v = record {
    table = analyse_table-IsTable num opts procs pos t pool d v.table;
    once = λ q. once-analyse_table num opts procs pos q t pool d (v.once q);
  }
