-- ===== src/Screen/Charges.antt =====
-- What one flow charges a line with.
use iftopcolor.Shared.{
  ℕ, ◌+◌, ◌%◌, ◌^◌, List, range, ◌≡◌, refl, sym, flatten, Option, some, arith, ◌==◌, if◌then◌else◌,
  Bool-cases, inl, inr,
}
use iftopcolor.Pool.{Pool}
use iftopcolor.Hash.Mapped.{map_recs, map-map_recs, map_recs-IsMap}
use iftopcolor.Hash.Overwrite.{ids, hash_find-updated_self, hash_find-updated_other}
use iftopcolor.AddrHash.{AddrPair, addr_compare}
use iftopcolor.AddrHash.Keys.{addr_fns, addr_compare_iff}
use iftopcolor.AddrHash.Generic.{addr_hash_find-generic}
use iftopcolor.History.{FlowNode}
use iftopcolor.Options.{Options}
use iftopcolor.ProcInfo.{ProcInfo}
use iftopcolor.Screen.Defs.{
  Num, Rates, HostPairLine, LineRef, Display, aggregated, attribute, charge_line, find_or_add,
  at_block, write_line, analyse_flow,
}
use iftopcolor.Screen.Windows.{add_up, accumulate-add_up}
use iftopcolor.Screen.Lines.{
  IsLines, Kept, kept_twice, shown_line, or_fresh, Opened, find_or_add-Opened,
}

-- A write through the pointer to a line.
module _ {V : Type 0} (pool : Pool) (d : Display V) (r : LineRef V) (line : HostPairLine V)
    (v : IsLines d) where
  abbrev with_write : Display V
  with_write = record d {
    screen_hash = map_recs (at_block (record r { line = line })) d.screen_hash;
  }

  same_block : (s : LineRef V) → (at_block (record r { line = line }) s).block ≡ s.block
  same_block s = elim (Bool-cases (s.block == r.block)) [
    | inl e ↦ rw e (ground (arith, e))
    | inr e ↦ rw e refl
  ]

  same_blocks :
      ids (λ s. s.block) (flatten with_write.screen_hash)
      ≡ ids (λ s. s.block) (flatten d.screen_hash)
  same_blocks =
      map-map_recs (at_block (record r { line = line })) (λ n. n.rec.block) d.screen_hash
        (λ n. same_block n.rec)

  with_write-Kept : Kept pool d pool with_write
  with_write-Kept = record {
    still = record {
      once = map_recs-IsMap (at_block (record r { line = line })) d.screen_hash v.once;
      alone = rw same_blocks v.alone;
      old = rw same_blocks v.old;
    };
    owned = λ live o.
        rw
          (map-map_recs (at_block (record r { line = line })) (λ n. n.addr) d.screen_hash
            (λ n. refl))
          o;
    grown = λ a. rw same_blocks (omega arith);
    list = refl;
  }

module _ {V : Type 0} (num : Num V) (opts : Options) (procs : ProcInfo) (pos : ℕ) where
  -- To each division its newest slots are added: 2, 10 and 40 of them.
  abbrev pub divisions : ℕ → List ℕ → Rates V → Rates V
  divisions at bytes r = record {
    div0 = add_up num at bytes (range 0 2) r.div0;
    div1 = add_up num at bytes (range 0 10) r.div1;
    div2 = add_up num at bytes (range 0 40) r.div2;
  }

  -- A line charged with a flow that it shows.
  abbrev pub charged : FlowNode → HostPairLine V → HostPairLine V
  charged n line =
      let (owned, h) = attribute num opts procs n.key n.rec.hist line in
      record owned {
        total_sent = (owned.total_sent + h.total_sent) % 2 ^ 64;
        total_recv = (owned.total_recv + h.total_recv) % 2 ^ 64;
        recv = divisions pos h.recv owned.recv;
        sent = divisions pos h.sent owned.sent;
      }

  charge_line-divisions :
      (n : FlowNode) (line : HostPairLine V)
      → (let (owned, h) = attribute num opts procs n.key n.rec.hist line in
          charge_line num pos h owned)
        ≡ charged n line
  unfolding charge_line
  charge_line-divisions n line =
      let (owned, h) = attribute num opts procs n.key n.rec.hist line in
      rw (accumulate-add_up num pos h.recv owned.recv, accumulate-add_up num pos h.sent owned.sent)
        refl

  -- What a flow does to the line of a key.
  abbrev pub absorbed : AddrPair → FlowNode → Option (HostPairLine V) → Option (HostPairLine V)
  absorbed q n o =
      if addr_compare (aggregated opts n.key) q then some (charged n (or_fresh num q o)) else o

  module _ (n : FlowNode) (pool : Pool) (d : Display V) where
    pub record Absorbed (pool' : Pool) (d' : Display V) : Type 0 where
      pub kept : Kept pool d pool' d'
      pub lines : (q : AddrPair) → shown_line d' q ≡ absorbed q n (shown_line d q)

    written :
        (r : LineRef V) (pool' : Pool) (d' : Display V)
        → Opened num (aggregated opts n.key) pool d r pool' d'
        → Absorbed pool' (write_line (record r { line = charged n r.line }) d')
    unfolding write_line
    written r pool' d' o =
        let line : HostPairLine V = charged n r.line in
        let d₁ : Display V = write_line (record r { line = line }) d' in
        record {
          kept = kept_twice o.kept (with_write-Kept pool' d' r line o.kept.still);
          lines = λ q. elim (Bool-cases (addr_compare (aggregated opts n.key) q)) [
            | inl e ↦
                let same = (addr_compare_iff (aggregated opts n.key) q).0 e in
                rw (e, addr_hash_find-generic d₁.screen_hash q)
                  (rw⁻¹ same (
                    rw
                      (
                        hash_find-updated_self (λ s. s.block) d'.screen_hash (aggregated opts n.key)
                            r (λ s. record r { line = line }) o.here,
                        o.line,
                      )
                      refl))
            | inr e ↦
                rw
                  (
                    e,
                    addr_hash_find-generic d₁.screen_hash q,
                    hash_find-updated_other (λ s. s.block) d'.screen_hash (aggregated opts n.key) q
                        r (λ s. record r { line = line }) o.kept.still.once.table o.kept.still.alone
                        o.here e,
                    o.elsewhere q e,
                    sym (addr_hash_find-generic d.screen_hash q),
                  )
                  refl
          ];
        }

    pub analyse_flow-Absorbed :
        IsLines d → let r = analyse_flow num opts procs pos n pool d in Absorbed r.1 r.2
    unfolding analyse_flow
    analyse_flow-Absorbed v =
        let o = find_or_add-Opened num (aggregated opts n.key) pool d v in
        let (r, pool', d') = find_or_add num (aggregated opts n.key) pool d in
        rw (charge_line-divisions n r.line) (written _ _ _ o)
