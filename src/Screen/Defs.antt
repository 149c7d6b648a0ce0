-- ===== src/Screen/Defs.antt =====
-- The state of the screen, and one flow added to it.
use iftopcolor.Shared.{
  ℕ, zero, suc, ◌+◌, ◌-◌, ◌%◌, ◌^◌, Bool, true, false, ◌&&◌, List, [], ◌∷◌, none, some, ◌==◌,
  if◌then◌else◌, get_or, take, replicate, range,
}
use iftopcolor.Pool.{Pool}
use iftopcolor.Hash.{Chain, Buckets}
use iftopcolor.Hash.Mapped.{map_recs}
use iftopcolor.AddrHash.{AddrPair, addr_hash_find, addr_hash_insert}
use iftopcolor.History.{History, HistRef, FlowNode, history_length}
use iftopcolor.Options.{Options, OptionPort, ports_off, ports_src, ports_dest, ports_on}
use iftopcolor.ProcInfo.{ProcInfo}
use iftopcolor.Packet.{owner, label}
use iftopcolor.SortedList.{SortedList}

-- The arithmetic of `long double`.
pub record Num (V : Type 0) : Type 0 where
  pub of_long : ℕ → V
  pub add : V → V → V
  pub mul : V → V → V
  pub div : V → V → V
  pub below : V → V → Bool
  pub equal : V → V → Bool

-- An array of HISTORY_DIVISIONS numbers.
pub record Rates (V : Type 0) : Type 0 where
  pub div0 : V
  pub div1 : V
  pub div2 : V

-- `host_pair_line`
pub record HostPairLine (V : Type 0) : Type 0 where
  pub ap : AddrPair
  pub total_recv : ℕ
  pub total_sent : ℕ
  pub recv : Rates V
  pub sent : Rates V
  pub cached_hostname : List ℕ
  pub pid : ℕ
  pub process_name : List ℕ

-- A pointer to a line, by the number of the allocation, with what stands there.
pub record LineRef (V : Type 0) : Type 0 where
  pub block : ℕ
  pub line : HostPairLine V

-- `screen_hash`, `screen_list`, `totals` and the peaks, which are ints and stand as the words that
-- hold them; `next_block` is the number of the next allocation.
pub record Display (V : Type 0) : Type 0 where
  pub screen_hash : Buckets AddrPair (LineRef V)
  pub screen_list : SortedList ℕ
  pub totals_recv : Rates V
  pub totals_sent : Rates V
  pub peaksent : ℕ
  pub peakrecv : ℕ
  pub peaktotal : ℕ
  pub next_block : ℕ

-- `hist_idx[i]`
abbrev pub hist_idx : ℕ → ℕ → ℕ
hist_idx pos i = (history_length + pos - i) % history_length

-- `history_divs`
abbrev pub history_divs : Rates ℕ
history_divs = record { div0 = 2; div1 = 10; div2 = 40 }

-- Which of the key's ports are zeroed.
unfoldable pub hides_src_port : OptionPort → Bool
hides_src_port ports_off = true
hides_src_port ports_dest = true
hides_src_port ports_src = false
hides_src_port ports_on = false

unfoldable pub hides_dst_port : OptionPort → Bool
hides_dst_port ports_off = true
hides_dst_port ports_src = true
hides_dst_port ports_dest = false
hides_dst_port ports_on = false

unfoldable pub hides_protocol : OptionPort → Bool
hides_protocol ports_off = true
hides_protocol ports_src = false
hides_protocol ports_dest = false
hides_protocol ports_on = false

-- The key of the line that shows a flow.
unfoldable pub aggregated : Options → AddrPair → AddrPair
aggregated opts key = record key {
  src = if opts.aggregate_src then replicate 16 0 else key.src;
  dst = if opts.aggregate_dest then replicate 16 0 else key.dst;
  src_port = if hides_src_port opts.showports then 0 else key.src_port;
  dst_port = if hides_dst_port opts.showports then 0 else key.dst_port;
  protocol = if hides_protocol opts.showports then 0 else key.protocol;
}

abbrev pub is_empty : List ℕ → Bool
is_empty [] = true
is_empty (c ∷ l) = false

module _ {V : Type 0} where
  -- A write through a pointer to a line.
  abbrev pub at_block : LineRef V → LineRef V → LineRef V
  at_block r s = if s.block == r.block then r else s

  unfoldable pub write_line : LineRef V → Display V → Display V
  write_line r d = record d { screen_hash = map_recs (at_block r) d.screen_hash }

module _ {V : Type 0} (num : Num V) where
  abbrev pub no_rates : Rates V
  no_rates = record { div0 = num.of_long 0; div1 = num.of_long 0; div2 = num.of_long 0 }

  -- xcalloc, with the key
  unfoldable pub fresh_line : AddrPair → HostPairLine V
  fresh_line key = record {
    ap = key;
    total_recv = 0;
    total_sent = 0;
    recv = no_rates;
    sent = no_rates;
    cached_hostname = [];
    pid = 0;
    process_name = [];
  }

  -- One slot added to the divisions from one on.
  abbrev pub add_from : ℕ → V → Rates V → Rates V
  add_from zero v r = record {
    div0 = num.add r.div0 v;
    div1 = num.add r.div1 v;
    div2 = num.add r.div2 v;
  }
  add_from (suc zero) v r = record r { div1 = num.add r.div1 v; div2 = num.add r.div2 v }
  add_from (suc (suc j)) v r = record r { div2 = num.add r.div2 v }

  -- A loop over slots, which are counted from the newest one.
  unfoldable pub add_slots : ℕ → List ℕ → ℕ → List ℕ → Rates V → Rates V
  add_slots pos bytes j [] r = r
  add_slots pos bytes j (i ∷ slots) r =
      add_slots pos bytes j slots (add_from j (num.of_long (get_or bytes (hist_idx pos i) 0)) r)

  -- The three loops, over the bytes received or over those sent.
  unfoldable pub accumulate : ℕ → List ℕ → Rates V → Rates V
  accumulate pos bytes r =
      add_slots pos bytes 2 (range 10 30)
        (add_slots pos bytes 1 (range 2 8) (add_slots pos bytes 0 (range 0 2) r))

  -- The process of a line, and what the flow's record learns of it.
  unfoldable pub attribute :
      Options → ProcInfo → AddrPair → History → HostPairLine V → HostPairLine V × History
  attribute opts procs key h line =
      if opts.show_processes && is_empty line.process_name
      then if h.proc_resolved
        then (record line { pid = h.proc_pid; process_name = take 63 h.proc_name }, h)
        else elim (owner procs key) [
          | none ↦ (line, h)
          | some pe ↦
              (record line { pid = pe.pid; process_name = take 63 pe.name }, label (some pe) h)
        ]
      else (line, h)

  -- What a flow adds to its line.
  unfoldable pub charge_line : ℕ → History → HostPairLine V → HostPairLine V
  charge_line pos h line = record line {
    total_sent = (line.total_sent + h.total_sent) % 2 ^ 64;
    total_recv = (line.total_recv + h.total_recv) % 2 ^ 64;
    recv = accumulate pos h.recv line.recv;
    sent = accumulate pos h.sent line.sent;
  }

  -- The line of a key, with a new one for a key that has none.
  unfoldable pub find_or_add : AddrPair → Pool → Display V → LineRef V × Pool × Display V
  find_or_add key pool d = elim (addr_hash_find d.screen_hash key) [
    | some r ↦ (r, pool, d)
    | none ↦
        let r : LineRef V = record { block = d.next_block; line = fresh_line key } in
        let (pool', table) = addr_hash_insert pool d.screen_hash key r in
        (r, pool', record d { screen_hash = table; next_block = d.next_block + 1 })
  ]

  -- The body of the loop over the flows.
  unfoldable pub analyse_flow :
      Options → ProcInfo → ℕ → FlowNode → Pool → Display V → FlowNode × Pool × Display V
  analyse_flow opts procs pos n pool d =
      let (r, pool', d') = find_or_add (aggregated opts n.key) pool d in
      let (line, h) = attribute opts procs n.key n.rec.hist r.line in
      (
        record n { rec = record n.rec { hist = h } },
        pool',
        write_line (record r { line = charge_line pos h line }) d',
      )

  -- The loop, which leaves the links of the flows' table as they are: from chain to chain, and from
  -- node to node.
  unfoldable pub analyse_chain :
      Options
      → ProcInfo
      → ℕ
      → Chain AddrPair HistRef
      → Pool
      → Display V
      → Chain AddrPair HistRef × Pool × Display V
  analyse_chain opts procs pos [] pool d = ([], pool, d)
  analyse_chain opts procs pos (n ∷ c) pool d =
      let (n', pool', d') = analyse_flow opts procs pos n pool d in
      let (c', pool'', d'') = analyse_chain opts procs pos c pool' d' in (n' ∷ c', pool'', d'')

  unfoldable pub analyse_table :
      Options
      → ProcInfo
      → ℕ
      → Buckets AddrPair HistRef
      → Pool
      → Display V
      → Buckets AddrPair HistRef × Pool × Display V
  analyse_table opts procs pos [] pool d = ([], pool, d)
  analyse_table opts procs pos (c ∷ t) pool d =
      let (c', pool', d') = analyse_chain opts procs pos c pool d in
      let (t', pool'', d'') = analyse_table opts procs pos t pool' d' in (c' ∷ t', pool'', d'')
