-- ===== src/Packet/Defs.antt =====
-- `handle_ip_packet` of src/entry/iftop.c.
use iftopcolor.Shared.{
  ℕ, ◌+◌, ◌%◌, ◌^◌, Bool, true, false, ◌&&◌, ◌||◌, not, List, [], ◌∷◌, Option, none, some, ◌==◌,
  if◌then◌else◌, ltb, set, get_or, take,
}
use iftopcolor.Hash.{Buckets}
use iftopcolor.AddrHash.{
  AddrPair, af_inet, af_inet6, word, bytes_eq, addr_hash_find, addr_hash_insert,
}
use iftopcolor.History.{History, HistRef, FlowNode, Flows, history_create}
use iftopcolor.ProcInfo.{ProcInfo, ProcEntry, procinfo_lookup}
use iftopcolor.Packet.Headers.{
  Memory, ntohs_at, ip_v, ip_p, ip_src, ip_dst, ip6_nxt, ip6_src, ip6_dst, zero_pair,
  assign_addr_pair, widened, Config, in_filter_net, in_filter6_net, ip_addr_match, ip6_addr_match,
  link_local_at,
}

-- `hw_dir`: -1, 0 and 1
pub data HwDir : Type 0 where
  unknown incoming outgoing : HwDir

-- `ap` and `direction`, which is true for an outgoing packet.
abbrev pub Charged : Type 0
Charged = AddrPair × Bool

-- The direction by the interface's addresses, or by the order of the addresses. `none` returns.
unfoldable pub by_ip_layer : Config → Memory → Option Charged
by_ip_layer cfg p =
    if ip_v p == 4 && cfg.have_ip_addr && ip_addr_match cfg (ip_src p)
    then some (assign_addr_pair p false, true)
    else if ip_v p == 4 && cfg.have_ip_addr && ip_addr_match cfg (ip_dst p)
    then some (assign_addr_pair p true, false)
    else if ip_v p == 6 && cfg.have_ip6_addr && ip6_addr_match cfg (ip6_src p)
    then some (assign_addr_pair p false, true)
    else if ip_v p == 6 && cfg.have_ip6_addr && ip6_addr_match cfg (ip6_dst p)
    then some (assign_addr_pair p true, false)
    else if cfg.promiscuous_but_choosy
    then none
    else if ip_v p == 4 && ltb (word (ip_src p) 0) (word (ip_dst p) 0)
    then some (assign_addr_pair p true, false)
    else if ip_v p == 4
    then some (assign_addr_pair p false, false)
    else some (zero_pair, false)

unfoldable pub without_filter : Config → Memory → HwDir → Option Charged
without_filter cfg p outgoing = some (assign_addr_pair p false, true)
without_filter cfg p incoming = some (assign_addr_pair p true, false)
without_filter cfg p unknown = by_ip_layer cfg p

-- A net filter's two tests, on the source and on the destination.
unfoldable pub by_filter : Memory → Bool → Bool → Option Charged
by_filter p src_in dst_in =
    if src_in && not dst_in
    then some (assign_addr_pair p false, true)
    else if dst_in && not src_in
    then some (assign_addr_pair p true, false)
    else none

-- The direction and the pair. A packet of another version than 4 and 6 keeps the zeroed pair.
unfoldable pub by_netfilter : Config → Memory → HwDir → Option Charged
by_netfilter cfg p hw_dir =
    if ip_v p == 4
    then if cfg.netfilter
      then by_filter p (in_filter_net cfg (ip_src p)) (in_filter_net cfg (ip_dst p))
      else without_filter cfg p hw_dir
    else if ip_v p == 6
    then if cfg.netfilter6
      then by_filter p (in_filter6_net cfg (ip6_src p)) (in_filter6_net cfg (ip6_dst p))
      else without_filter cfg p hw_dir
    else some (zero_pair, false)

-- The test on link-local IPv6 packets.
unfoldable pub is_link_local : Config → Memory → Bool
is_link_local cfg p = ip_v p == 6 && not cfg.link_local && (link_local_at p 24 || link_local_at p 8)

unfoldable pub classify : Config → Memory → HwDir → Option Charged
classify cfg p hw_dir = if is_link_local cfg p then none else by_netfilter cfg p hw_dir

unfoldable pub with_protocol : Memory → AddrPair → AddrPair
with_protocol p ap =
    if ip_v p == 4
    then record ap { protocol = ip_p p }
    else if ip_v p == 6
    then record ap { protocol = ip6_nxt p }
    else ap

-- The calls of `resolve`, in order, with an address in 16 bytes.
unfoldable pub resolve_calls : Config → Memory → AddrPair → List (ℕ × List ℕ)
resolve_calls cfg p ap =
    if not cfg.dnsresolution
    then []
    else if ip_v p == 4
    then (ap.address_family, widened (ip_dst p)) ∷ (ap.address_family, widened (ip_src p)) ∷ []
    else if ip_v p == 6
    then (ap.address_family, ip6_dst p) ∷ (ap.address_family, ip6_src p) ∷ []
    else []

unfoldable pub packet_len : Memory → ℕ
packet_len p = if ip_v p == 4 then ntohs_at p 2 else ntohs_at p 4 + 40

-- The two lookups at the creation of a flow.
unfoldable pub owner : ProcInfo → AddrPair → Option ProcEntry
owner procs ap =
    if ap.address_family == af_inet || ap.address_family == af_inet6
    then elim (procinfo_lookup procs ap.address_family ap.src ap.src_port ap.protocol) [
      | some pe ↦ some pe
      | none ↦ procinfo_lookup procs ap.address_family ap.dst ap.dst_port ap.protocol
    ]
    else none

unfoldable pub label : Option ProcEntry → History → History
label none h = h
label (some pe) h = record h {
  proc_resolved = true;
  proc_pid = pe.pid;
  proc_name = take 63 pe.name;
}

-- Is the packet's source the source of the pair?
unfoldable pub sent_by_src : Memory → AddrPair → Bool
sent_by_src p ap =
    (ip_v p == 4 && bytes_eq (ip_src p) (take 4 ap.src))
    || (ip_v p == 6 && bytes_eq (ip6_src p) ap.src)

abbrev pub add_at : List ℕ → ℕ → ℕ → List ℕ
add_at l i n = set l i (get_or l i 0 + n)

-- `hist->sent`, or `hist->recv`, and its total
unfoldable pub charge : ℕ → Bool → ℕ → History → History
charge pos true len h = record h {
  sent = add_at h.sent pos len;
  total_sent = (h.total_sent + len) % 2 ^ 64;
}
charge pos false len h = record h {
  recv = add_at h.recv pos len;
  total_recv = (h.total_recv + len) % 2 ^ 64;
}

-- A write to the history that stands in an item of the pool.
unfoldable pub write_item : ℕ → History → List FlowNode → List FlowNode
write_item item h [] = []
write_item item h (n ∷ c) =
    (if n.rec.item == item then record n { rec = record n.rec { hist = h } } else n)
    ∷ write_item item h c

unfoldable pub write_hist : ℕ → History → Buckets AddrPair HistRef → Buckets AddrPair HistRef
write_hist item h [] = []
write_hist item h (c ∷ t) = write_item item h c ∷ write_hist item h t

-- The flow of a pair, with a new one for a pair that has none.
unfoldable pub find_or_create : Config → ProcInfo → AddrPair → Flows → HistRef × Flows
find_or_create cfg procs ap s = elim (addr_hash_find s.history ap) [
  | some r ↦ (r, s)
  | none ↦
      let (r, hist_pool) = history_create s.hist_pool in
      let hist : History =
        if cfg.show_processes && not r.hist.proc_resolved
        then label (owner procs ap) r.hist
        else r.hist in
      let ref : HistRef = record r { hist = hist } in
      let (node_pool, table) = addr_hash_insert s.node_pool s.history ap ref in
      (ref, record s { history = table; node_pool = node_pool; hist_pool = hist_pool })
]

-- The updates of the flow's record and of the totals.
unfoldable pub account : Memory → AddrPair → Bool → HistRef × Flows → Flows
account p ap direction (r, s) =
    let written : History = record r.hist { last_write = s.history_pos } in
    let hist = charge s.history_pos (sent_by_src p ap) (packet_len p) written in
    record s {
      history = write_hist r.item hist s.history;
      history_totals = charge s.history_pos direction (packet_len p) s.history_totals;
    }

-- handle_ip_packet: the flows afterwards and the names that it asks the resolver for.
unfoldable pub handle_ip_packet :
    Config → ProcInfo → Memory → HwDir → Flows → Flows × List (ℕ × List ℕ)
handle_ip_packet cfg procs p hw_dir s = elim (classify cfg p hw_dir) [
  | none ↦ (s, [])
  | some (ap, direction) ↦
      let key = with_protocol p ap in
      (account p key direction (find_or_create cfg procs key s), resolve_calls cfg p key)
]
