-- ===== src/History/Defs.antt =====
-- `history_type`, the globals of src/entry/iftop.c that hold the flows, and the rotation.
use iftopcolor.Shared.{
  ℕ, zero, suc, ◌+◌, ◌%◌, Bool, false, List, [], Option, none, some, ◌==◌, ltb, if◌then◌else◌, set,
  replicate, flatten, length,
}
use iftopcolor.Pool.{Pool, pool_alloc, pool_free, new_pool}
use iftopcolor.Hash.{Node, Buckets, hash_next_item}
use iftopcolor.Hash.Pointer.{node_at, store_rec}
use iftopcolor.AddrHash.{AddrPair, addr_hash_delete_node, addr_hash_create}

abbrev pub history_length : ℕ
history_length = 40

-- The slots are C `long`s, which a flow would need 2 ^ 47 packets in a slot to overflow; the totals
-- are `unsigned long long`s, which wrap.
pub record History : Type 0 where
  pub recv : List ℕ
  pub sent : List ℕ
  pub total_sent : ℕ
  pub total_recv : ℕ
  pub last_write : ℕ
  pub proc_resolved : Bool
  pub proc_pid : ℕ
  pub proc_name : List ℕ

-- memset(hist, 0, sizeof *hist)
abbrev pub zeroed : History
zeroed = record {
  recv = replicate history_length 0;
  sent = replicate history_length 0;
  total_sent = 0;
  total_recv = 0;
  last_write = 0;
  proc_resolved = false;
  proc_pid = 0;
  proc_name = [];
}

-- The `record` of a node: a pointer to a pool item, which no other node points to, and the history
-- that stands there.
pub record HistRef : Type 0 where
  pub item : ℕ
  pub hist : History

abbrev pub FlowNode : Type 0
FlowNode = Node AddrPair HistRef

-- The globals: `history`, the node pool that it shares with the screen's table, the history pool,
-- `history_totals`, `history_pos` and `history_len`.
pub record Flows : Type 0 where
  pub history : Buckets AddrPair HistRef
  pub node_pool : Pool
  pub hist_pool : Pool
  pub history_totals : History
  pub history_pos : ℕ
  pub history_len : ℕ

-- The program at its start, with `init_history` done.
unfoldable pub init_history : Flows
unfolding addr_hash_create new_pool
init_history = record {
  history = addr_hash_create;
  node_pool = new_pool;
  hist_pool = new_pool;
  history_totals = zeroed;
  history_pos = 0;
  history_len = 1;
}

-- history_create: an item of the pool, zeroed.
unfoldable pub history_create : Pool → HistRef × Pool
history_create pool =
    let (item, pool') = pool_alloc pool in (record { item = item; hist = zeroed }, pool')

unfoldable pub history_free : HistRef → Pool → Pool
history_free r pool = pool_free r.item pool

unfoldable pub clear_slot : ℕ → History → History
clear_slot pos h = record h { recv = set h.recv pos 0; sent = set h.sent pos 0 }

-- The body of the loop, at a node that the pointer leads to.
unfoldable pub rotate_node : FlowNode → Flows → Flows
unfolding clear_slot history_free
rotate_node n s =
    if n.rec.hist.last_write == s.history_pos
    then (let (pool, table) = addr_hash_delete_node s.node_pool s.history n in
        record s { history = table; node_pool = pool; hist_pool = history_free n.rec s.hist_pool })
    else record s {
      history =
          store_rec n.addr (record n.rec { hist = clear_slot s.history_pos n.rec.hist }) s.history;
    }

-- The loop, from a pointer on: the next node is found before the body runs. `none` is a pointer
-- that dangles, or that the fuel has run out.
unfoldable pub rotate_loop : ℕ → Option FlowNode → Flows → Option Flows
unfolding rotate_node
rotate_loop zero p s = none
rotate_loop (suc fuel) none s = some s
rotate_loop (suc fuel) (some p) s =
    let next = hash_next_item s.history (some p.addr) in
    elim (node_at p.addr s.history) [
      | none ↦ none
      | some n ↦ rotate_loop fuel next (rotate_node n s)
    ]

-- What follows the loop.
unfoldable pub rotate_totals : Flows → Flows
unfolding clear_slot
rotate_totals s = record s {
  history_totals = clear_slot s.history_pos s.history_totals;
  history_len = if ltb s.history_len history_length then suc s.history_len else s.history_len;
}

-- A node more of fuel than there are nodes.
unfoldable pub history_rotate : Flows → Option Flows
unfolding rotate_loop rotate_totals
history_rotate s =
    let s' : Flows = record s { history_pos = (s.history_pos + 1) % history_length } in
    elim (rotate_loop (suc (length (flatten s.history))) (hash_next_item s.history none) s') [
      | none ↦ none
      | some r ↦ some (rotate_totals r)
    ]
