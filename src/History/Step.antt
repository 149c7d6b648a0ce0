-- ===== src/History/Step.antt =====
-- One step of the rotation: what its body does to the node that the walk has reached.
use iftopcolor.Shared.{
  ℕ, ◌+◌, ◌≡◌, refl, sym, ◌∙◌, true, false, List, [], ◌∷◌, ◌++◌, flatten, some, arith, count,
  count-append, to_nat, ◌==◌, if◌then◌else◌, append_assoc, map, ==_refl, set,
}
use iftopcolor.Pool.Owned.{IsOwned, pool_free-IsOwned, count-live-le}
use iftopcolor.Hash.{Chain, addrs}
use iftopcolor.Hash.Place.{IsTable, hash_delete_node-IsTable}
use iftopcolor.Hash.Iterate.{IsApart, count-addrs_middle}
use iftopcolor.Hash.Pointer.{
  node_at, store_rec, node_at-middle, store_rec-middle, store_rec-IsTable,
}
use iftopcolor.Hash.Unlink.{hash_delete_node-middle, count-addrs_append}
use iftopcolor.AddrHash.{AddrPair, free_nodes}
use iftopcolor.AddrHash.Keys.{addr_fns}
use iftopcolor.AddrHash.Generic.{addr_hash_delete_node-generic}
use iftopcolor.History.Defs.{
  History, HistRef, FlowNode, Flows, clear_slot, history_free, rotate_node,
}

abbrev pub FlowChain : Type 0
FlowChain = Chain AddrPair HistRef

abbrev pub items : FlowChain → List ℕ
items = map (λ n. n.rec.item)

-- The nodes of the table and those of the table that shares its pool are the items that the node
-- pool has handed out; the histories of the table are those of the history pool.
pub record IsFlows (others : List ℕ) (s : Flows) : Type 0 where
  pub table : IsTable s.history
  pub nodes : IsOwned (addrs (flatten s.history) ++ others) s.node_pool
  pub hists : IsOwned (items (flatten s.history)) s.hist_pool

-- A record with nothing received and nothing sent in a slot.
abbrev pub zero_slot : ℕ → History → History
zero_slot pos h = record h { recv = set h.recv pos 0; sent = set h.sent pos 0 }

abbrev pub cleared : ℕ → FlowNode → FlowNode
cleared pos n = record n { rec = record n.rec { hist = zero_slot pos n.rec.hist } }

-- The flows that were last written in another slot than `pos`, with that slot zeroed.
abbrev pub survivors : ℕ → FlowChain → FlowChain
survivors pos [] = []
survivors pos (n ∷ c) =
    if n.rec.hist.last_write == pos then survivors pos c else cleared pos n ∷ survivors pos c

count-items_middle :
    (a : ℕ) (c : FlowChain) (n : FlowNode) (d : FlowChain)
    → count a (items (c ++ n ∷ d))
      ≡ count a (items c) + to_nat (n.rec.item == a) + count a (items d)
count-items_middle a [] n d = omega arith
count-items_middle a (m ∷ c) n d = omega (arith, count-items_middle a c n d)

count-items_append :
    (a : ℕ) (c d : FlowChain) → count a (items (c ++ d)) ≡ count a (items c) + count a (items d)
count-items_append a [] d = omega arith
count-items_append a (m ∷ c) d = omega (arith, count-items_append a c d)

module _ (others : List ℕ) (s : Flows) (c : FlowChain) (n : FlowNode) (d : FlowChain)
    (v : IsFlows others s) (here : flatten s.history ≡ c ++ n ∷ d) where
  counts :
      (a : ℕ)
      → count a (addrs (flatten s.history))
        ≡ count a (addrs c) + to_nat (n.addr == a) + count a (addrs d)
  counts a = rw here (count-addrs_middle a c n d)

  pub apart : IsApart (flatten s.history)
  apart a = omega (
    arith,
    count-live-le (addrs (flatten s.history) ++ others) s.node_pool v.nodes a,
    count-append a (addrs (flatten s.history)) others,
  )

  alone_left : count n.addr (addrs c) ≡ 0
  alone_left = ground (arith, counts n.addr, apart n.addr, ==_refl n.addr)

  alone_right : count n.addr (addrs d) ≡ 0
  alone_right = ground (arith, counts n.addr, apart n.addr, ==_refl n.addr)

  -- A step of the walk whose body frees or keeps the node.
  pub record Stepped (s' : Flows) (c' : FlowChain) : Type 0 where
    pub now : flatten s'.history ≡ c' ++ d
    pub still : IsFlows others s'
    pub pos : s'.history_pos ≡ s.history_pos
    pub len : s'.history_len ≡ s.history_len
    pub totals : s'.history_totals ≡ s.history_totals

  nodes_count :
      (a : ℕ) (m : FlowNode)
      → count a (addrs (c ++ m ∷ d) ++ others)
        ≡ count a (addrs c) + to_nat (m.addr == a) + count a (addrs d) + count a others
  nodes_count a m =
      omega (arith, count-append a (addrs (c ++ m ∷ d)) others, count-addrs_middle a c m d)

  -- The node is the one that the pointer leads to.
  pub reached : node_at n.addr s.history ≡ some n
  reached = node_at-middle s.history c n d alone_left here

  -- A write to the history of the node.
  pub store-Stepped :
      (h : History)
      → let r : HistRef = record n.rec { hist = h } in
        Stepped
          (record s { history = store_rec n.addr r s.history })
          (c ++ record n { rec = r } ∷ [])
  store-Stepped h =
      let r : HistRef = record n.rec { hist = h } in
      let now = store_rec-middle s.history c n d r alone_left alone_right here in
      record {
        now = now ∙ sym (append_assoc c (record n { rec = r } ∷ []) d);
        still = record {
          table = store_rec-IsTable n.addr r s.history v.table;
          nodes = λ a. rw now (
              omega (
                arith,
                (rw here at v.nodes) a,
                nodes_count a (record n { rec = r }),
                nodes_count a n,
              ));
          hists = λ a. rw now (
              omega (
                arith,
                (rw here at v.hists) a,
                count-items_middle a c (record n { rec = r }) d,
                count-items_middle a c n d,
              ));
        };
        pos = refl;
        len = refl;
        totals = refl;
      }

  pub rotate_node-kept :
      n.rec.hist.last_write == s.history_pos ≡ false
      → Stepped (rotate_node n s) (c ++ cleared s.history_pos n ∷ [])
  unfolding rotate_node
  rotate_node-kept e = rw (rotate_node, e) (store-Stepped (clear_slot s.history_pos n.rec.hist))

  pub rotate_node-expired :
      n.rec.hist.last_write == s.history_pos ≡ true → Stepped (rotate_node n s) c
  unfolding rotate_node free_nodes history_free
  rotate_node-expired e =
      let r = hash_delete_node-middle s.history c n d v.table apart here in
      rw (rotate_node, e, addr_hash_delete_node-generic s.node_pool s.history n, r.2)
        (record {
          now = r.1;
          still = record {
            table = hash_delete_node-IsTable s.history n v.table;
            nodes =
                pool_free-IsOwned (addrs (flatten s.history) ++ others) _ s.node_pool n.addr
                  (λ a.
                    rw (here, r.1)
                      (omega (
                        arith,
                        nodes_count a n,
                        count-append a (addrs (c ++ d)) others,
                        count-addrs_append a c d,
                      )))
                  v.nodes;
            hists =
                pool_free-IsOwned (items (flatten s.history)) _ s.hist_pool n.rec.item
                  (λ a.
                    rw (here, r.1)
                      (omega (arith, count-items_middle a c n d, count-items_append a c d)))
                  v.hists;
          };
          pos = refl;
          len = refl;
          totals = refl;
        })
