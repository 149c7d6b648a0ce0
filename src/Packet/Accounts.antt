-- ===== src/Packet/Accounts.antt =====
-- What a packet does to the flows and to the totals.
use iftopcolor.Shared.{
  ℕ, ◌≡◌, refl, ap, ◌∙◌, sym, Bool, true, false, ◌&&◌, List, ◌++◌, flatten, Option, none, some,
  arith, if◌then◌else◌, Option-cases, inl, inr, count-append,
}
use iftopcolor.Pool.{pool_alloc}
use iftopcolor.Pool.Owned.{pool_alloc-IsOwned, count-live-le}
use iftopcolor.Hash.{addrs, hash_find, hash_insert}
use iftopcolor.Hash.Replace.{IsMap, hash_insert-IsMap, hash_find-hash_insert}
use iftopcolor.Hash.Census.{count-hash_insert}
use iftopcolor.AddrHash.{AddrPair, addr_hash_find, addr_compare}
use iftopcolor.AddrHash.Keys.{addr_fns}
use iftopcolor.AddrHash.Generic.{addr_hash_find-generic, addr_hash_insert-generic}
use iftopcolor.History.{History, HistRef, Flows, zeroed, history_create}
use iftopcolor.History.Step.{IsFlows, items}
use iftopcolor.ProcInfo.{ProcInfo}
use iftopcolor.Packet.Headers.{Memory, Config}
use iftopcolor.Packet.Defs.{
  HwDir, owner, charge, sent_by_src, packet_len, write_hist, find_or_create, account, classify,
  with_protocol, handle_ip_packet,
}
use iftopcolor.Packet.Charges.{
  labelled, label_lem, counted, charge-counted, comes_from_src, sent_by_src_lem, length_of,
  packet_len_lem,
}
use iftopcolor.Packet.Replies.{charged_to}
use iftopcolor.Packet.Store.{
  addrs-write_hist, items-write_hist, write_hist-IsMap, hash_find-write_hist_other,
  hash_find-write_hist_self,
}

-- The table and the pools are well formed, and no flow has two records.
pub record IsLedger (others : List ℕ) (s : Flows) : Type 0 where
  pub flows : IsFlows others s
  pub once : IsMap s.history

-- The record that a flow has, or starts with.
abbrev pub started : Config → ProcInfo → AddrPair → History
started cfg procs ap = if cfg.show_processes then labelled (owner procs ap) zeroed else zeroed

abbrev pub hist_of : Config → ProcInfo → AddrPair → Flows → History
hist_of cfg procs ap s = elim (addr_hash_find s.history ap) [
  | some r ↦ r.hist
  | none ↦ started cfg procs ap
]

module _ (others : List ℕ) (cfg : Config) (procs : ProcInfo) (ap : AddrPair) (s : Flows) where
  -- The flow is there, with what it had or with a fresh record.
  record Opened (r : HistRef) (s' : Flows) : Type 0 where
    still : IsLedger others s'
    here : hash_find s'.history ap ≡ some r
    hist : r.hist ≡ hist_of cfg procs ap s
    elsewhere :
        (q : AddrPair) → addr_compare ap q ≡ false → hash_find s'.history q ≡ hash_find s.history q
    pos : s'.history_pos ≡ s.history_pos
    len : s'.history_len ≡ s.history_len
    totals : s'.history_totals ≡ s.history_totals

  abbrev fresh_ref : HistRef
  fresh_ref = record { item = (pool_alloc s.hist_pool).0; hist = started cfg procs ap }

  abbrev with_flow : Flows
  with_flow = record s {
    history = (hash_insert s.history (pool_alloc s.node_pool).0 ap fresh_ref).1;
    node_pool = (pool_alloc s.node_pool).1;
    hist_pool = (pool_alloc s.hist_pool).1;
  }

  with_flow-IsFlows : IsFlows others s → IsMap with_flow.history → IsFlows others with_flow
  with_flow-IsFlows v m = record {
    table = m.table;
    nodes = λ a. omega (
      arith,
      pool_alloc-IsOwned (addrs (flatten s.history) ++ others) s.node_pool v.nodes a,
      count-append a (addrs (flatten s.history)) others,
      count-append a (addrs (flatten with_flow.history)) others,
      count-hash_insert (λ n. n.addr) a s.history (pool_alloc s.node_pool).0 ap fresh_ref v.table,
    );
    hists = λ a. omega (
      arith,
      pool_alloc-IsOwned (items (flatten s.history)) s.hist_pool v.hists a,
      count-hash_insert (λ n. n.rec.item) a s.history (pool_alloc s.node_pool).0 ap fresh_ref
          v.table,
    );
  }

  created :
      addr_hash_find s.history ap ≡ none → find_or_create cfg procs ap s ≡ (fresh_ref, with_flow)
  unfolding find_or_create history_create
  created e =
      rw
        (
          find_or_create,
          e,
          and_true cfg.show_processes,
          label_lem (owner procs ap) zeroed,
          addr_hash_insert-generic s.node_pool s.history ap fresh_ref,
        )
        refl
    where
      and_true : (b : Bool) → b && true ≡ b
      and_true true = refl
      and_true false = refl

  find_or_create-Opened :
      IsLedger others s → let r = find_or_create cfg procs ap s in Opened r.0 r.1
  unfolding find_or_create
  find_or_create-Opened v = elim (Option-cases (addr_hash_find s.history ap)) [
    | inr (r, e) ↦
        rw (find_or_create, e)
          (record {
            still = v;
            here = sym (addr_hash_find-generic s.history ap) ∙ e;
            hist = rw (hist_of, e) refl;
            elsewhere = λ q ne. refl;
            pos = refl;
            len = refl;
            totals = refl;
          })
    | inl e ↦
        let missing = sym (addr_hash_find-generic s.history ap) ∙ e in
        let node : ℕ = (pool_alloc s.node_pool).0 in
        let found = hash_find-hash_insert s.history v.once ap missing node fresh_ref in
        let m = hash_insert-IsMap s.history v.once ap missing node fresh_ref in
        rw (created e) (record {
          still = record { flows = with_flow-IsFlows v.flows m; once = m };
          here = rw (found ap, addr_fns.compare_refl ap) refl;
          hist = rw (hist_of, e) refl;
          elsewhere = λ q ne. rw (found q, ne) refl;
          pos = refl;
          len = refl;
          totals = refl;
        })
  ]

-- The state after a packet that is charged to a flow.
pub record Recorded (others : List ℕ) (cfg : Config) (procs : ProcInfo) (p : Memory) (ap : AddrPair)
    (direction : Bool) (s s' : Flows) : Type 0 where
  pub flow :
      (r : HistRef) × (addr_hash_find s'.history ap ≡ some r)
      × (r.hist
          ≡ counted s.history_pos
              (comes_from_src p ap)
              (length_of p)
              (record (hist_of cfg procs ap s) { last_write = s.history_pos }))
  pub elsewhere :
      (q : AddrPair)
      → addr_compare ap q ≡ false
      → addr_hash_find s'.history q ≡ addr_hash_find s.history q
  pub totals : s'.history_totals ≡ counted s.history_pos direction (length_of p) s.history_totals
  pub pos : s'.history_pos ≡ s.history_pos
  pub len : s'.history_len ≡ s.history_len
  pub still : IsLedger others s'

module _ (others : List ℕ) (cfg : Config) (procs : ProcInfo) (p : Memory) (ap : AddrPair)
    (direction : Bool) (s : Flows) where
  account-Recorded :
      (r : HistRef) (s₁ : Flows)
      → Opened others cfg procs ap s r s₁
      → Recorded others cfg procs p ap direction s (account p ap direction (r, s₁))
  unfolding account
  account-Recorded r s₁ o =
      let h : History =
        charge s₁.history_pos (sent_by_src p ap) (packet_len p)
          (record r.hist { last_write = s₁.history_pos }) in
      let t = write_hist r.item h s₁.history in
      record {
        flow = (
          record r { hist = h },
          addr_hash_find-generic t ap ∙ hash_find-write_hist_self s₁.history ap r h o.here,
          charge-counted s₁.history_pos (sent_by_src p ap) (packet_len p)
                (record r.hist { last_write = s₁.history_pos })
              ∙ rw (o.pos, o.hist, sent_by_src_lem p ap, packet_len_lem p) refl,
        );
        elsewhere = λ q ne.
            addr_hash_find-generic t q
            ∙ hash_find-write_hist_other s₁.history ap q r h o.still.once.table
                (count-live-le (items (flatten s₁.history)) s₁.hist_pool o.still.flows.hists) o.here
                ne
            ∙ o.elsewhere q ne
            ∙ sym (addr_hash_find-generic s.history q);
        totals =
            charge-counted s₁.history_pos direction (packet_len p) s₁.history_totals
            ∙ rw (o.pos, o.totals, packet_len_lem p) refl;
        pos = o.pos;
        len = o.len;
        still = record {
          flows = record {
            table = (write_hist-IsMap r.item h s₁.history o.still.once).table;
            nodes = rw (addrs-write_hist r.item h s₁.history) o.still.flows.nodes;
            hists = rw (items-write_hist r.item h s₁.history) o.still.flows.hists;
          };
          once = write_hist-IsMap r.item h s₁.history o.still.once;
        };
      }

-- A packet is dropped, or charged to the flow that the earlier stages choose.
abbrev pub Outcome :
    List ℕ → Config → ProcInfo → Memory → Flows → Flows → Option (AddrPair × Bool) → Type 0
Outcome others cfg procs p s s' none = s' ≡ s
Outcome others cfg procs p s s' (some (ap, direction)) =
    Recorded others cfg procs p ap direction s s'

-- From well-formed tables and pools with one record per flow, handle_ip_packet leaves the state
-- as it is when the earlier stages drop the packet. Otherwise the flow of the pair that they
-- choose has afterwards the record it had, or a zeroed one with its owner, if processes are
-- shown, written in the current slot, with the packet's length added to that slot and to the
-- total of the bytes sent, if the packet's source is the pair's, and of the bytes received, if
-- not. Every other flow and the position stay, the totals have the length added as sent or
-- received by the direction, and the state is still well formed.
pub handle_ip_packet-Outcome :
    (others : List ℕ) (cfg : Config) (procs : ProcInfo) (p : Memory) (dir : HwDir) (s : Flows)
    → IsLedger others s
    → Outcome others cfg procs p s (handle_ip_packet cfg procs p dir s).0 (charged_to cfg p dir)
unfolding handle_ip_packet
handle_ip_packet-Outcome others cfg procs p dir s v = elim (Option-cases (classify cfg p dir)) [
  | inl e ↦ rw (handle_ip_packet, charged_to, e) refl
  | inr ((ap, direction), e) ↦
      let key = with_protocol p ap in
      let found = find_or_create cfg procs key s in
      rw (handle_ip_packet, charged_to, e)
        (account-Recorded others cfg procs p key direction s found.0 found.1
          (find_or_create-Opened others cfg procs key s v))
]
