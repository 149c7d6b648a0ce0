-- ===== src/Packet/Ledger.antt =====
-- The capture thread as a sequence of packets and rotations.
use iftopcolor.Shared.{
  ℕ, ◌≤◌, ◌≡◌, refl, ap, ◌∙◌, sym, Bool, List, [], ◌∷◌, flatten, Option, none, some, arith, ◌==◌,
  Bool-cases, inl, inr, length, rest,
}
use iftopcolor.Hash.Place.{records-flatten}
use iftopcolor.Hash.Records.{matching, records}
use iftopcolor.AddrHash.{AddrPair}
use iftopcolor.AddrHash.Keys.{addr_fns}
use iftopcolor.History.{HistRef, Flows, history_rotate}
use iftopcolor.History.Step.{FlowChain, survivors}
use iftopcolor.History.Rotate.{history_rotate-IsRotation}
use iftopcolor.ProcInfo.{ProcInfo}
use iftopcolor.Packet.Headers.{Memory, Config}
use iftopcolor.Packet.Defs.{HwDir, handle_ip_packet}
use iftopcolor.Packet.Replies.{charged_to}
use iftopcolor.Packet.Accounts.{IsLedger, Outcome, handle_ip_packet-Outcome}

-- A rotation leaves no flow with more records than it had.
fewer-matching :
    (q : AddrPair) (pos : ℕ) (c : FlowChain)
    → length (matching q (survivors pos c)) ≤ length (matching q c)
unfolding matching
fewer-matching q pos [] = omega arith
fewer-matching q pos (n ∷ c) = elim (Bool-cases (n.rec.hist.last_write == pos)) [
  | inl e ↦ elim (Bool-cases (addr_fns.compare n.key q)) [
    | inl f ↦ rw (e, f) (omega (arith, fewer-matching q pos c))
    | inr f ↦ rw (e, f) (fewer-matching q pos c)
  ]
  | inr e ↦ elim (Bool-cases (addr_fns.compare n.key q)) [
    | inl f ↦ rw (e, f) (omega (arith, fewer-matching q pos c))
    | inr f ↦ rw (e, f) (fewer-matching q pos c)
  ]
]

length-rest : (l : List HistRef) → rest l ≡ [] → length l ≤ 1
length-rest [] e = omega arith
length-rest (r ∷ l) e = rw e (omega arith)

rest-short : (l : List HistRef) → length l ≤ 1 → rest l ≡ []
rest-short [] h = refl
rest-short (r ∷ []) h = refl
rest-short (r ∷ s ∷ l) h = absurd (omega (arith, h))

pub history_rotate-IsLedger :
    (others : List ℕ) (s : Flows)
    → IsLedger others s
    → (s' : Flows) × (history_rotate s ≡ some s') × IsLedger others s'
history_rotate-IsLedger others s v =
    let (s', run, r) = history_rotate-IsRotation others s v.flows in
    (
      s',
      run,
      record {
        flows = r.still;
        once = record {
          table = r.still.table;
          once = λ q. rest-short (records s'.history q) (
              rw (records-flatten s'.history q r.still.table, r.flows)
                (omega (
                  arith,
                  fewer-matching q s'.history_pos (flatten s.history),
                  length-rest (matching q (flatten s.history))
                      (ap rest (sym (records-flatten s.history q v.once.table)) ∙ v.once.once q),
                )));
        };
      },
    )

-- What the capture thread does to the flows, in the order in which it happens: a packet, with the
-- options and the process table of that moment, or a rotation.
pub data Event : Type 0 where
  packet : Config → ProcInfo → Memory → HwDir → Event
  rotation : Event

-- `none` is a run that has dereferenced a pointer into freed memory, or run out of fuel.
unfoldable pub run : List Event → Flows → Option Flows
run [] s = some s
run (packet cfg procs p dir ∷ events) s = run events (handle_ip_packet cfg procs p dir s).0
run (rotation ∷ events) s = elim (history_rotate s) [ none ↦ none | some s' ↦ run events s' ]

pub Outcome-IsLedger :
    (others : List ℕ) (cfg : Config) (procs : ProcInfo) (p : Memory) (s s' : Flows)
    (c : Option (AddrPair × Bool))
    → IsLedger others s
    → Outcome others cfg procs p s s' c
    → IsLedger others s'
Outcome-IsLedger others cfg procs p s s' none v e = rw e v
Outcome-IsLedger others cfg procs p s s' (some (key, direction)) v r = r.still

-- From well-formed tables and pools with one record per flow, any sequence of packets, under any
-- options and process tables, and of rotations of the history runs to its end, without following
-- a pointer into freed memory, and leaves them well formed with one record per flow: every node
-- and every flow record of the pools is free or stands in a table, once.
pub run-IsLedger :
    (others : List ℕ) (events : List Event) (s : Flows)
    → IsLedger others s
    → (s' : Flows) × (run events s ≡ some s') × IsLedger others s'
unfolding run
run-IsLedger others [] s v = (s, refl, v)
run-IsLedger others (packet cfg procs p dir ∷ events) s v =
    run-IsLedger others events (handle_ip_packet cfg procs p dir s).0 (
      Outcome-IsLedger others cfg procs p s _ (charged_to cfg p dir) v
        (handle_ip_packet-Outcome others cfg procs p dir s v))
run-IsLedger others (rotation ∷ events) s v =
    let (s₁, turn, w) = history_rotate-IsLedger others s v in
    let (s', runs, w') = run-IsLedger others events s₁ w in (s', rw (run, turn) runs, w')
