-- ===== src/Tick/Steps.antt =====
-- The program as steps: packets and ticks, in any order, each with the options of its moment.
use iftopcolor.Shared.{
  ℕ, ◌≡◌, refl, sym, Bool, true, false, ◌&&◌, ◌||◌, some, arith, if◌then◌else◌, Bool-cases, inl,
  inr, flatten,
}
use iftopcolor.Hash.{addrs}
use iftopcolor.History.{history_rotate}
use iftopcolor.Options.{Options}
use iftopcolor.ProcInfo.Linux.{ProcFs, procinfo_refresh}
use iftopcolor.Packet.{Memory, Config, HwDir, handle_ip_packet}
use iftopcolor.Packet.Replies.{charged_to}
use iftopcolor.Packet.Accounts.{IsLedger, handle_ip_packet-Outcome}
use iftopcolor.Packet.Ledger.{history_rotate-IsLedger, Outcome-IsLedger}
use iftopcolor.Screen.{Num, Surroundings}
use iftopcolor.Screen.Invariant.{IsDisplay}
use iftopcolor.Screen.Analysis.{Permutes, analyse_data-IsDisplay}
use iftopcolor.Tick.Defs.{
  Program, TickInput, Shown, rotate_if_due, time_slot, refresh_if_due, display_if_due, tick,
  elapsed, slot_us,
}

module _ {V : Type 0} where
  -- The flows' table, the screen's table, the two pools and the screen's list fit together.
  pub record IsProgram (p : Program V) : Type 0 where
    pub ledger : IsLedger (addrs (flatten p.display.screen_hash)) p.flows
    pub display : IsDisplay p.display

  -- handle_ip_packet, on the program's flows.
  abbrev pub packet_step : Config → Memory → HwDir → Program V → Program V
  packet_step cfg packet dir p = record p {
    flows = (handle_ip_packet cfg p.procs packet dir p.flows).0;
  }

  pub packet_step-IsProgram :
      (cfg : Config) (packet : Memory) (dir : HwDir) (p : Program V)
      → IsProgram p
      → IsProgram (packet_step cfg packet dir p)
  packet_step-IsProgram cfg packet dir p v =
      let others = addrs (flatten p.display.screen_hash) in
      record {
        ledger =
            Outcome-IsLedger others cfg p.procs packet p.flows _ (charged_to cfg packet dir)
              v.ledger (handle_ip_packet-Outcome others cfg p.procs packet dir p.flows v.ledger);
        display = v.display;
      }

  -- A program behind the rotation that may be due.
  pub record Turned (now : ℕ) (p : Program V) (p' : Program V) (did : Bool) : Type 0 where
    pub still : IsProgram p'
    pub slot : elapsed now p'.last_timestamp slot_us ≡ false
    pub due : did ≡ elapsed now p.last_timestamp slot_us
    pub display : p'.last_display ≡ p.last_display
    pub procinfo : p'.last_procinfo ≡ p.last_procinfo
    pub flows :
        (if elapsed now p.last_timestamp slot_us then history_rotate p.flows else some p.flows)
        ≡ some p'.flows
    pub screen : p'.display ≡ p.display
    pub procs : p'.procs ≡ p.procs
    pub inodes : p'.inodes ≡ p.inodes

  pub rotate_if_due-Turned :
      (now : ℕ) (p : Program V)
      → IsProgram p
      → (p' : Program V) × (did : Bool) × (rotate_if_due now p ≡ some (p', did))
        × Turned now p p' did
  unfolding rotate_if_due
  rotate_if_due-Turned now p v = elim (Bool-cases (elapsed now p.last_timestamp slot_us)) [
    | inl e ↦
        let (s, turn, w) =
          history_rotate-IsLedger (addrs (flatten p.display.screen_hash)) p.flows v.ledger in
        (
          record p { flows = s; last_timestamp = now },
          true,
          simp (rotate_if_due, e, turn) refl,
          record {
            still = record { ledger = w; display = v.display };
            slot = ground arith;
            due = sym e;
            display = refl;
            procinfo = refl;
            flows = rw e turn;
            screen = refl;
            procs = refl;
            inodes = refl;
          },
        )
    | inr e ↦ (
      p,
      false,
      simp (rotate_if_due, e) refl,
      record {
        still = v;
        slot = e;
        due = sym e;
        display = refl;
        procinfo = refl;
        flows = rw e refl;
        screen = refl;
        procs = refl;
        inodes = refl;
      },
    )
  ]

  time_slot-IsProgram : (now : ℕ) (p : Program V) → IsProgram p → IsProgram (time_slot now p)
  unfolding time_slot
  time_slot-IsProgram now p v = record { ledger = v.ledger; display = v.display }

  refresh_if_due-IsProgram :
      (opts : Options) (now : ℕ) (proc : ProcFs) (p : Program V)
      → IsProgram p
      → IsProgram (refresh_if_due opts now proc p)
  unfolding refresh_if_due
  refresh_if_due-IsProgram opts now proc p v =
      split (opts.show_processes && elapsed now p.last_procinfo 250000)
    where
      split :
          (b : Bool)
          → IsProgram (
              if b
              then record p {
                procs = (procinfo_refresh proc p.inodes p.procs).0;
                inodes = (procinfo_refresh proc p.inodes p.procs).1;
                last_procinfo = now;
              }
              else p)
      split true = record { ledger = v.ledger; display = v.display }
      split false = v

  display_if_due-IsProgram :
      (num : Num V) (opts : Options) (input : TickInput V) (did : Bool) (p : Program V)
      → Permutes input.env
      → IsProgram p
      → IsProgram (display_if_due num opts input did p).0
  unfolding display_if_due
  display_if_due-IsProgram num opts input did p perm v =
      elim (Bool-cases (did || elapsed input.now p.last_display 30000)) [
        | inl e ↦
            let env : Surroundings V = record input.env {
              slot_elapsed = input.seconds p.slot_elapsed;
            } in
            let (w, d) =
              analyse_data-IsDisplay num opts p.procs env p.flows p.display perm v.ledger
                v.display in
            simp (display_if_due, e) (record { ledger = w; display = d })
        | inr e ↦ simp (display_if_due, e) v
      ]

  -- A tick at any time, with any options, does not follow a pointer into freed memory and keeps the
  -- program well formed, if it was, whichever of its three intervals are over; `qsort` is taken to
  -- permute its array.
  pub tick-IsProgram :
      (num : Num V) (opts : Options) (input : TickInput V) (p : Program V)
      → Permutes input.env
      → IsProgram p
      → (p' : Program V) × (shown : Shown) × (tick num opts input p ≡ some (p', shown))
        × IsProgram p'
  unfolding tick
  tick-IsProgram num opts input p perm v =
      let (p₁, did, turn, w) = rotate_if_due-Turned input.now p v in
      let p₂ = refresh_if_due opts input.now input.proc (time_slot input.now p₁) in
      let r = display_if_due num opts input did p₂ in
      (
        r.0,
        r.1,
        simp (tick, turn) refl,
        display_if_due-IsProgram num opts input did p₂ perm (
            refresh_if_due-IsProgram opts input.now input.proc (time_slot input.now p₁)
              (time_slot-IsProgram input.now p₁ w.still)),
      )
