-- ===== src/Tick/Current.antt =====
-- What is due is done: no interval is over behind a tick.
use iftopcolor.Shared.{◌≡◌, ◌≤◌, Bool, true, false, ◌&&◌, ◌||◌, some, if◌then◌else◌}
use iftopcolor.History.{Flows, history_rotate}
use iftopcolor.Options.{Options}
use iftopcolor.Screen.{Num, analyse_data}
use iftopcolor.Tick.Defs.{Program, TickInput, Shown, elapsed, slot_us, procinfo_us, display_us}
use iftopcolor.ProcInfo.Linux.{procinfo_refresh}

module _ {V : Type 0} (num : Num V) (opts : Options) (input : TickInput V) where
  -- No interval is over at the time of the tick.
  pub record Current (p' : Program V) : Type 0 where
    pub slot : elapsed input.now p'.last_timestamp slot_us ≡ false
    pub display : elapsed input.now p'.last_display display_us ≡ false
    pub procinfo :
        opts.show_processes ≡ true → elapsed input.now p'.last_procinfo procinfo_us ≡ false
    pub clamped : p'.slot_elapsed ≤ slot_us

  -- What was due is done: the flows are those of a rotation, the processes those of a refresh, and
  -- the flows and the screen those of an analysis; what was not due is as before.
  pub record Done (p p' : Program V) : Type 0 where
    pub rotated : Flows
    pub history :
        (if elapsed input.now p.last_timestamp slot_us
          then history_rotate p.flows
          else some p.flows)
        ≡ some rotated
    pub processes : p'.procs ≡ (
        if opts.show_processes && elapsed input.now p.last_procinfo procinfo_us
        then (procinfo_refresh input.proc p.inodes p.procs).0
        else p.procs)
    pub screen : (p'.flows, p'.display) ≡ (
        if elapsed input.now p.last_timestamp slot_us || elapsed input.now p.last_display display_us
        then analyse_data num opts p'.procs
            (record input.env { slot_elapsed = input.seconds p'.slot_elapsed })
            rotated
            p.display
        else (rotated, p.display))

  -- What a refresh leaves.
  record Beside (due : Bool) (p p' : Program V) : Type 0 where
    procs : p'.procs ≡ (if due then (procinfo_refresh input.proc p.inodes p.procs).0 else p.procs)
    flows : p'.flows ≡ p.flows
    screen : p'.display ≡ p.display
    slot : p'.last_timestamp ≡ p.last_timestamp
    display : p'.last_display ≡ p.last_display
    since : p'.slot_elapsed ≡ p.slot_elapsed

  -- What the display leaves.
  record Painted (did : Bool) (p : Program V) (r : Program V × Shown) : Type 0 where
    display : elapsed input.now r.0.last_display display_us ≡ false
    slot : r.0.last_timestamp ≡ p.last_timestamp
    procinfo : r.0.last_procinfo ≡ p.last_procinfo
    since : r.0.slot_elapsed ≡ p.slot_elapsed
    procs : r.0.procs ≡ p.procs
    painted : (r.0.flows, r.0.display) ≡ (
        if did || elapsed input.now p.last_display display_us
        then analyse_data num opts p.procs
            (record input.env { slot_elapsed = input.seconds p.slot_elapsed })
            p.flows
            p.display
        else (p.flows, p.display))
