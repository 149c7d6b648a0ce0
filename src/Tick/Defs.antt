-- ===== src/Tick/Defs.antt =====
-- The definitions: times are whole microseconds, which the code subtracts as doubles.
use iftopcolor.Shared.{
  ℕ, ◌+◌, ◌-◌, ◌*◌, Bool, true, false, ◌&&◌, ◌||◌, Option, none, some, if◌then◌else◌, ltb, leb,
}
use iftopcolor.History.{Flows, history_rotate}
use iftopcolor.Options.{Options}
use iftopcolor.ProcInfo.{ProcInfo}
use iftopcolor.ProcInfo.Linux.{InodeTable, ProcFs, procinfo_refresh}
use iftopcolor.Screen.{Num, Display, Surroundings, resolution, analyse_data}

-- The globals that a tick reads and writes. `slot_elapsed` is in microseconds too.
pub record Program (V : Type 0) : Type 0 where
  pub flows : Flows
  pub display : Display V
  pub procs : ProcInfo
  pub inodes : InodeTable
  pub last_timestamp : ℕ
  pub last_display : ℕ
  pub last_procinfo : ℕ
  pub slot_elapsed : ℕ

-- What a tick is given: the time, what a refresh would read of /proc, the conversion of a time to
-- seconds, and the screen's surroundings, from which the tick sets `slot_elapsed`.
pub record TickInput (V : Type 0) : Type 0 where
  pub now : ℕ
  pub proc : ProcFs
  pub seconds : ℕ → V
  pub env : Surroundings V

-- RESOLUTION, PROCINFO_RESOLUTION and DISPLAY_RESOLUTION
abbrev pub slot_us : ℕ
slot_us = 1000000 * resolution

abbrev pub procinfo_us : ℕ
procinfo_us = 250000

abbrev pub display_us : ℕ
display_us = 30000

-- timeval_diff(a, b) >= interval
abbrev pub elapsed : ℕ → ℕ → ℕ → Bool
elapsed a b interval = leb (b + interval) a

-- What a tick shows: `ui_tick`, `ui_print` or `export_print`.
pub data Shown : Type 0 where
  ticked printed exported : Shown

module _ {V : Type 0} where
  unfoldable pub rotate_if_due : ℕ → Program V → Option (Program V × Bool)
  rotate_if_due now p =
      if elapsed now p.last_timestamp slot_us
      then elim (history_rotate p.flows) [
        | none ↦ none
        | some flows ↦ some (record p { flows = flows; last_timestamp = now }, true)
      ]
      else some (p, false)

  -- The clamped time since the last rotation.
  unfoldable pub time_slot : ℕ → Program V → Program V
  time_slot now p =
      let since : ℕ = now - p.last_timestamp in
      record p { slot_elapsed = if ltb slot_us since then slot_us else since }

  unfoldable pub refresh_if_due : Options → ℕ → ProcFs → Program V → Program V
  refresh_if_due opts now proc p =
      if opts.show_processes && elapsed now p.last_procinfo procinfo_us
      then (let (procs, inodes) = procinfo_refresh proc p.inodes p.procs in
          record p { procs = procs; inodes = inodes; last_procinfo = now })
      else p

  unfoldable pub display_if_due :
      Num V → Options → TickInput V → Bool → Program V → Program V × Shown
  display_if_due num opts input did_rotate p =
      if did_rotate || elapsed input.now p.last_display display_us
      then (let env = record input.env { slot_elapsed = input.seconds p.slot_elapsed } in
          let (flows, display) = analyse_data num opts p.procs env p.flows p.display in
          (
            record p { flows = flows; display = display; last_display = input.now },
            if leb 1 opts.export_mode then exported else printed,
          ))
      else (p, ticked)

  -- `none` is a rotation that follows a pointer into freed memory.
  unfoldable pub tick : Num V → Options → TickInput V → Program V → Option (Program V × Shown)
  tick num opts input p = elim (rotate_if_due input.now p) [
    | none ↦ none
    | some (p₁, did_rotate) ↦ some (
        display_if_due num opts input did_rotate
          (refresh_if_due opts input.now input.proc (time_slot input.now p₁)))
  ]
