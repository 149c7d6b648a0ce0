-- ===== src/Tick/Reach.antt =====
-- The states that the program comes to, from its start on.
use iftopcolor.Shared.{[], ℕ, ◌≡◌, flatten, none, some}
use iftopcolor.History.{init_history}
use iftopcolor.Options.{Options}
use iftopcolor.Packet.{Memory, Config, HwDir}
use iftopcolor.Screen.{Num, screen_init}
use iftopcolor.Screen.Analysis.{Permutes}
use iftopcolor.Screen.Start.{screen_init-IsDisplay, screen_init-addrs, init_history-IsLedger}
use iftopcolor.Tick.Defs.{Program, TickInput, Shown, tick}
use iftopcolor.Tick.Steps.{IsProgram, packet_step}

module _ {V : Type 0} (num : Num V) where
  -- The program before its first packet and tick.
  unfoldable pub program_start : ℕ → Program V
  program_start now = record {
    flows = init_history;
    display = screen_init num;
    procs = record { live = none; staging = none };
    inodes = record { entries = []; cap = 0 };
    last_timestamp = now;
    last_display = now;
    last_procinfo = now;
    slot_elapsed = 0;
  }

  -- One step: a packet, or a tick that returns.
  pub data Step (p : Program V) : Program V → Type 0 where
    packet : (cfg : Config) (memory : Memory) (dir : HwDir) → Step p (packet_step cfg memory dir p)
    ticked :
        (opts : Options) (input : TickInput V) (p' : Program V) (shown : Shown)
        → Permutes input.env
        → tick num opts input p ≡ some (p', shown)
        → Step p p'

  pub data Reaches (p : Program V) : Program V → Type 0 where
    here : Reaches p p
    later : (q r : Program V) → Reaches p q → Step q r → Reaches p r

  pub program_start-IsProgram : (now : ℕ) → IsProgram (program_start now)
  unfolding flatten program_start
  program_start-IsProgram now = record {
    ledger = rw (screen_init-addrs num) init_history-IsLedger;
    display = screen_init-IsDisplay num;
  }
