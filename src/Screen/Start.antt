-- ===== src/Screen/Start.antt =====
-- The screen that the program starts with.
use iftopcolor.Shared.{◌≡◌, refl, [], flatten, arith}
use iftopcolor.Hash.{addrs, hash_initialise}
use iftopcolor.Hash.Replace.{hash_initialise-IsMap}
use iftopcolor.AddrHash.{addr_hash_create}
use iftopcolor.AddrHash.Keys.{addr_fns}
use iftopcolor.SortedList.{sorted_list_initialise}
use iftopcolor.History.{init_history}
use iftopcolor.History.Start.{init_history-IsFlows, flatten-replicate}
use iftopcolor.Packet.Accounts.{IsLedger}
use iftopcolor.Screen.Defs.{Num}
use iftopcolor.Screen.Build.{screen_init}
use iftopcolor.Screen.Invariant.{IsDisplay}

pub init_history-IsLedger : IsLedger [] init_history
unfolding init_history addr_hash_create hash_initialise
init_history-IsLedger = record { flows = init_history-IsFlows; once = hash_initialise-IsMap }

module _ {V : Type 0} (num : Num V) where
  screen_init-flatten : flatten (screen_init num).screen_hash ≡ []
  unfolding screen_init addr_hash_create
  screen_init-flatten = flatten-replicate 2048

  pub screen_init-addrs : addrs (flatten (screen_init num).screen_hash) ≡ []
  screen_init-addrs = rw screen_init-flatten refl

  pub screen_init-IsDisplay : IsDisplay (screen_init num)
  unfolding screen_init addr_hash_create hash_initialise sorted_list_initialise
  screen_init-IsDisplay = record {
    lines = record {
      once = hash_initialise-IsMap;
      alone = λ a. rw screen_init-flatten (omega arith);
      old = λ a late. rw screen_init-flatten refl;
    };
    list = λ a. omega arith;
  }
