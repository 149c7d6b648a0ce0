-- ===== src/History/Start.antt =====
-- The state that the program starts with.
use iftopcolor.Shared.{ℕ, zero, suc, ◌≡◌, refl, [], flatten, replicate}
use iftopcolor.Pool.Owned.{new_pool-IsOwned}
use iftopcolor.Hash.{hash_initialise}
use iftopcolor.Hash.Place.{hash_initialise-IsTable}
use iftopcolor.AddrHash.{addr_hash_create}
use iftopcolor.AddrHash.Keys.{addr_fns}
use iftopcolor.History.Defs.{init_history}
use iftopcolor.History.Step.{IsFlows}

pub flatten-replicate {ℓ} : {A : Type ℓ} (n : ℕ) → flatten {A = A} (replicate n []) ≡ []
unfolding flatten
flatten-replicate zero = refl
flatten-replicate (suc n) = flatten-replicate n

pub init_history-IsFlows : IsFlows [] init_history
unfolding init_history addr_hash_create hash_initialise
init_history-IsFlows = record {
  table = hash_initialise-IsTable;
  nodes = rw (flatten-replicate 2048) new_pool-IsOwned;
  hists = rw (flatten-replicate 2048) new_pool-IsOwned;
}

pub init_history-flatten : flatten init_history.history ≡ []
unfolding init_history addr_hash_create
init_history-flatten = flatten-replicate 2048
