-- ===== src/Screen.antt =====
-- The screen lines of src/ui/ui.c and src/include/host_pair_line.h: the flows summed by their
-- aggregated key, the list of the lines that is displayed, its order, and the totals. The `long
-- double`s are an arbitrary type with the operations that the code uses; `qsort` and the names of
-- the hosts are parameters.
mod Defs
mod Compare
mod Build
pub mod Windows
pub mod Lines
pub mod Charges
pub mod Sums
pub mod Once
pub mod Invariant
pub mod Analysis
pub mod Contents
pub mod Start
unfoldable pub use Defs.*
unfoldable pub use Compare.*
unfoldable pub use Build.*
