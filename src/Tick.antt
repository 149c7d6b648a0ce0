-- ===== src/Tick.antt =====
-- `tick` of src/entry/iftop.c, which rotates the history, refreshes the process table and repaints
-- the display, each at its own interval, and the program as a sequence of packets and ticks.
mod Defs
pub mod Steps
pub mod Reach
pub mod Current
unfoldable pub use Defs.*
