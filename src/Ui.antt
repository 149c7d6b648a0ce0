-- ===== src/Ui.antt =====
-- The keys of src/ui/ui.c: what `ui_loop` does to the options, and when it calls `tick` and `ui_print`.
-- Drawing is left out; the prompts' answers, the filter's compilation and the clock are parameters.
mod Messages
mod Defs
pub mod Toggles
pub mod Bounds
pub use Messages.*
unfoldable pub use Defs.*
