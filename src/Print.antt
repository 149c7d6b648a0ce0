-- ===== src/Print.antt =====
-- `ui_print` of src/ui/ui.c and what it calls, as the list of its calls of curses. Those that only
-- start and end the frame (erase, move, refresh) are left out, as are the marks of the bars' scale,
-- which stand as a list. A place that would be negative is `none`; curses draws nothing there.
-- The floats, their format by snprintf, the host names and regexec are parameters.
mod Defs
mod Frame
pub mod Host
pub mod Lines
pub mod Rows
pub mod Attributes
unfoldable pub use Defs.*
unfoldable pub use Frame.*
