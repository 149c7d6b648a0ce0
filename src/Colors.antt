-- ===== src/Colors.antt =====
-- The colours of src/ui/ui.c: the arrays that `turnOnColor` reads, and `getColors`, which sets them from
-- the file ~/.iftopcolors. The file is its bytes; what fscanf leaves in an array that nothing was
-- read into is a parameter.
mod Defs
pub mod Palette
pub mod Range
pub mod Written
unfoldable pub use Defs.*
