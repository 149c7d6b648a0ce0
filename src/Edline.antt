-- ===== src/Edline.antt =====
-- src/util/edline.c: the editing of a line of text, key by key. `isprint` and `isspace` of the C
-- library and the keys that `getch` returns are parameters; what is drawn is left out, but for
-- the part of the line that is visible.
mod Defs
pub mod Zipper
pub mod Places
pub mod Refinement
pub mod Window
unfoldable pub use Defs.*
