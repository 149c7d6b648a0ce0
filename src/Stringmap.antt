-- ===== src/Stringmap.antt =====
-- src/data/map/stringmap.c: an unbalanced binary search tree over C strings, which are lists of
-- their bytes less the NUL. `xcalloc` and `xstrdup` abort rather than fail. A node that
-- `stringmap_new` made has no key until the first insertion gives it one; only the root is ever in
-- that state, since the other nodes get their keys in the step that makes them.
mod Defs
pub mod Order
pub mod Dictionary
unfoldable pub use Defs.*
