-- ===== src/Vector.antt =====
-- src/data/vector.c and src/include/vector.h. An `item` is a machine word, a pointer or a `long`, so
-- a zeroed item is 0. The list `items` is the allocated memory, `capacity` items of it. The sizes
-- are `size_t`s, which memory bounds long before they wrap.
mod Defs
pub mod Contents
pub mod Removal
unfoldable pub use Defs.*
