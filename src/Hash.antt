-- ===== src/Hash.antt =====
-- src/data/map/hash.c and the types of src/include/hash.h: a table of chains whose client gives the
-- functions `hash` and `compare`. The section's parameter is what a client sets in `hash_type`,
-- with the laws that the table needs.
--
-- A node is known by its address. `next` is the rest of the chain that the node stands in, and a
-- key is a value: `copy_key` makes a copy that only the node owns. `xmalloc` aborts rather than
-- fail, so an insertion takes the address of the new node as an argument. An operation that frees
-- nodes returns their addresses, in the order of the calls of `free`.
mod Defs
mod Laws
pub mod Records
pub mod Iterate
pub mod Place
pub mod Walk
pub mod Pointer
pub mod Unlink
pub mod Replace
pub mod Census
pub mod Size
pub mod Mapped
pub mod Overwrite
unfoldable pub use Defs.*
unfoldable pub use Laws.*
