-- ===== src/SortedList.antt =====
-- src/data/sorted_list.c and src/include/sorted_list.h: a list kept in the order of a client's
-- `compare`, whose result is only ever tested for being positive. `qsort` is the C library's: a
-- parameter. A node is known by the allocation that it lies in, `block`.
mod Defs
pub mod Sorted
pub mod Blocks
unfoldable pub use Defs.*
