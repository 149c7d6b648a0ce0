-- ===== src/AddrHash.antt =====
-- src/data/map/addr_hash.c and `addr_pair` of src/include/addr_hash.h: the table of flows, whose
-- operations are written out again for speed and take their nodes from a pool.
--
-- An address is the 16 bytes of the union of `struct in_addr` and `struct in6_addr`; an IPv4
-- address stands in the first four. Words are read little-endian, as on the machines that the
-- program is built for. The padding of the struct is zero, since every pair is cleared first.
mod Defs
pub mod Keys
pub mod Generic
pub mod Emptied
unfoldable pub use Defs.*
