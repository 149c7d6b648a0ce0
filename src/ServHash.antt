-- ===== src/ServHash.antt =====
-- src/data/map/serv_hash.c and src/include/serv_hash.h: service names by port and protocol. Two
-- arrays serve TCP and UDP, a hash table the other protocols and the ports out of range. The ports
-- and protocols of the model are not negative: they come out of `ntohs` and the protocol table.
-- A name is a C string; NULL is `none`. The count is a C `int`, one for each insertion.
mod Defs
pub mod Init
pub mod Lookup
unfoldable pub use Defs.*
