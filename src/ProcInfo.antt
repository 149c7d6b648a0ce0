-- ===== src/ProcInfo.antt =====
-- The process table of src/util/procinfo.c: the sockets that a refresh has found, published as a
-- whole, and the search for the process behind an address and a port.
mod Defs
pub mod Publish
pub mod Linux
pub mod Sockets
unfoldable pub use Defs.*
