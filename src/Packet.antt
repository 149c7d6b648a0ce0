-- ===== src/Packet.antt =====
-- The packet handlers of src/entry/iftop.c: from the bytes that pcap hands over to the flow that is
-- charged for them.
mod Defs
mod Headers
mod Links
pub mod Replies
pub mod Store
pub mod Accounts
pub mod Charges
pub mod Ledger
pub mod Vlan
unfoldable pub use Defs.*
unfoldable pub use Headers.*
unfoldable pub use Links.*
