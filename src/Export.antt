-- ===== src/Export.antt =====
-- src/ui/export.c: the output in JSON and CSV as the list of its pieces, and the loop that prints it.
-- snprintf's and printf's conversions of floats and of signed numbers, inet_ntop and strftime are
-- parameters.
mod Defs
mod Output
pub mod Json
pub mod Stripped
pub mod Document
pub mod Compact
pub mod Columns
pub mod Loop
unfoldable pub use Defs.*
unfoldable pub use Output.*
