-- ===== src/ConfigFile.antt =====
-- The configuration file of src/config/cfgfile.c: its lines as `fgets` returns them, the string map that
-- they fill, and the typed lookups. The pieces that `fgets` returns fit the buffer of 2048 bytes, and so
-- do continued lines. What is printed as a warning is left out.
mod Defs
pub mod Continued
pub mod Precedence
pub mod Format
unfoldable pub use Defs.*
