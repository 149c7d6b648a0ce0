-- ===== src/Options.antt =====
-- src/include/options.h and src/config/options.c: the options, their defaults, what the command
-- line and the configuration set them to. The C library's `inet_aton`, `inet_pton`, `getopt` and
-- the list of the interfaces are parameters.
mod Defs
mod Defaults
mod Enumerations
mod Config
mod Names
mod Args
pub mod Arguments
unfoldable pub use Defs.*
unfoldable pub use Defaults.*
unfoldable pub use Enumerations.*
unfoldable pub use Config.*
pub use Names.*
unfoldable pub use Args.*
